-- ===== src/Releases/Tidy.antt =====
-- What an upload leaves on the disk: `handleReleaseUpload` of
-- backend/internal/httpapi/admin_releases.go.
use hsgram_admin.Prelude.{ℕ, ◌≡◌, ◌⊎◌, refl, true, false, Option, none, some, inl, inr, Bool-cases}
use hsgram_admin.Prelude.Text.{Text, trim, text_eq, text_eq_refl}
use hsgram_admin.Sql.{Result, ok, err, fault, World, run_sql, pure}
use hsgram_admin.Releases.Types.{AppRelease, AdminUser, CreateParams, Tables, ReleaseError, Outside}
use hsgram_admin.Releases.Store.{create_app_release}
use hsgram_admin.Releases.Manifest.{Request, Site}
use hsgram_admin.Releases.Paths.{
  Disk, File, Files, Written, no_temp, broken, written, put_file, remove_file, Prepared,
  UploadError, prepare_release_path,
}
use hsgram_admin.Releases.Upload.{
  UploadForm, Checked, UploadAnswer, check_apk, upload_params, after_create, create_checked,
  after_write, after_prepare, after_check, check_form, handle_release_upload,
}

-- No file is new and none has other contents: what is there was there before.
abbrev pub NoneNew : Disk → Files → Type 0
NoneNew d files = (q : Text) → (files q ≡ none) ⊎ (files q ≡ d.files q)

-- All files but one are as before.
abbrev pub OneNew : Disk → Files → Type 0
OneNew d files =
    (path : Text) × (x : File) × (files path ≡ some x)
    × ((q : Text) → text_eq q path ≡ false → files q ≡ d.files q)

abbrev pub LeftWith : Disk → Files → Result UploadError AppRelease → Type 0
LeftWith d files (ok a) = OneNew d files
LeftWith d files (err e) = NoneNew d files
LeftWith d files fault = ⊥

-- The upload is answered.
abbrev pub Tidy : Disk → Result ReleaseError UploadAnswer → Type 0
Tidy d (ok y) = LeftWith d y.files y.answer
Tidy d (err e) = ⊥
Tidy d fault = ⊥

module _ (d : Disk) (removes : (q : Text) → d.removes q ≡ true) where
  remove-put : (path : Text) (x : File) → NoneNew d (remove_file d path (put_file path x d.files))
  unfolding remove_file put_file
  remove-put path x q = elim (Bool-cases (text_eq q path)) [
    | inl y ↦ inl (rw (removes path, y) refl)
    | inr n ↦ inr (rw (removes path, n) refl)
  ]

  put-OneNew : (path : Text) (x : File) → OneNew d (put_file path x d.files)
  unfolding put_file
  put-OneNew path x = (path, x, rw (text_eq_refl path) refl, λ q n. rw n refl)

  unchanged : NoneNew d d.files
  unchanged q = inr refl

  after_create-Tidy :
      (path : Text) (x : File) (r : Result ReleaseError AppRelease)
      → let y = after_create d (put_file path x d.files) path r in LeftWith d y.files y.answer
  after_create-Tidy path x (ok a) = put-OneNew path x
  after_create-Tidy path x (err e) = remove-put path x
  after_create-Tidy path x fault = remove-put path x

  module _ (o : Outside) (now : ℕ) (admin : AdminUser) (site : Site) (r : Request)
      (f : UploadForm) where
    create_checked-Tidy :
        (p : CreateParams) (x : File) (e : Option UploadError) (w : World Tables (Unit {0}))
        → Tidy d (create_checked o now admin d (put_file p.storage_path x d.files) p e w).0
    unfolding run_sql
    create_checked-Tidy p x none w =
        after_create-Tidy p.storage_path x (create_app_release o now admin p w).0
    create_checked-Tidy p x (some e) w = remove-put p.storage_path x

    after_write-Tidy :
        (c : Checked) (p : Prepared) (x : Written) (w : World Tables (Unit {0}))
        → Tidy d (after_write o site r d now admin f c p x w).0
    unfolding pure upload_params
    after_write-Tidy c p no_temp w = unchanged
    after_write-Tidy c p (broken temp x) w = remove-put temp x
    after_write-Tidy c p (written size sha x) w =
        create_checked-Tidy (upload_params site r f c p size sha) x
          (check_apk (put_file p.storage_path x d.files) p.storage_path c (trim f.version)) w

    after_prepare-Tidy :
        (c : Checked) (x : Result UploadError Prepared) (w : World Tables (Unit {0}))
        → Tidy d (after_prepare o site r d now admin f c x w).0
    unfolding pure
    after_prepare-Tidy c (ok p) w = after_write-Tidy c p (d.write p.storage_path) w
    after_prepare-Tidy c (err e) w = unchanged
    after_prepare-Tidy c fault w = unchanged

    after_check-Tidy :
        (unix : ℕ) (x : Result UploadError Checked) (w : World Tables (Unit {0}))
        → Tidy d (after_check o site r d now unix admin f x w).0
    unfolding pure
    after_check-Tidy unix (ok c) w =
        after_prepare-Tidy c (prepare_release_path o d unix c.place (trim f.version) c.filename) w
    after_check-Tidy unix (err e) w = unchanged
    after_check-Tidy unix fault w = unchanged

-- Whichever statements and writes fail, where removing a file succeeds: an upload that is answered with
-- a release has written one file and left all others as they were; behind any other, each file that is
-- there was there before with the same contents, so no temporary file is left.
pub handle_release_upload-Tidy :
    (o : Outside) (site : Site) (r : Request) (d : Disk) (now unix : ℕ) (admin : AdminUser)
    (f : UploadForm) (w : World Tables (Unit {0}))
    → ((q : Text) → d.removes q ≡ true)
    → Tidy d (handle_release_upload o site r d now unix admin f w).0
unfolding handle_release_upload
handle_release_upload-Tidy o site r d now unix admin f w removes =
    after_check-Tidy d removes o now admin site r f unix (check_form o f) w
