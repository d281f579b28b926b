-- ===== src/Releases/Uploaded.antt =====
-- What an upload leaves in the release tables: `handleReleaseUpload` of
-- backend/internal/httpapi/admin_releases.go.
use hsgram_admin.Prelude.{
  ℕ, ◌≡◌, ◌⊎◌, refl, sym, true, Option, none, some, inl, inr, Bool-cases, ==_iff, ◌==◌,
  if◌then◌else◌,
}
use mathlib.Core.Path.{subst}
use hsgram_admin.Prelude.Text.{Text, trim, text_eq, text_eq_refl}
use hsgram_admin.Sql.{Result, ok, err, fault, World, run_sql, pure}
use hsgram_admin.Apk.Bytes.{Parse, ok, bad, panic, stuck}
use hsgram_admin.Apk.Manifest.{Metadata, read_apk}
use hsgram_admin.Releases.Names.{android}
use hsgram_admin.Releases.Types.{AppRelease, AdminUser, CreateParams, Tables, ReleaseError, Outside}
use hsgram_admin.Releases.Store.{create_app_release}
use hsgram_admin.Releases.Manifest.{Request, Site}
use hsgram_admin.Releases.Paths.{
  Disk, File, Files, Written, no_temp, broken, written, put_file, remove_file, Prepared,
  UploadError, not_created, prepare_release_path,
}
use hsgram_admin.Releases.Upload.{
  UploadForm, Checked, UploadAnswer, check_metadata, archive_of, check_apk, upload_params,
  after_create, create_checked, after_write, after_prepare, after_check, check_form,
  handle_release_upload,
}
use hsgram_admin.Releases.NewRow.{HasNew, create_app_release-Grown}

-- The file is an APK whose manifest has the version code.
pub record IsApk (x : File) (code : ℕ) : Type 0 where
  pub metadata : Metadata
  pub readable : read_apk x ≡ ok metadata
  pub same_code : metadata.version_code ≡ code

check_metadata-IsApk :
    (x : File) (code : ℕ) (version : Text) (y : Parse Metadata)
    → read_apk x ≡ y
    → check_metadata code version y ≡ none
    → IsApk x code
check_metadata-IsApk x code version (ok meta) e h = record {
  metadata = meta;
  readable = e;
  same_code = elim (Bool-cases (meta.version_code == code)) [
    | inl y ↦ (==_iff meta.version_code code).0 y
    | inr n ↦ let no = rw n at h in cc
  ];
}
check_metadata-IsApk x code version (bad e₀) e h = cc
check_metadata-IsApk x code version panic e h = cc
check_metadata-IsApk x code version stuck e h = cc

put_file-same : (path : Text) (x : File) (files : Files) → put_file path x files path ≡ some x
unfolding put_file
put_file-same path x files = rw (text_eq_refl path) refl

check_apk-IsApk :
    (path version : Text) (x : File) (files : Files) (c : Checked)
    → text_eq c.place.platform android ≡ true
    → check_apk (put_file path x files) path c version ≡ none
    → IsApk x c.version_code
unfolding check_apk
check_apk-IsApk path version x files c e h =
    let there = put_file-same path x files in
    let checked : check_metadata c.version_code version (read_apk x) ≡ none =
      subst (λ y. check_metadata c.version_code version (read_apk (archive_of y)) ≡ none) there
        (rw e at h) in
    check_metadata-IsApk x c.version_code version (read_apk x) refl checked

-- The file is there where a release is returned, and is removed where none is.
abbrev pub LeftAs : Disk → Text → File → UploadAnswer → Type 0
LeftAs d path x y = elim y.answer [
  | ok a ↦ y.files path ≡ some x
  | err e ↦ (e ≡ not_created) × (y.files path ≡ (if d.removes path then none else some x))
  | fault ↦ ⊥
]

-- Nothing was changed, or a row was inserted for an APK of its version code.
abbrev pub Stored :
    Disk → ℕ → Tables → Result ReleaseError UploadAnswer × World Tables (Unit {0}) → Type 0
Stored d code t (ok y, w) =
    (w.tables ≡ t)
    ⊎ ((path : Text) × (x : File) × HasNew code (trim path) t w.tables
        × IsApk x code
        × LeftAs d path x y)
Stored d code t (err e, w) = ⊥
Stored d code t (fault, w) = ⊥

removed :
    (d : Disk) (path : Text) (x : File) (files : Files)
    → remove_file d path (put_file path x files) path ≡ (if d.removes path then none else some x)
unfolding remove_file
removed d path x files = elim (Bool-cases (d.removes path)) [
  | inl y ↦ rw (y, text_eq_refl path) refl
  | inr n ↦ rw n (put_file-same path x files)
]

after_create-LeftAs :
    (d : Disk) (path : Text) (x : File) (files : Files) (r : Result ReleaseError AppRelease)
    → LeftAs d path x (after_create d (put_file path x files) path r)
unfolding remove_file
after_create-LeftAs d path x files (ok a) = put_file-same path x files
after_create-LeftAs d path x files (err e) = (refl, removed d path x files)
after_create-LeftAs d path x files fault = (refl, removed d path x files)

module _ (o : Outside) (now : ℕ) (admin : AdminUser) (d : Disk) where
  create_checked-Stored :
      (p : CreateParams) (x : File) (r : Option UploadError) (w : World Tables (Unit {0}))
      → (r ≡ none → IsApk x p.version_code)
      → Stored d p.version_code w.tables
          (create_checked o now admin d (put_file p.storage_path x d.files) p r w)
  unfolding run_sql
  create_checked-Stored p x none w h = elim (create_app_release-Grown o now admin p w) [
    | inl e ↦ inl e
    | inr n ↦ inr (
      p.storage_path,
      x,
      n,
      h refl,
      after_create-LeftAs d p.storage_path x d.files (create_app_release o now admin p w).0,
    )
  ]
  create_checked-Stored p x (some e) w h = inl refl

  module _ (site : Site) (r : Request) (f : UploadForm) (c : Checked)
      (is_android : text_eq c.place.platform android ≡ true) where
    after_write-Stored :
        (p : Prepared) (x : Written) (w : World Tables (Unit {0}))
        → Stored d c.version_code w.tables (after_write o site r d now admin f c p x w)
    unfolding pure upload_params
    after_write-Stored p no_temp w = inl refl
    after_write-Stored p (broken temp x) w = inl refl
    after_write-Stored p (written size sha x) w =
        create_checked-Stored (upload_params site r f c p size sha) x
          (check_apk (put_file p.storage_path x d.files) p.storage_path c (trim f.version)) w
          (check_apk-IsApk p.storage_path (trim f.version) x d.files c is_android)

    after_prepare-Stored :
        (x : Result UploadError Prepared) (w : World Tables (Unit {0}))
        → Stored d c.version_code w.tables (after_prepare o site r d now admin f c x w)
    unfolding pure
    after_prepare-Stored (ok p) w = after_write-Stored p (d.write p.storage_path) w
    after_prepare-Stored (err e) w = inl refl
    after_prepare-Stored fault w = inl refl

-- Whichever statements fail, the upload of a checked form for Android is answered, and changes nothing
-- in the release tables, or inserts one row, with the version code of the form and, trimmed, the path
-- to which a file was written that is an APK whose manifest has this version code. Where it is then
-- answered with a release, this file is there; where it is answered that no release was created, the
-- row is there, and the file is not if removing it succeeds.
pub handle_release_upload-Stored :
    (o : Outside) (site : Site) (r : Request) (d : Disk) (now unix : ℕ) (admin : AdminUser)
    (f : UploadForm) (c : Checked) (w : World Tables (Unit {0}))
    → check_form o f ≡ ok c
    → text_eq c.place.platform android ≡ true
    → Stored d c.version_code w.tables (handle_release_upload o site r d now unix admin f w)
unfolding handle_release_upload
handle_release_upload-Stored o site r d now unix admin f c w e h =
    subst (λ x. Stored d c.version_code w.tables (after_check o site r d now unix admin f x w))
      (sym e)
      (after_prepare-Stored o now admin d site r f c h
        (prepare_release_path o d unix c.place (trim f.version) c.filename) w)
