-- ===== src/Releases/Upload.antt =====
-- The upload of a release: backend/internal/httpapi/admin_releases.go.
use hsgram_admin.Prelude.{
  ℕ, Bool, not, ◌&&◌, Option, none, some, [], ◌∷◌, ◌++◌, ◌==◌, if◌then◌else◌,
}
use hsgram_admin.Prelude.Integer.{pos}
use hsgram_admin.Prelude.Decimal.{Parsed, not_a_number, negative, number, parse_int}
use hsgram_admin.Prelude.Text.{Text, codes, trim, is_empty, text_eq}
use hsgram_admin.Sql.{Result, ok, err, fault, pure, attempt, ◌>>=◌}
use hsgram_admin.Apk.Bytes.{Parse, ok, bad, panic, stuck}
use hsgram_admin.Apk.Manifest.{Metadata, read_apk}
use hsgram_admin.Releases.Names.{android, normalize_update_level}
use hsgram_admin.Releases.Types.{
  Place, AppRelease, AdminUser, CreateParams, ReleaseError, Outside, Action,
}
use hsgram_admin.Releases.Store.{normal_place, create_app_release}
use hsgram_admin.Releases.Manifest.{Request, Site, is_slash, trim_left_by, resolve_public_url}
use hsgram_admin.Releases.Paths.{
  Disk, File, Files, Written, no_temp, broken, written, put_file, remove_file, UploadError,
  Prepared, prepare_release_path, bad_form, bad_method, bad_min_supported, bad_name,
  bad_version_code, bad_words, no_upload, not_created, other_version_code, other_version_name,
  unreadable_apk, write_failed,
}

-- The form; `filename` is `none` without a file.
pub record UploadForm : Type 0 where
  pub method_post : Bool
  pub parsed : Bool
  pub platform : Text
  pub channel : Text
  pub arch : Text
  pub update_level : Text
  pub version : Text
  pub version_code : Text
  pub min_supported_version_code : Text
  pub title : Text
  pub changelog : Text
  pub filename : Option Text

-- What the form says, checked.
pub record Checked : Type 0 where
  pub place : Place
  pub update_level : Text
  pub version_code : ℕ
  pub min_supported_version_code : ℕ
  pub filename : Text

abbrev pub or_err :
    {A B : Type 0} → UploadError → Option A → (A → Result UploadError B) → Result UploadError B
or_err e none k = err e
or_err e (some a) k = k a

abbrev pub with_place :
    {A : Type 0} → Result ReleaseError Place → (Place → Result UploadError A) → Result UploadError A
with_place (ok k) f = f k
with_place (err x) f = err bad_words
with_place fault f = err bad_words

abbrev pub not_negative : Parsed → Option ℕ
not_negative not_a_number = none
not_negative negative = none
not_negative (number n) = some n

abbrev pub positive : Parsed → Option ℕ
positive not_a_number = none
positive negative = none
positive (number n) = if n == 0 then none else some n

-- The lowest supported version is 0 where the form has none.
abbrev pub lowest : Text → Option ℕ
lowest [] = some 0
lowest (c ∷ s) = not_negative (parse_int (c ∷ s))

unfoldable pub check_form : Outside → UploadForm → Result UploadError Checked
check_form o f =
    if not f.method_post
    then err bad_method
    else if not f.parsed
    then err bad_form
    else with_place (normal_place o f.platform f.channel f.arch) (λ place.
      or_err bad_words (normalize_update_level o.lower f.update_level) (λ level.
        or_err bad_version_code (positive (parse_int (trim f.version_code))) (λ code.
          or_err bad_min_supported (lowest (trim f.min_supported_version_code)) (λ low.
            or_err no_upload f.filename (λ filename. ok (record {
              place = place;
              update_level = level;
              version_code = code;
              min_supported_version_code = low;
              filename = filename;
            }))))))

-- Why the stored file is not the release of the form; a reader that panics does not come (see
-- Apk.Chunks).
abbrev pub check_metadata : ℕ → Text → Parse Metadata → Option UploadError
check_metadata code version (ok meta) =
    if not (meta.version_code == code)
    then some other_version_code
    else if not (is_empty meta.version_name) && not (text_eq version meta.version_name)
    then some other_version_name
    else none
check_metadata code version (bad e) = some unreadable_apk
check_metadata code version panic = some unreadable_apk
check_metadata code version stuck = some unreadable_apk

abbrev pub archive_of : Option File → File
archive_of none = none
archive_of (some x) = x

unfoldable pub check_apk : Files → Text → Checked → Text → Option UploadError
check_apk files path c version =
    if text_eq c.place.platform android
    then check_metadata c.version_code version (read_apk (archive_of (files path)))
    else none

-- The answer, and the files behind the upload.
pub record UploadAnswer : Type 0 where
  pub answer : Result UploadError AppRelease
  pub files : Files

abbrev pub refused_upload : UploadError → Files → UploadAnswer
refused_upload e files = record { answer = err e; files = files }

abbrev pub relative_url : Text → Text
relative_url path = codes "/releases/" ++ trim_left_by is_slash path

unfoldable pub upload_params :
    Site → Request → UploadForm → Checked → Prepared → ℕ → Text → CreateParams
unfolding codes
upload_params site r f c p size sha = record {
  platform = c.place.platform;
  channel = c.place.channel;
  arch = c.place.arch;
  version = trim f.version;
  version_code = c.version_code;
  min_supported_version_code = pos c.min_supported_version_code;
  update_level = c.update_level;
  title = trim f.title;
  filename = p.filename;
  storage_path = p.storage_path;
  storage_key = p.storage_path;
  file_size = size;
  sha256 = sha;
  mime_type = p.mime_type;
  download_url = relative_url p.storage_path;
  public_download_url = resolve_public_url site r (relative_url p.storage_path);
  changelog = trim f.changelog;
}

-- Where no release is returned, the file is removed, be there a row or not.
abbrev pub after_create : Disk → Files → Text → Result ReleaseError AppRelease → UploadAnswer
after_create d files path (ok a) = record { answer = ok a; files = files }
after_create d files path (err x) = refused_upload not_created (remove_file d path files)
after_create d files path fault = refused_upload not_created (remove_file d path files)

-- Behind the write of the file.
abbrev pub create_checked :
    Outside → ℕ → AdminUser → Disk → Files → CreateParams → Option UploadError → Action UploadAnswer
create_checked o now admin d files p none = do
  created ← attempt (create_app_release o now admin p)
  pure (after_create d files p.storage_path created)
create_checked o now admin d files p (some e) =
    pure (refused_upload e (remove_file d p.storage_path files))

abbrev pub after_write :
    Outside
    → Site
    → Request
    → Disk
    → ℕ
    → AdminUser
    → UploadForm
    → Checked
    → Prepared
    → Written
    → Action UploadAnswer
after_write o site r d now admin f c p no_temp = pure (refused_upload write_failed d.files)
after_write o site r d now admin f c p (broken temp x) =
    pure (refused_upload write_failed (remove_file d temp (put_file temp x d.files)))
after_write o site r d now admin f c p (written size sha x) =
    let files = put_file p.storage_path x d.files in
    create_checked o now admin d files (upload_params site r f c p size sha)
      (check_apk files p.storage_path c (trim f.version))

abbrev pub after_prepare :
    Outside
    → Site
    → Request
    → Disk
    → ℕ
    → AdminUser
    → UploadForm
    → Checked
    → Result UploadError Prepared
    → Action UploadAnswer
after_prepare o site r d now admin f c (ok p) =
    after_write o site r d now admin f c p (d.write p.storage_path)
after_prepare o site r d now admin f c (err e) = pure (refused_upload e d.files)
after_prepare o site r d now admin f c fault = pure (refused_upload bad_name d.files)

abbrev pub after_check :
    Outside
    → Site
    → Request
    → Disk
    → ℕ
    → ℕ
    → AdminUser
    → UploadForm
    → Result UploadError Checked
    → Action UploadAnswer
after_check o site r d now unix admin f (ok c) =
    after_prepare o site r d now admin f c
      (prepare_release_path o d unix c.place (trim f.version) c.filename)
after_check o site r d now unix admin f (err e) = pure (refused_upload e d.files)
after_check o site r d now unix admin f fault = pure (refused_upload bad_form d.files)

-- handleReleaseUpload; what it logs is left out.
unfoldable pub handle_release_upload :
    Outside → Site → Request → Disk → ℕ → ℕ → AdminUser → UploadForm → Action UploadAnswer
handle_release_upload o site r d now unix admin f =
    after_check o site r d now unix admin f (check_form o f)
