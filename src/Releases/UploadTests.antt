-- ===== src/Releases/UploadTests.antt =====
-- Uploads, and the theorems about them.
use hsgram_admin.Prelude.{◌≡◌, refl, none, some, [], ◌∷◌, true, false}
use hsgram_admin.Prelude.Decimal.{parse_int, show}
use hsgram_admin.Prelude.Lists.{length}
use hsgram_admin.Prelude.Text.{Text, codes, trim, text_eq}
use hsgram_admin.Sql.{ok, quiet, World, run_sql, pure}
use hsgram_admin.Sql.Triple.{Returns}
use hsgram_admin.Apk.Bytes.{ok}
use hsgram_admin.Apk.Manifest.{content, read_apk}
use hsgram_admin.Apk.Sample.{sample, sample_metadata}
use hsgram_admin.Apk.Tests.{parses}
use hsgram_admin.Releases.Names.{
  android, windows, stable, universal, platforms, channels, update_levels, any_arch, android_archs,
  normalize_platform, normalize_channel, normalize_update_level, normalize_arch,
}
use hsgram_admin.Releases.Types.{Place, Tables, AdminUser, Outside}
use hsgram_admin.Releases.Store.{
  normal_place, insert_release, query_row, get_app_release, create_app_release,
}
use hsgram_admin.Releases.Rows.{checked_release, new_release}
use hsgram_admin.Releases.Manifest.{missing, Request, Site}
use hsgram_admin.Releases.Paths.{
  Disk, File, written, put_file, sanitize_release_token, sanitize_filename, mime_of,
  prepare_release_path,
}
use hsgram_admin.Releases.FilePath.{join, ext, base}
use hsgram_admin.Releases.FileName.{IsPlaced}
use hsgram_admin.Releases.Placed.{check_form-IsPlaced}
use hsgram_admin.Releases.Upload.{
  UploadForm, Checked, check_form, check_apk, upload_params, handle_release_upload,
}
use hsgram_admin.Releases.Uploaded.{Stored, handle_release_upload-Stored}
use hsgram_admin.Releases.Tidy.{Tidy, handle_release_upload-Tidy}

abbrev outside : Outside
outside = record { lower = λ s. s; same_text = text_eq }

abbrev site : Site
site = record {
  releases_dir = b'd' ∷ [];
  public_base_url = b'u' ∷ [];
  is_absolute = λ s. false;
  read_manifest = λ path. missing;
}

-- Every name is taken, and an APK is written.
abbrev apk : File
apk = some (record { name = codes "AndroidManifest.xml"; bytes = content sample } ∷ [])

abbrev disk : Disk
disk = record {
  files = λ q. some none;
  write = λ q. written 4 (b'a' ∷ []) apk;
  removes = λ q. true;
}

abbrev asked : Request
asked = record {
  method_get = false;
  channel = [];
  arch = [];
  forwarded_proto = [];
  tls = true;
  host = b'h' ∷ [];
}

abbrev apk_file : Text
apk_file = b'f' ∷ b'.' ∷ b'a' ∷ b'p' ∷ b'k' ∷ []

abbrev form : UploadForm
form = record {
  method_post = true;
  parsed = true;
  platform = b'a' ∷ b'n' ∷ b'd' ∷ b'r' ∷ b'o' ∷ b'i' ∷ b'd' ∷ [];
  channel = [];
  arch = [];
  update_level = [];
  version = b'1' ∷ b'.' ∷ b'2' ∷ [];
  version_code = b'7' ∷ [];
  min_supported_version_code = [];
  title = [];
  changelog = [];
  filename = some apk_file;
}

abbrev place : Place
place = record {
  platform = b'a' ∷ b'n' ∷ b'd' ∷ b'r' ∷ b'o' ∷ b'i' ∷ b'd' ∷ [];
  channel = b's' ∷ b't' ∷ b'a' ∷ b'b' ∷ b'l' ∷ b'e' ∷ [];
  arch = b'u' ∷ b'n' ∷ b'i' ∷ b'v' ∷ b'e' ∷ b'r' ∷ b's' ∷ b'a' ∷ b'l' ∷ [];
}

abbrev checked : Checked
checked = record {
  place = place;
  update_level = b'o' ∷ b'p' ∷ b't' ∷ b'i' ∷ b'o' ∷ b'n' ∷ b'a' ∷ b'l' ∷ [];
  version_code = 7;
  min_supported_version_code = 0;
  filename = apk_file;
}

form-checked : check_form outside form ≡ ok checked
unfolding check_form normal_place normalize_platform normalize_channel normalize_update_level
    normalize_arch platforms channels update_levels any_arch android_archs android windows codes
    trim text_eq parse_int
form-checked = refl

is_android : text_eq checked.place.platform android ≡ true
unfolding text_eq android codes
is_android = refl

abbrev w : World Tables (Unit {0})
w = quiet (record { releases = []; latest = []; next_id = 1 }) []

abbrev root : AdminUser
root = record { id = 1; username = b'r' ∷ []; role = b's' ∷ [] }

check_form-IsPlaced_example :
    Returns
      (λ (c : Checked).
        Returns
          (IsPlaced c.place)
          (prepare_release_path outside disk 60 c.place form.version c.filename))
      (check_form outside form)
check_form-IsPlaced_example = check_form-IsPlaced outside disk 60 form form.version

-- The version is `1/2`, and the name without the time is taken.
prepared :
    prepare_release_path outside disk 60 place (b'1' ∷ b'/' ∷ b'2' ∷ []) apk_file
    ≡ ok (record {
      storage_path = codes "android/stable/universal/HSgram-android-stable-universal-12-60.apk";
      filename = codes "HSgram-android-stable-universal-12-60.apk";
      mime_type = codes "application/vnd.android.package-archive";
    })
unfolding prepare_release_path sanitize_release_token sanitize_filename mime_of android windows
    stable universal codes trim text_eq show join ext base
prepared = refl

abbrev path : Text
path = b'p' ∷ []

-- What is written is an APK of the version code of the form.
readable : read_apk apk ≡ ok sample_metadata
unfolding read_apk codes text_eq
readable = parses

checks_apk : check_apk (put_file path apk disk.files) path checked (codes "1.2") ≡ none
unfolding check_apk put_file text_eq codes android
checks_apk = rw readable refl

-- A row is inserted.
uploaded :
    length (handle_release_upload outside site asked disk 5 60 root form w).1.tables.releases ≡ 1
unfolding run_sql handle_release_upload check_form prepare_release_path sanitize_release_token
    sanitize_filename mime_of android windows stable universal codes trim text_eq show join ext base
    normal_place normalize_platform normalize_channel normalize_update_level normalize_arch
    platforms channels update_levels any_arch android_archs parse_int check_apk put_file
    create_app_release checked_release new_release insert_release get_app_release upload_params pure
    query_row
uploaded = rw readable refl

handle_release_upload-Stored_example :
    Stored disk checked.version_code w.tables
      (handle_release_upload outside site asked disk 5 60 root form w)
handle_release_upload-Stored_example =
    handle_release_upload-Stored outside site asked disk 5 60 root form checked w form-checked
      is_android

handle_release_upload-Tidy_example :
    Tidy disk (handle_release_upload outside site asked disk 5 60 root form w).0
handle_release_upload-Tidy_example =
    handle_release_upload-Tidy outside site asked disk 5 60 root form w (λ q. refl)
