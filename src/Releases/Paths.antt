-- ===== src/Releases/Paths.antt =====
-- Where an uploaded release is stored: the names and paths of
-- backend/internal/httpapi/admin_releases.go.
use hsgram_admin.Prelude.{
  ℕ, Bool, true, false, ◌&&◌, ◌||◌, Option, none, some, List, [], ◌∷◌, ◌++◌, ◌-◌, ◌==◌, leb,
  if◌then◌else◌,
}
use hsgram_admin.Prelude.Decimal.{show}
use hsgram_admin.Prelude.Lists.{length, take, drop, rows_where}
use hsgram_admin.Prelude.Text.{Text, codes, trim, is_empty, text_eq}
use hsgram_admin.Sql.{Result, ok, err, fault}
use hsgram_admin.Apk.Bytes.{ok}
use hsgram_admin.Apk.Manifest.{ZipFile}
use hsgram_admin.Releases.Names.{android, windows, stable, universal}
use hsgram_admin.Releases.Types.{Place, Outside}
use hsgram_admin.Releases.FilePath.{join, base, ext}
use hsgram_admin.Releases.Manifest.{or_text}

-- What a sanitised name keeps: letters, digits, dot, dash and underscore.
abbrev pub is_safe : ℕ → Bool
is_safe c =
    (leb b'a' c && leb c b'z')
    || ((leb b'A' c && leb c b'Z')
        || ((leb b'0' c && leb c b'9') || (c == b'.' || (c == b'-' || c == b'_'))))

unfoldable pub sanitize_release_token : Text → Text
sanitize_release_token input = rows_where is_safe (trim input)

-- A file by what opening it as a zip archive gives, and the files below the directory of releases.
abbrev pub File : Type 0
File = Option (List ZipFile)

abbrev pub Files : Type 0
Files = Text → Option File

-- What writing an upload comes to: no temporary file; a temporary file, with its path and what is in
-- it, that could not be filled, closed or renamed; or the file with its size and its SHA-256.
pub data Written : Type 0 where
  no_temp : Written
  broken : Text → File → Written
  written : ℕ → Text → File → Written

-- The files before an upload, what writing to a path comes to, and whether os.Remove of a path
-- succeeds.
pub record Disk : Type 0 where
  pub files : Files
  pub write : Text → Written
  pub removes : Text → Bool

abbrev is_file : Option File → Bool
is_file none = false
is_file (some x) = true

-- os.Stat without an error.
abbrev pub exists : Disk → Text → Bool
exists d path = is_file (d.files path)

unfoldable pub put_file : Text → File → Files → Files
put_file path x files q = if text_eq q path then some x else files q

-- os.Remove, whose error is dropped.
unfoldable pub remove_file : Disk → Text → Files → Files
remove_file d path files q = if d.removes path && text_eq q path then none else files q

unfoldable pub sanitize_filename : Text → Text
sanitize_filename input =
    let name = base (trim input) in
    if text_eq name (b'.' ∷ []) || is_empty name then [] else rows_where is_safe name

-- The refusals of the upload, in the order in which they come.
pub data UploadError : Type 0 where
  bad_method bad_form bad_words bad_version_code bad_min_supported no_upload : UploadError
  version_missing not_apk not_exe bad_name write_failed : UploadError
  unreadable_apk other_version_code other_version_name not_created : UploadError

pub record Prepared : Type 0 where
  pub storage_path : Text
  pub filename : Text
  pub mime_type : Text

abbrev pub apk_ext : Text
apk_ext = b'.' ∷ b'a' ∷ b'p' ∷ b'k' ∷ []

abbrev pub exe_ext : Text
exe_ext = b'.' ∷ b'e' ∷ b'x' ∷ b'e' ∷ []

-- `switch platform`: the type of the file, or the refusal of its extension.
unfoldable pub mime_of : Text → Text → Result UploadError Text
unfolding codes
mime_of platform ext =
    if text_eq platform android
    then (if text_eq ext apk_ext
        then ok (codes "application/vnd.android.package-archive")
        else err not_apk)
    else if text_eq platform windows
    then (if text_eq ext exe_ext
        then ok (codes "application/vnd.microsoft.portable-executable")
        else err not_exe)
    else ok (codes "application/octet-stream")

abbrev pub trim_suffix : Text → Text → Text
trim_suffix s suffix =
    let n = length s - length suffix in
    if leb (length suffix) (length s) && text_eq (drop n s) suffix then take n s else s

-- The name under which the file is stored.
abbrev pub base_name : Text → Text → Text → Text → Text → Text
base_name platform channel arch version ext =
    sanitize_filename (
      codes "HSgram-" ++ (platform ++ (b'-' ∷ channel ++ (b'-' ∷ arch ++ (b'-' ∷ version ++ ext)))))

-- A name that is taken gets the time behind it. `unix` is time.Now().Unix().
abbrev pub free_name : Disk → ℕ → Text → Text → Text → Text → Text → Text
free_name d unix platform channel arch name ext =
    if exists d (join (platform ∷ channel ∷ arch ∷ name ∷ []))
    then trim_suffix name ext ++ (b'-' ∷ show unix ++ ext)
    else name

-- `version` and the two words are sanitised.
abbrev pub prepare_named :
    Disk
    → ℕ
    → Text
    → Text
    → Text
    → Text
    → Text
    → Result UploadError Text
    → Result UploadError Prepared
prepare_named d unix platform channel arch version ext (ok mime) =
    let name = base_name platform channel arch version ext in
    let free = free_name d unix platform channel arch name ext in
    if is_empty name
    then err bad_name
    else ok (record {
      storage_path = join (platform ∷ channel ∷ arch ∷ free ∷ []);
      filename = free;
      mime_type = mime;
    })
prepare_named d unix platform channel arch version ext (err e) = err e
prepare_named d unix platform channel arch version ext fault = fault

unfoldable pub prepare_release_path :
    Outside → Disk → ℕ → Place → Text → Text → Result UploadError Prepared
unfolding sanitize_release_token
prepare_release_path o d unix k version filename =
    let v = sanitize_release_token version in
    let suffix = o.lower (ext filename) in
    if is_empty v
    then err version_missing
    else prepare_named d unix k.platform (or_text (sanitize_release_token k.channel) stable)
        (or_text (sanitize_release_token k.arch) universal) v suffix (mime_of k.platform suffix)
