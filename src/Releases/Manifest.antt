-- ===== src/Releases/Manifest.antt =====
-- What a client is told that asks for an update: backend/internal/httpapi/updates.go.
use hsgram_admin.Prelude.{ℕ, Bool, not, ◌||◌, Option, [], ◌∷◌, ◌++◌, ◌==◌, if◌then◌else◌}
use mathlib.Core.List.{reverse}
use hsgram_admin.Prelude.Text.{Text, codes, trim, is_empty, text_eq}
use hsgram_admin.Releases.Names.{optional, required}
use hsgram_admin.Releases.Types.{AppRelease}

-- updateManifest.
pub record UpdateManifest : Type 0 where
  pub platform : Text
  pub channel : Text
  pub arch : Text
  pub version_name : Text
  pub version : Text
  pub version_code : ℕ
  pub min_supported_version_code : ℕ
  pub update_level : Text
  pub force : Bool
  pub title : Text
  pub changelog : Text
  pub file_name : Text
  pub file_size : ℕ
  pub sha256 : Text
  pub mime_type : Text
  pub storage_key : Text
  pub download_url : Text
  pub public_download_url : Text
  pub file_url : Text
  pub published_at : Option ℕ

-- What reading and decoding a manifest file gives.
pub data FileAnswer : Type 0 where
  missing unreadable malformed : FileAnswer
  file : UpdateManifest → FileAnswer

-- `not_exist` is what os.IsNotExist recognises, `other` any error without a case of its own.
pub data LoadError : Type 0 where
  not_exist invalid_manifest other : LoadError

-- What the handlers read of a request; `method_get` says that it is a GET.
pub record Request : Type 0 where
  pub method_get : Bool
  pub channel : Text
  pub arch : Text
  pub forwarded_proto : Text
  pub tls : Bool
  pub host : Text

-- UpdateConfig, the file system behind it, and `url.Parse` with `IsAbs`.
pub record Site : Type 0 where
  pub releases_dir : Text
  pub public_base_url : Text
  pub is_absolute : Text → Bool
  pub read_manifest : Text → FileAnswer

-- `strings.TrimLeft` and `strings.TrimRight`, with the runes that go as a test.
abbrev pub trim_left_by : (ℕ → Bool) → Text → Text
trim_left_by p [] = []
trim_left_by p (c ∷ s) = if p c then trim_left_by p s else c ∷ s

abbrev pub trim_right_by : (ℕ → Bool) → Text → Text
trim_right_by p s = reverse (trim_left_by p (reverse s))

abbrev pub is_slash : ℕ → Bool
is_slash c = c == b'/'

abbrev is_dot_or_slash : ℕ → Bool
is_dot_or_slash c = c == b'.' || c == b'/'

-- The first text that is not empty.
abbrev pub or_text : Text → Text → Text
or_text [] t = t
or_text (c ∷ s) t = c ∷ s

unfoldable pub resolve_public_url : Site → Request → Text → Text
unfolding codes
resolve_public_url site r raw =
    let url = trim raw in
    let scheme = or_text (trim r.forwarded_proto) (if r.tls then codes "https" else codes "http") in
    let base =
      or_text (trim_right_by is_slash site.public_base_url) (scheme ++ (codes "://" ++ r.host)) in
    if is_empty url || site.is_absolute url
    then url
    else base ++ (b'/' ∷ trim_left_by is_dot_or_slash url)

unfoldable pub release_download_url : Site → Request → Text → Text
unfolding resolve_public_url codes
release_download_url site r storage_path =
    resolve_public_url site r (codes "/releases/" ++ trim_left_by is_slash storage_path)

abbrev pub default_title : Text → Text
default_title version = codes "HSgram " ++ version

-- releaseManifest: the release's own download URL is not used.
unfoldable pub release_manifest : Site → Request → AppRelease → UpdateManifest
unfolding release_download_url
release_manifest site r a =
    let release = a.release in
    let own = trim release.public_download_url in
    let url =
      if is_empty own || not (site.is_absolute own)
      then release_download_url site r release.storage_path
      else own in
    let level = or_text release.update_level optional in
    record {
      platform = release.place.platform;
      channel = release.place.channel;
      arch = release.place.arch;
      version_name = release.version;
      version = release.version;
      version_code = release.version_code;
      min_supported_version_code = release.min_supported_version_code;
      update_level = level;
      force = text_eq level required;
      title = or_text (trim release.title) (default_title release.version);
      changelog = release.changelog;
      file_name = release.filename;
      file_size = release.file_size;
      sha256 = release.sha256;
      mime_type = release.mime_type;
      storage_key = release.storage_key;
      download_url = url;
      public_download_url = url;
      file_url = url;
      published_at = release.published_at;
    }
