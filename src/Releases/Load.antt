-- ===== src/Releases/Load.antt =====
-- Where the answer to an update request comes from: the latest release, the newest, or a manifest
-- file (loadUpdateManifest and the handlers of backend/internal/httpapi/updates.go).
use hsgram_admin.Prelude.{
  ℕ, Bool, true, false, not, ◌||◌, Option, none, some, List, [], ◌∷◌, ◌++◌, map, ◌==◌,
  if◌then◌else◌,
}
use hsgram_admin.Prelude.Decimal.{show}
use hsgram_admin.Prelude.Text.{Text, codes, trim, is_empty, text_eq}
use hsgram_admin.Sql.{Result, ok, err, fault, pure, attempt, ◌>>=◌}
use hsgram_admin.Broadcast.Targets.{unique_values}
use hsgram_admin.Releases.Names.{
  windows, optional, required, android, normalize_platform, normalize_channel, normalize_arch,
  normalize_update_level,
}
use hsgram_admin.Releases.Types.{Place, AppRelease, ReleaseError, Outside, Action}
use hsgram_admin.Releases.Rows.{lookup_keys}
use hsgram_admin.Releases.Store.{normal_place, get_latest_for, get_newest_for, is_release_not_found}
use hsgram_admin.Releases.FilePath.{join}
use hsgram_admin.Releases.Manifest.{
  UpdateManifest, FileAnswer, missing, unreadable, malformed, file, LoadError, not_exist,
  invalid_manifest, other, Request, Site, or_text, default_title, resolve_public_url,
  release_manifest,
}

-- One word of a file: what the request has where it is empty, else normalised.
abbrev pub word_or : Text → (Text → Option Text) → Text → Option Text
word_or given normal [] = some given
word_or given normal (c ∷ s) = normal (c ∷ s)

unfoldable pub and_then : {A B : Type 0} → Option A → (A → Option B) → Option B
and_then none f = none
and_then (some a) f = f a

-- `none` is errInvalidUpdateManifest.
module _ (o : Outside) (site : Site) (r : Request) where
  abbrev pub level_of : UpdateManifest → Option Text
  level_of m =
      word_or (if m.force then required else optional) (normalize_update_level o.lower)
        m.update_level

  abbrev pub with_names : Place → Text → UpdateManifest → UpdateManifest
  with_names k level m =
      let version = or_text m.version m.version_name in
      record m {
        version = version;
        version_name = or_text m.version_name version;
        platform = k.platform;
        channel = k.channel;
        arch = k.arch;
        update_level = level;
        force = if is_empty m.update_level then m.force else text_eq level required;
      }

  abbrev pub with_urls : UpdateManifest → UpdateManifest
  with_urls m =
      let download = or_text m.download_url m.file_url in
      let shared = resolve_public_url site r (or_text m.public_download_url download) in
      record m {
        download_url = resolve_public_url site r download;
        public_download_url = shared;
        file_url = if is_empty m.file_url then shared else resolve_public_url site r m.file_url;
      }

  abbrev pub checked_manifest : UpdateManifest → Option UpdateManifest
  checked_manifest m =
      if is_empty (trim m.version) || m.version_code == 0 || is_empty (trim m.public_download_url)
      then none
      else some (record m { title = or_text m.title (default_title m.version) })

  unfoldable pub normalize_loaded : Place → UpdateManifest → Option UpdateManifest
  normalize_loaded k m =
      and_then (word_or k.platform (normalize_platform o.lower) m.platform) (λ platform.
        and_then (word_or k.channel (normalize_channel o.lower) m.channel) (λ channel.
          and_then (word_or k.arch (normalize_arch o.lower platform) m.arch) (λ arch.
            and_then (level_of m) (λ level.
              let place : Place = record { platform = platform; channel = channel; arch = arch } in
              checked_manifest (with_urls (with_names place level m))))))

  abbrev pub after_normalized :
      (LoadError → Result LoadError UpdateManifest)
      → Option UpdateManifest
      → Result LoadError UpdateManifest
  after_normalized rest none = rest invalid_manifest
  after_normalized rest (some m) = ok m

  abbrev pub after_read :
      Place
      → (LoadError → Result LoadError UpdateManifest)
      → FileAnswer
      → Result LoadError UpdateManifest
  after_read k rest missing = rest not_exist
  after_read k rest unreadable = rest other
  after_read k rest malformed = rest invalid_manifest
  after_read k rest (file m) = after_normalized rest (normalize_loaded k m)

  -- The loop over the paths; the error of the last of them is returned.
  abbrev pub load_files : Place → List Text → LoadError → Result LoadError UpdateManifest
  load_files k [] last = err last
  load_files k (p ∷ ps) last = after_read k (load_files k ps) (site.read_manifest p)

  abbrev pub latest_json : List Text → Text
  latest_json parts = join (site.releases_dir ∷ (parts ++ (codes "latest.json" ∷ [])))

  abbrev pub place_path : Place → Text
  place_path k = latest_json (k.platform ∷ k.channel ∷ k.arch ∷ [])

  -- fallbackManifestKeys gives the keys that the store looks up.
  abbrev pub manifest_paths : Place → List Text
  manifest_paths k =
      unique_values
        (place_path k
          ∷ (map place_path (lookup_keys k)
              ++ (latest_json (k.platform ∷ [])
                  ∷ (if text_eq k.platform windows
                      then latest_json (codes "pc" ∷ []) ∷ []
                      else []))))
        []

  unfoldable pub load_update_manifest_file : Place → Result LoadError UpdateManifest
  unfolding normalize_loaded
  load_update_manifest_file k = load_files k (manifest_paths k) not_exist

  -- `next` is what comes where no row was found.
  abbrev pub after_lookup :
      Action (Result LoadError UpdateManifest)
      → Result ReleaseError AppRelease
      → Action (Result LoadError UpdateManifest)
  after_lookup next (ok a) = pure (ok (release_manifest site r a))
  after_lookup next (err x) = if is_release_not_found x then next else pure (err other)
  after_lookup next fault = pure (err other)

  -- Behind the normalisation; `has_store` says that the handler has a store.
  abbrev pub load_for : Bool → Place → Action (Result LoadError UpdateManifest)
  load_for false k = pure (load_update_manifest_file k)
  load_for true k = do
    latest ← attempt (get_latest_for o k.platform k.channel k.arch)
    after_lookup
        (do
          newest ← attempt (get_newest_for o k.platform k.channel k.arch)
          after_lookup (pure (load_update_manifest_file k)) newest)
        latest

  abbrev pub load_normal :
      Bool → Result ReleaseError Place → Action (Result LoadError UpdateManifest)
  load_normal has_store (ok k) = load_for has_store k
  load_normal has_store (err x) = pure (err other)
  load_normal has_store fault = pure (err other)

  unfoldable pub load_update_manifest : Bool → Text → Action (Result LoadError UpdateManifest)
  load_update_manifest has_store platform =
      load_normal has_store (normal_place o platform r.channel r.arch)

-- What a handler writes.
pub data Answer : Type 0 where
  refused : ℕ → Text → Answer
  manifest_json : UpdateManifest → Answer
  plain : Text → Answer

-- writeUpdateLoadError.
unfoldable pub load_refused : LoadError → Answer
unfolding codes
load_refused not_exist = refused 404 (codes "update manifest not found")
load_refused invalid_manifest = refused 500 (codes "update manifest is invalid")
load_refused other = refused 500 (codes "load update manifest failed")

abbrev pub answer_by : (UpdateManifest → Answer) → Result LoadError UpdateManifest → Answer
answer_by f (ok m) = f m
answer_by f (err x) = load_refused x
answer_by f fault = load_refused other

-- `tdesktop`'s answer.
abbrev pub current_text : UpdateManifest → Answer
current_text m = plain (show m.version_code ++ (b':' ∷ m.download_url))

-- The three handlers: platform and form of the answer.
unfoldable pub handle_latest :
    Outside → Site → Request → Bool → Text → (UpdateManifest → Answer) → Action Answer
unfolding codes
handle_latest o site r has_store platform form =
    if not r.method_get then pure (refused 405 (codes "method not allowed")) else (do
      loaded ← load_update_manifest o site r has_store platform
      pure (answer_by form loaded))

abbrev pub handle_android_update_latest : Outside → Site → Request → Bool → Action Answer
handle_android_update_latest o site r has_store =
    handle_latest o site r has_store android manifest_json

abbrev pub handle_pc_update_latest : Outside → Site → Request → Bool → Action Answer
handle_pc_update_latest o site r has_store = handle_latest o site r has_store windows manifest_json

abbrev pub handle_tdesktop_current : Outside → Site → Request → Bool → Action Answer
handle_tdesktop_current o site r has_store = handle_latest o site r has_store windows current_text
