-- ===== src/Releases/Rows.antt =====
-- The values and orders that the methods of backend/internal/store/releases.go work with.
use hsgram_admin.Prelude.{
  ℕ, Bool, true, false, not, ◌||◌, Option, none, some, List, [], ◌∷◌, ◌++◌, ltb, leb, ◌==◌,
  if◌then◌else◌,
}
use hsgram_admin.Prelude.Integer.{is_negative, to_nat}
use hsgram_admin.Prelude.Lists.{any_where}
use hsgram_admin.Prelude.Text.{Text, trim, is_empty}
use hsgram_admin.Sql.{Result, ok, err}
use hsgram_admin.Releases.Names.{stable, universal}
use hsgram_admin.Releases.Types.{
  draft, published, Place, same_place, Release, AppRelease, Latest, AdminUser, CreateParams,
  ReleaseError, no_version, no_version_code, negative_min_supported, no_file, empty_file, no_sha256,
}

abbrev pub or_empty : Option Text → Text
or_empty none = []
or_empty (some s) = s

abbrev pub is_published : Release → Bool
is_published r = elim r.status [ draft ↦ false | published ↦ true ]

-- INSERT … ON DUPLICATE KEY UPDATE, on the primary key.
unfoldable pub set_latest : Place → ℕ → List Latest → List Latest
set_latest k i [] = record { place = k; release_id = i } ∷ []
set_latest k i (l ∷ ls) =
    if same_place l.place k then record l { release_id = i } ∷ ls else l ∷ set_latest k i ls

abbrev pub add_key : List Place → Place → List Place
add_key ks k = if any_where (λ (l : Place). same_place l k) ks then ks else ks ++ (k ∷ [])

-- releaseLatestLookupKeys: the place itself, then any architecture, then the stable channel.
unfoldable pub lookup_keys : Place → List Place
lookup_keys k =
    add_key
      (add_key (add_key (k ∷ []) (record k { arch = universal })) (record k { channel = stable }))
      (record k { channel = stable; arch = universal })

abbrev pub first_row : List AppRelease → Option AppRelease
first_row [] = none
first_row (r ∷ rs) = some r

abbrev pub same_bool : Bool → Bool → Bool
same_bool true b = b
same_bool false b = not b

abbrev published_or_created : Release → ℕ
published_or_created r = elim r.published_at [ none ↦ r.created_at | some n ↦ n ]

abbrev pub stored_key : CreateParams → Text
stored_key p = if is_empty (trim p.storage_key) then trim p.storage_path else trim p.storage_key

-- The values of the INSERT; the database gives the row its id.
unfoldable pub new_release : ℕ → AdminUser → CreateParams → Place → Text → ℕ → Release
new_release now admin p place level id = record {
  id = id;
  place = place;
  version = trim p.version;
  version_code = p.version_code;
  min_supported_version_code = to_nat p.min_supported_version_code;
  update_level = level;
  title = trim p.title;
  filename = trim p.filename;
  storage_path = trim p.storage_path;
  storage_key = stored_key p;
  file_size = p.file_size;
  sha256 = trim p.sha256;
  mime_type = trim p.mime_type;
  download_url = trim p.download_url;
  public_download_url = trim p.public_download_url;
  changelog = trim p.changelog;
  status = draft;
  created_by_admin_id = admin.id;
  created_by_username = admin.username;
  created_by_role = admin.role;
  published_at = none;
  created_at = now;
}

-- The checks of CreateAppRelease in their order.
unfoldable pub checked_release :
    ℕ → AdminUser → CreateParams → Place → Text → Result ReleaseError (ℕ → Release)
checked_release now admin p place level =
    if is_empty (trim p.version)
    then err no_version
    else if p.version_code == 0
    then err no_version_code
    else if is_negative p.min_supported_version_code
    then err negative_min_supported
    else if is_empty (trim p.filename) || is_empty (trim p.storage_path)
    then err no_file
    else if p.file_size == 0
    then err empty_file
    else if is_empty (trim p.sha256)
    then err no_sha256
    else ok (new_release now admin p place level)

-- ORDER BY created_at DESC, id DESC.
abbrev pub listed_before : Release → Release → Bool
listed_before a b =
    if a.created_at == b.created_at then leb b.id a.id else ltb b.created_at a.created_at

abbrev pub clamp_limit : ℕ → ℕ
clamp_limit limit = let l = if ltb limit 1 then 50 else limit in if ltb 200 l then 200 else l

-- The ORDER BY of getNewestAppReleaseExact.
unfoldable pub newer : Release → Release → Bool
newer a b =
    if not (a.version_code == b.version_code)
    then ltb b.version_code a.version_code
    else if not (same_bool (is_published a) (is_published b))
    then is_published a
    else if not (published_or_created a == published_or_created b)
    then ltb (published_or_created b) (published_or_created a)
    else listed_before a b

-- The UPDATE of PublishAppRelease: the other releases of the place are drafts again.
unfoldable pub set_published : ℕ → ℕ → Release → Release
set_published now i r = record r {
  status = if r.id == i then published else draft;
  published_at = if r.id == i then some now else r.published_at;
}
