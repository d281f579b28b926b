-- ===== src/Releases/Tests.antt =====
-- Releases at work, and the theorems about them at concrete tables.
use hsgram_admin.Prelude.{ℕ, ◌≡◌, refl, some, List, [], ◌∷◌, true, false, ◌==◌}
use hsgram_admin.Prelude.Integer.{pos}
use hsgram_admin.Prelude.Lists.{first_where}
use hsgram_admin.Prelude.Text.{Text, codes, trim, text_eq}
use hsgram_admin.Sql.{ok, err, quiet, World, run_sql}
use hsgram_admin.Sql.Triple.{Returns}
use hsgram_admin.Releases.Names.{
  android, windows, stable, universal, optional, required, platforms, channels, update_levels,
  any_arch, windows_archs, normalize_platform, normalize_channel, normalize_update_level,
  normalize_arch,
}
use hsgram_admin.Releases.Types.{
  Place, Release, AppRelease, Tables, AdminUser, CreateParams, Outside, duplicate_path,
}
use hsgram_admin.Releases.Rows.{is_published, new_release, checked_release, set_published}
use hsgram_admin.Releases.Store.{
  normal_place, insert_release, scan_release, query_row, get_app_release, create_app_release,
  get_newest_exact, get_latest_for, get_newest_for, publish_app_release,
}
use hsgram_admin.Releases.Words.{all_lower, normalize-normal}
use hsgram_admin.Releases.Invariant.{Inv, published_tables}
use hsgram_admin.Releases.History.{Call, create, publish, release_history, release_history-Inv}
use hsgram_admin.Releases.Served.{
  or_no_rows, or_else, in_order, latest_at, newest_at, lookups-in_order,
}
use hsgram_admin.Releases.Published.{IsPublication, published-served}
use hsgram_admin.Releases.NoDraft.{get_latest_for-published}
use hsgram_admin.Releases.Newest.{IsHighest, newest-IsHighest}
use hsgram_admin.Releases.Manifest.{missing, Request, Site, release_manifest}
use hsgram_admin.Releases.Load.{load_update_manifest}
use hsgram_admin.Releases.Offered.{offered, load-in_order, published-offered}
use hsgram_admin.Releases.Coherent.{IsCoherent, load_update_manifest-IsCoherent}

-- Lower case for texts that have no capital letter.
abbrev outside : Outside
outside = record { lower = λ s. s; same_text = text_eq }

abbrev site : Site
site = record {
  releases_dir = b'd' ∷ [];
  public_base_url = b'u' ∷ [];
  is_absolute = λ s. false;
  read_manifest = λ path. missing;
}

abbrev desktop : Request
desktop = record {
  method_get = true;
  channel = b'b' ∷ b'e' ∷ b't' ∷ b'a' ∷ [];
  arch = b'x' ∷ b'6' ∷ b'4' ∷ [];
  forwarded_proto = [];
  tls = true;
  host = b'h' ∷ [];
}

-- A release for the stable channel, uploaded under the words `pc` and `x64`.
abbrev params : ℕ → CreateParams
params n = record {
  platform = b'p' ∷ b'c' ∷ [];
  channel = [];
  arch = b'x' ∷ b'6' ∷ b'4' ∷ [];
  version = b'1' ∷ [];
  version_code = n;
  min_supported_version_code = pos 0;
  update_level = b'f' ∷ b'o' ∷ b'r' ∷ b'c' ∷ b'e' ∷ [];
  title = [];
  filename = b'f' ∷ [];
  storage_path = b's' ∷ n ∷ [];
  storage_key = [];
  file_size = 4;
  sha256 = b'a' ∷ [];
  mime_type = [];
  download_url = [];
  public_download_url = [];
  changelog = [];
}

abbrev root : AdminUser
root = record { id = 1; username = b'r' ∷ []; role = b's' ∷ [] }

abbrev empty : Tables
empty = record { releases = []; latest = []; next_id = 1 }

abbrev calls : List Call
calls =
    create 5 root (params 3)
    ∷ create 6 root (params 3)
    ∷ create 7 root (params 4)
    ∷ publish 8 1
    ∷ []

-- The second statement fails.
abbrev shaky : World Tables (Unit {0})
shaky = record { tables = empty; faults = false ∷ true ∷ []; sent = [] }

-- The tables behind the calls, no statement failing.
tables : Tables
tables = (release_history outside calls (quiet empty [])).tables

empty-Inv : Inv empty
empty-Inv = record { below = tt; distinct = tt; keys = tt; marked = tt; pointed = tt }

release_history-Inv_example : Inv (release_history outside calls shaky).tables
release_history-Inv_example = release_history-Inv outside calls shaky empty-Inv

tables-Inv : Inv tables
unfolding tables
tables-Inv = release_history-Inv outside calls (quiet empty []) empty-Inv

abbrev win_x64 : Place
win_x64 = record {
  platform = b'w' ∷ b'i' ∷ b'n' ∷ b'd' ∷ b'o' ∷ b'w' ∷ b's' ∷ [];
  channel = b's' ∷ b't' ∷ b'a' ∷ b'b' ∷ b'l' ∷ b'e' ∷ [];
  arch = b'w' ∷ b'i' ∷ b'n' ∷ b'-' ∷ b'x' ∷ b'6' ∷ b'4' ∷ [];
}

unfoldable words : Unit {0}
unfolding codes android windows stable universal optional required platforms channels update_levels
    any_arch windows_archs normalize_platform normalize_channel normalize_update_level
    normalize_arch normal_place trim text_eq
words = tt

beta-words :
    normal_place outside (b'p' ∷ b'c' ∷ []) desktop.channel desktop.arch
    ≡ ok (record win_x64 { channel = b'b' ∷ b'e' ∷ b't' ∷ b'a' ∷ [] })
unfolding words
beta-words = refl

abbrev row : Release
row = new_release 5 root (params 3) win_x64 (b'o' ∷ []) 1

abbrev one : Tables
one = record { releases = row ∷ []; latest = []; next_id = 2 }

row-found : first_where (λ (x : Release). x.id == 1) one.releases ≡ some row
unfolding new_release
row-found = refl

abbrev request : Request
request = record desktop { channel = [] }

stable-words : normal_place outside (b'p' ∷ b'c' ∷ []) request.channel request.arch ≡ ok row.place
unfolding words new_release
stable-words = refl

-- A storage path is taken once.
duplicate :
    (create_app_release outside 6 root
      (params 3)
      (release_history outside (create 5 root (params 3) ∷ []) (quiet empty []))).0
    ≡ err duplicate_path
unfolding run_sql words create_app_release checked_release new_release insert_release
    get_app_release query_row
duplicate = refl

lookups-in_order_example :
    (get_latest_for outside (b'p' ∷ b'c' ∷ []) request.channel request.arch (quiet one [])
      ≡ (or_no_rows (in_order (latest_at outside one) row.place), quiet one []))
    × (get_newest_for outside (b'p' ∷ b'c' ∷ []) request.channel request.arch (quiet one [])
        ≡ (or_no_rows (in_order (newest_at outside one) row.place), quiet one []))
lookups-in_order_example =
    lookups-in_order outside (b'p' ∷ b'c' ∷ []) request.channel request.arch row.place one []
      stable-words

published-served_example :
    (publish_app_release outside 9 1 (quiet one []) ≡ (
      ok (scan_release outside (set_published 9 1 row) true),
      quiet (published_tables 9 1 row.place one) [],
    ))
    × (get_latest_for outside
          (b'p' ∷ b'c' ∷ [])
          request.channel
          request.arch
          (quiet (published_tables 9 1 row.place one) [])
        ≡ (
          ok (scan_release outside (set_published 9 1 row) true),
          quiet (published_tables 9 1 row.place one) [],
        ))
    × IsPublication 9 row
        (scan_release outside (set_published 9 1 row) true)
        (published_tables 9 1 row.place one)
published-served_example =
    published-served outside 9 1 row (b'p' ∷ b'c' ∷ []) request.channel request.arch one []
      row-found stable-words

get_latest_for-published_example :
    Inv
      (get_latest_for outside
        (b'p' ∷ b'c' ∷ [])
        request.channel
        request.arch
        (quiet tables [])).1.tables
    × Returns
        (λ (a : AppRelease). is_published a.release ≡ true)
        (get_latest_for outside (b'p' ∷ b'c' ∷ []) request.channel request.arch (quiet tables [])).0
get_latest_for-published_example =
    get_latest_for-published outside (b'p' ∷ b'c' ∷ []) request.channel request.arch
      (quiet tables []) tables-Inv

newest-IsHighest_example :
    (get_newest_exact outside win_x64 (quiet one [])
      ≡ (or_no_rows (newest_at outside one win_x64), quiet one []))
    × IsHighest one win_x64 (newest_at outside one win_x64)
newest-IsHighest_example = newest-IsHighest outside one win_x64 []

kept : (s : Text) → all_lower s ≡ true → outside.lower s ≡ s
kept s h = refl

normalize-normal_example :
    ((p q : Text)
      → normalize_platform outside.lower p ≡ some q
      → normalize_platform outside.lower q ≡ some q)
    × ((c q : Text)
        → normalize_channel outside.lower c ≡ some q
        → normalize_channel outside.lower q ≡ some q)
    × ((l q : Text)
        → normalize_update_level outside.lower l ≡ some q
        → normalize_update_level outside.lower q ≡ some q)
    × ((p a q : Text)
        → normalize_arch outside.lower p a ≡ some q
        → normalize_arch outside.lower p q ≡ some q)
normalize-normal_example = normalize-normal outside.lower kept

load-in_order_example :
    load_update_manifest outside site request true (b'p' ∷ b'c' ∷ []) (quiet one []) ≡ (
      ok (
          offered outside site request
            (or_else
              (in_order (latest_at outside one) row.place)
              (in_order (newest_at outside one) row.place))
            row.place),
      quiet one [],
    )
load-in_order_example =
    load-in_order outside site request kept (b'p' ∷ b'c' ∷ []) row.place one [] stable-words

published-offered_example :
    load_update_manifest outside site request true
      (b'p' ∷ b'c' ∷ [])
      (publish_app_release outside 9 1 (quiet one [])).1
    ≡ (
      ok (ok (release_manifest site request (scan_release outside (set_published 9 1 row) true))),
      quiet (published_tables 9 1 row.place one) [],
    )
published-offered_example =
    published-offered outside site request kept 9 1 row (b'p' ∷ b'c' ∷ []) one [] row-found
      stable-words

load_update_manifest-IsCoherent_example :
    Returns
      (Returns IsCoherent)
      (load_update_manifest outside site request true (b'p' ∷ b'c' ∷ []) shaky).0
load_update_manifest-IsCoherent_example =
    load_update_manifest-IsCoherent outside site request true (b'p' ∷ b'c' ∷ []) shaky
