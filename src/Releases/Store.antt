-- ===== src/Releases/Store.antt =====
-- The methods of backend/internal/store/releases.go.
use hsgram_admin.Prelude.{
  ℕ, suc, Bool, true, false, map, Option, none, some, List, [], ◌∷◌, ◌++◌, ◌==◌, if◌then◌else◌,
}
use hsgram_admin.Prelude.Lists.{take, rows_where, first_where, any_where, update_where, order_by}
use hsgram_admin.Prelude.Text.{Text, is_empty}
use hsgram_admin.Sql.{
  Result, ok, err, fault, pure, raise, statement, query, exec, or_raise, attempt, return_result,
  transaction, ◌>>=◌, ◌>>◌,
}
use hsgram_admin.Releases.Rows.{
  or_empty, set_latest, lookup_keys, first_row, checked_release, listed_before, clamp_limit, newer,
  set_published,
}
use hsgram_admin.Releases.Names.{
  stable, universal, normalize_platform, normalize_channel, normalize_arch, normalize_update_level,
}
use hsgram_admin.Releases.Types.{
  Place, same_place, Release, AppRelease, Latest, Tables, AdminUser, CreateParams, ReleaseError,
  unsupported_platform, unsupported_channel, unsupported_arch, unsupported_level, duplicate_path,
  no_rows, Outside, Action,
}

-- The words of a request, or the error of the first that is not supported.
abbrev pub named :
    {A : Type 0}
    → ReleaseError
    → Option Text
    → (Text → Result ReleaseError A)
    → Result ReleaseError A
named e none k = err e
named e (some s) k = k s

unfoldable pub publish_body : ℕ → ℕ → Action (Unit {0})
publish_body now i = do
  row ← query (λ t. first_where (λ (r : Release). r.id == i) t.releases)
  r ← or_raise no_rows row
  exec (λ t. record t {
    releases =
        update_where (λ (s : Release). same_place s.place r.place) (set_published now i) t.releases;
  })
  exec (λ t. record t { latest = set_latest r.place i t.latest })

-- `QueryRow`: the first row, or `sql.ErrNoRows`.
unfoldable pub query_row : (Tables → List AppRelease) → Action AppRelease
query_row f = do row ← query (λ t. first_row (f t)); or_raise no_rows row

-- `errors.Is(err, sql.ErrNoRows)`.
abbrev pub is_release_not_found : ReleaseError → Bool
is_release_not_found no_rows = true
is_release_not_found x = false

abbrev pub on_found : Action AppRelease → Result ReleaseError AppRelease → Action AppRelease
on_found rest (ok a) = pure a
on_found rest (err x) = if is_release_not_found x then rest else raise x
on_found rest fault = return_result fault

-- The loop over the keys: only a missing row goes on to the next.
abbrev pub first_found : (Place → Action AppRelease) → List Place → Action AppRelease
first_found get [] = raise no_rows
first_found get (k ∷ ks) = do r ← attempt (get k); on_found (first_found get ks) r

module _ (o : Outside) where
  unfoldable pub normal_place : Text → Text → Text → Result ReleaseError Place
  normal_place platform channel arch =
      named unsupported_platform (normalize_platform o.lower platform) (λ p.
        named unsupported_channel (normalize_channel o.lower channel) (λ c.
          named unsupported_arch (normalize_arch o.lower p arch)
            (λ a. ok (record { platform = p; channel = c; arch = a }))))

  -- The INSERT: the storage path is a unique key.
  unfoldable pub insert_release : (ℕ → Release) → Tables → Option ℕ × Tables
  insert_release new t =
      let row = new t.next_id in
      if any_where (λ (r : Release). o.same_text r.storage_path row.storage_path) t.releases
      then (none, t)
      else (some t.next_id, record t { releases = row ∷ t.releases; next_id = suc t.next_id })

  -- scanAppRelease.
  unfoldable pub scan_release : Release → Bool → AppRelease
  scan_release r latest =
      let platform = or_empty (normalize_platform o.lower r.place.platform) in
      let place : Place = record {
        platform = platform;
        channel = or_empty (normalize_channel o.lower r.place.channel);
        arch = or_empty (normalize_arch o.lower platform r.place.arch);
      } in
      record {
        release = record r {
          place = place;
          update_level = or_empty (normalize_update_level o.lower r.update_level);
          storage_key = if is_empty r.storage_key then r.storage_path else r.storage_key;
        };
        is_latest = latest;
      }

  -- LEFT JOIN admin_app_latest ON release_id = id: a row for each match, or one without.
  abbrev pub or_unmatched : Release → List AppRelease → List AppRelease
  or_unmatched r [] = scan_release r false ∷ []
  or_unmatched r (a ∷ as') = a ∷ as'

  abbrev pub left_join : List Latest → List Release → List AppRelease
  left_join ls [] = []
  left_join ls (r ∷ rs) =
      or_unmatched r (map (λ l. scan_release r true) (rows_where (λ l. l.release_id == r.id) ls))
      ++ left_join ls rs

  -- INNER JOIN admin_app_releases ON id = release_id.
  abbrev pub inner_join : List Release → List Latest → List AppRelease
  inner_join rs [] = []
  inner_join rs (l ∷ ls) =
      map (λ r. scan_release r true) (rows_where (λ (r : Release). r.id == l.release_id) rs)
      ++ inner_join rs ls

  unfoldable pub get_app_release : ℕ → Action AppRelease
  get_app_release i =
      query_row (λ t. left_join t.latest (rows_where (λ (r : Release). r.id == i) t.releases))

  unfoldable pub create_app_release : ℕ → AdminUser → CreateParams → Action AppRelease
  unfolding normal_place checked_release insert_release
  create_app_release now admin p = do
    place ← return_result (normal_place p.platform p.channel p.arch)
    level ← or_raise unsupported_level (normalize_update_level o.lower p.update_level)
    new ← return_result (checked_release now admin p place level)
    inserted ← statement (insert_release new)
    i ← or_raise duplicate_path inserted
    get_app_release i

  unfoldable pub list_app_releases : ℕ → Action (List AppRelease)
  list_app_releases limit =
      query (λ t. take (clamp_limit limit) (left_join t.latest (order_by listed_before t.releases)))

  unfoldable pub get_latest_exact : Place → Action AppRelease
  get_latest_exact k =
      query_row
        (λ t. inner_join t.releases (rows_where (λ (l : Latest). same_place l.place k) t.latest))

  unfoldable pub get_newest_exact : Place → Action AppRelease
  get_newest_exact k = query_row (λ t.
      left_join t.latest
        (order_by newer (rows_where (λ (r : Release). same_place r.place k) t.releases)))

  unfoldable pub get_latest_for : Text → Text → Text → Action AppRelease
  get_latest_for platform channel arch = do
    k ← return_result (normal_place platform channel arch)
    first_found get_latest_exact (lookup_keys k)

  -- GetLatestAppRelease.
  unfoldable pub get_latest : Text → Action AppRelease
  get_latest platform = do
    p ← or_raise unsupported_platform (normalize_platform o.lower platform)
    get_latest_for p stable universal

  unfoldable pub get_newest_for : Text → Text → Text → Action AppRelease
  get_newest_for platform channel arch = do
    k ← return_result (normal_place platform channel arch)
    first_found get_newest_exact (lookup_keys k)

  unfoldable pub publish_app_release : ℕ → ℕ → Action AppRelease
  publish_app_release now i = do transaction (publish_body now i); get_app_release i
