-- ===== src/Releases/Published.antt =====
-- A release that was published is the one that is served for its place.
use hsgram_admin.Prelude.{
  ℕ, ◌≡◌, refl, ap, ◌∙◌, Bool, true, map, some, List, [], ◌∷◌, ◌++◌, inl, inr, arith, Bool-cases,
  ==_iff, ◌==◌,
}
use mathlib.Core.Path.{subst}
use mathlib.Core.Option.{some_inj}
use hsgram_admin.Prelude.Lists.{
  All, update_where, any_where, rows_where, first_where, first_where-updated,
}
use hsgram_admin.Prelude.Text.{Text}
use hsgram_admin.Sql.{ok, quiet, run_sql, ◌>>=◌}
use hsgram_admin.Sql.Cases.{transaction-ok}
use hsgram_admin.Releases.Types.{Place, same_place, Release, AppRelease, Latest, Tables, Outside}
use hsgram_admin.Releases.Rows.{is_published, set_latest, set_published, first_row}
use hsgram_admin.Releases.Store.{
  normal_place, scan_release, left_join, inner_join, or_unmatched, get_app_release, get_latest_for,
  publish_body, publish_app_release,
}
use hsgram_admin.Releases.Invariant.{published_tables}
use hsgram_admin.Releases.Places.{same_place_refl}
use hsgram_admin.Releases.Served.{or_no_rows, query_row-quiet, lookups-in_order}

found_id :
    (i : ℕ) (rs : List Release) (r : Release)
    → first_where (λ (s : Release). s.id == i) rs ≡ some r
    → (r.id == i) ≡ true
found_id i [] r h = cc
found_id i (x ∷ xs) r h = elim (Bool-cases (x.id == i)) [
  | inl e ↦
      let same : some x ≡ some r = rw e at h in let eq : x ≡ r = some_inj.0 same in rw (← eq) e
  | inr n ↦ found_id i xs r (rw n at h)
]

-- The first row of what a WHERE selects.
first_row-rows_where :
    (f : Release → AppRelease) (p : Release → Bool) (rs : List Release) (r : Release)
    (xs : List AppRelease)
    → first_where p rs ≡ some r
    → first_row (map f (rows_where p rs) ++ xs) ≡ some (f r)
first_row-rows_where f p [] r xs h = cc
first_row-rows_where f p (x ∷ rs) r xs h = elim (Bool-cases (p x)) [
  | inl e ↦
      let same : some x ≡ some r = rw e at h in let eq : x ≡ r = some_inj.0 same in rw (e, eq) refl
  | inr n ↦ rw n (first_row-rows_where f p rs r xs (rw n at h))
]

module _ (o : Outside) where
  first_row-inner_join :
      (rs : List Release) (k : Place) (i : ℕ) (ls : List Latest) (r : Release)
      → first_where (λ (s : Release). s.id == i) rs ≡ some r
      → first_row
          (inner_join o rs (rows_where (λ (l : Latest). same_place l.place k) (set_latest k i ls)))
        ≡ some (scan_release o r true)
  unfolding set_latest
  first_row-inner_join rs k i [] r h = rw (same_place_refl k) (first_row-rows_where _ _ rs r [] h)
  first_row-inner_join rs k i (l ∷ ls) r h = elim (Bool-cases (same_place l.place k)) [
    | inl y ↦ rw (y, y) (first_row-rows_where _ _ rs r _ h)
    | inr n ↦ rw (n, n) (first_row-inner_join rs k i ls r h)
  ]

  pub first_row-or_unmatched :
      (r : Release) (ls : List Latest) (xs : List AppRelease)
      → first_row (
          or_unmatched o r (
            map
              (λ (l : Latest). scan_release o r true)
              (rows_where (λ (l : Latest). l.release_id == r.id) ls))
          ++ xs)
        ≡ some (scan_release o r (any_where (λ (l : Latest). l.release_id == r.id) ls))
  first_row-or_unmatched r [] xs = refl
  first_row-or_unmatched r (l ∷ ls) xs = elim (Bool-cases (l.release_id == r.id)) [
    | inl y ↦ rw y refl
    | inr n ↦ rw n (first_row-or_unmatched r ls xs)
  ]

  first_row-left_join :
      (p : Release → Bool) (rs : List Release) (ls : List Latest) (r : Release)
      → first_where p rs ≡ some r
      → first_row (left_join o ls (rows_where p rs))
        ≡ some (scan_release o r (any_where (λ (l : Latest). l.release_id == r.id) ls))
  first_row-left_join p [] ls r h = cc
  first_row-left_join p (x ∷ rs) ls r h = elim (Bool-cases (p x)) [
    | inl e ↦
        let same : some x ≡ some r = rw e at h in
        let eq : x ≡ r = some_inj.0 same in rw (e, eq) (first_row-or_unmatched r ls _)
    | inr n ↦ rw n (first_row-left_join p rs ls r (rw n at h))
  ]

is_latest-set :
    (k : Place) (i : ℕ) (ls : List Latest)
    → any_where (λ (l : Latest). l.release_id == i) (set_latest k i ls) ≡ true
unfolding set_latest
is_latest-set k i [] = ground arith
is_latest-set k i (l ∷ ls) = elim (Bool-cases (same_place l.place k)) [
  | inl y ↦ rw y (ground arith)
  | inr n ↦ elim (Bool-cases (l.release_id == i)) [
    | inl y ↦ rw (n, y) refl
    | inr m ↦ rw (n, m) (is_latest-set k i ls)
  ]
]

publish_body-quiet :
    (now i : ℕ) (r : Release) (t : Tables) (s : List Unit)
    → first_where (λ (x : Release). x.id == i) t.releases ≡ some r
    → publish_body now i (quiet t s) ≡ (ok tt, quiet (published_tables now i r.place t) s)
unfolding run_sql publish_body
publish_body-quiet now i r t s found = rw found refl

get_app_release-quiet :
    (o : Outside) (i : ℕ) (r : Release) (t : Tables) (s : List Unit)
    → first_where (λ (x : Release). x.id == i) t.releases ≡ some r
    → any_where (λ (l : Latest). l.release_id == r.id) t.latest ≡ true
    → get_app_release o i (quiet t s) ≡ (ok (scan_release o r true), quiet t s)
unfolding get_app_release
get_app_release-quiet o i r t s found named =
    let row = first_row-left_join o (λ (x : Release). x.id == i) t.releases t.latest r found in
    query_row-quiet _ t s ∙ ap (λ a. (or_no_rows a, quiet t s)) (rw named at row)

-- What holds of the release that was published, and of the others of its place.
pub record IsPublication (now : ℕ) (r : Release) (a : AppRelease) (u : Tables) : Type 0 where
  pub same_id : a.release.id ≡ r.id
  pub same_code : a.release.version_code ≡ r.version_code
  pub same_path : a.release.storage_path ≡ r.storage_path
  pub published : is_published a.release ≡ true
  pub published_at : a.release.published_at ≡ some now
  pub latest : a.is_latest ≡ true
  pub only_one :
      All
        (λ (x : Release). same_place x.place r.place ≡ true → is_published x ≡ (x.id == r.id))
        u.releases

set_published-word : (now i : ℕ) (r : Release) → is_published (set_published now i r) ≡ (r.id == i)
unfolding set_published
set_published-word now i r = elim (Bool-cases (r.id == i)) [ inl y ↦ rw y refl | inr n ↦ rw n refl ]

only_one-update :
    (now i : ℕ) (k : Place) (rs : List Release)
    → All
        (λ (x : Release). same_place x.place k ≡ true → is_published x ≡ (x.id == i))
        (update_where (λ (x : Release). same_place x.place k) (set_published now i) rs)
unfolding set_published
only_one-update now i k [] = tt
only_one-update now i k (r ∷ rs) = elim (Bool-cases (same_place r.place k)) [
  | inl y ↦ rw y (λ e. set_published-word now i r, only_one-update now i k rs)
  | inr n ↦ rw n (λ e. absurd (cc), only_one-update now i k rs)
]

published-IsPublication :
    (o : Outside) (now : ℕ) (r : Release) (t : Tables)
    → IsPublication now r
        (scan_release o (set_published now r.id r) true)
        (published_tables now r.id r.place t)
unfolding scan_release set_published
published-IsPublication o now r t =
    let refl_id : (r.id == r.id) ≡ true = ground arith in
    record {
      same_id = refl;
      same_code = refl;
      same_path = refl;
      published = rw refl_id refl;
      published_at = rw refl_id refl;
      latest = refl;
      only_one = only_one-update now r.id r.place t.releases;
    }

-- Where no statement fails and the release is there, PublishAppRelease answers with it: its id,
-- version code and path, the status published, the time of the call, and that it is the latest; no
-- other release of its place is then published, and a lookup for a request whose words are those of
-- its place then answers with the same.
pub published-served :
    (o : Outside) (now i : ℕ) (r : Release) (platform channel arch : Text) (t : Tables)
    (s : List Unit)
    → first_where (λ (x : Release). x.id == i) t.releases ≡ some r
    → normal_place o platform channel arch ≡ ok r.place
    → let a = scan_release o (set_published now i r) true in
      let u = published_tables now i r.place t in
      (publish_app_release o now i (quiet t s) ≡ (ok a, quiet u s))
      × (get_latest_for o platform channel arch (quiet u s) ≡ (ok a, quiet u s))
      × IsPublication now r a u
unfolding ◌>>=◌ publish_app_release set_published
published-served o now i r platform channel arch t s found e =
    let k = r.place in
    let u = published_tables now i k t in
    let there : first_where (λ (x : Release). x.id == i) u.releases ≡ some (set_published now i r) =
      first_where-updated _ (λ (x : Release). same_place x.place k) (set_published now i) t.releases
        r (λ x. refl) found (same_place_refl k) in
    let named = found_id i t.releases r found in
    let id : r.id ≡ i = (==_iff r.id i).0 named in
    let same = published-IsPublication o now r t in
    let latest : any_where (λ (l : Latest). l.release_id == r.id) u.latest ≡ true =
      rw id (is_latest-set k i t.latest) in
    let committed =
      transaction-ok (publish_body now i) t u s s tt (publish_body-quiet now i r t s found) in
    let read = get_app_release-quiet o i (set_published now i r) u s there latest in
    let looked_up = (lookups-in_order o platform channel arch k u s e).0 in
    let first = first_row-inner_join o u.releases k i t.latest (set_published now i r) there in
    (
      rw committed read,
      looked_up ∙ rw first refl,
      subst
          (λ (n : ℕ).
            IsPublication now r (scan_release o (set_published now n r) true)
              (published_tables now n r.place t))
          id same,
    )
