-- ===== src/Releases/Served.antt =====
-- Which release a client is served: the lookup over the four places, and a release that was published.
use hsgram_admin.Prelude.{
  ◌≡◌, refl, sym, ap, ◌∙◌, true, Option, none, some, List, [], ◌∷◌, ◌++◌, inl, inr, Bool-cases,
  Option-cases,
}
use hsgram_admin.Prelude.Lists.{any_where, rows_where, order_by}
use hsgram_admin.Prelude.Text.{Text}
use hsgram_admin.Sql.{Result, ok, err, World, quiet, run_sql}
use hsgram_admin.Releases.Types.{
  Place, same_place, Release, AppRelease, Latest, Tables, ReleaseError, Outside, Action, no_rows,
}
use hsgram_admin.Releases.Names.{stable, universal}
use hsgram_admin.Releases.Rows.{lookup_keys, add_key, first_row, newer}
use hsgram_admin.Releases.Store.{
  normal_place, left_join, inner_join, query_row, get_latest_exact, get_newest_exact, first_found,
  get_latest_for, get_newest_for,
}
use hsgram_admin.Releases.Places.{same_place-eq}

abbrev pub or_no_rows : Option AppRelease → Result ReleaseError AppRelease
or_no_rows none = err no_rows
or_no_rows (some a) = ok a

abbrev pub or_else : {A : Type 0} → Option A → Option A → Option A
or_else none b = b
or_else (some a) b = some a

or_else-none : {A : Type 0} (a : Option A) → or_else a none ≡ a
or_else-none none = refl
or_else-none (some a) = refl

or_else_four :
    {A : Type 0} (a b c d : Option A)
    → or_else (or_else (or_else (or_else a none) b) c) d ≡ or_else a (or_else b (or_else c d))
or_else_four (some a) b c d = refl
or_else_four none (some b) c d = refl
or_else_four none none c d = refl

abbrev first_some : (Place → Option AppRelease) → List Place → Option AppRelease
first_some f [] = none
first_some f (k ∷ ks) = or_else (f k) (first_some f ks)

-- The place, any architecture, the stable channel, both.
abbrev pub in_order : (Place → Option AppRelease) → Place → Option AppRelease
in_order f k = or_else (f k) (
    or_else (f (record k { arch = universal })) (
      or_else (f (record k { channel = stable }))
        (f (record k { channel = stable; arch = universal }))))

first_some-append :
    (f : Place → Option AppRelease) (ks ls : List Place)
    → first_some f (ks ++ ls) ≡ or_else (first_some f ks) (first_some f ls)
first_some-append f [] ls = refl
first_some-append f (k ∷ ks) ls = elim (Option-cases (f k)) [
  | inl e ↦ rw e (first_some-append f ks ls)
  | inr (a, e) ↦ rw e refl
]

-- A place that is looked at already.
first_some-seen :
    (f : Place → Option AppRelease) (k : Place) (ks : List Place)
    → any_where (λ (l : Place). same_place l k) ks ≡ true
    → first_some f ks ≡ or_else (first_some f ks) (f k)
first_some-seen f k [] h = cc
first_some-seen f k (l ∷ ls) h = elim (Option-cases (f l)) [
  | inr (a, e) ↦ rw e refl
  | inl e ↦ elim (Bool-cases (same_place l k)) [
    | inl y ↦
        let unheard : f k ≡ none = rw (← same_place-eq l k y) e in
        rw (e, unheard) (sym (or_else-none _))
    | inr n ↦ rw e (first_some-seen f k ls (rw n at h))
  ]
]

first_some-add_key :
    (f : Place → Option AppRelease) (ks : List Place) (k : Place)
    → first_some f (add_key ks k) ≡ or_else (first_some f ks) (f k)
first_some-add_key f ks k = elim (Bool-cases (any_where (λ (l : Place). same_place l k) ks)) [
  | inl y ↦ rw y (first_some-seen f k ks y)
  | inr n ↦
      rw n (first_some-append f ks (k ∷ []) ∙ ap (or_else (first_some f ks)) (or_else-none (f k)))
]

first_some-lookup_keys :
    (f : Place → Option AppRelease) (k : Place) → first_some f (lookup_keys k) ≡ in_order f k
unfolding lookup_keys
first_some-lookup_keys f k =
    let u = record k { arch = universal } in
    let c = record k { channel = stable } in
    let cu = record k { channel = stable; arch = universal } in
    let one = first_some-add_key f (k ∷ []) u in
    let two = first_some-add_key f (add_key (k ∷ []) u) c in
    let three = first_some-add_key f (add_key (add_key (k ∷ []) u) c) cu in
    three
    ∙ ap (λ x. or_else x (f cu)) (two ∙ ap (λ x. or_else x (f c)) one)
    ∙ or_else_four (f k) (f u) (f c) (f cu)

-- Where no statement fails, a query for one row and the loop over the places answer with what the
-- tables have.
pub query_row-quiet :
    (f : Tables → List AppRelease) (t : Tables) (s : List Unit)
    → query_row f (quiet t s) ≡ (or_no_rows (first_row (f t)), quiet t s)
unfolding run_sql query_row
query_row-quiet f t s = elim (Option-cases (first_row (f t))) [
  | inl e ↦ rw e refl
  | inr (a, e) ↦ rw e refl
]

first_found-quiet :
    (get : Place → Action AppRelease) (f : Place → Option AppRelease) (t : Tables) (s : List Unit)
    → ((k : Place) → get k (quiet t s) ≡ (or_no_rows (f k), quiet t s))
    → (ks : List Place) → first_found get ks (quiet t s) ≡ (or_no_rows (first_some f ks), quiet t s)
unfolding run_sql
first_found-quiet get f t s h [] = refl
first_found-quiet get f t s h (k ∷ ks) = elim (Option-cases (f k)) [
  | inl e ↦ rw (h k, e) (first_found-quiet get f t s h ks)
  | inr (a, e) ↦ rw (h k, e) refl
]

answered :
    (f : Place → Option AppRelease) (k : Place) (t : Tables) (s : List Unit)
    → Path
        (Result ReleaseError AppRelease × World Tables Unit)
        (or_no_rows (first_some f (lookup_keys k)), quiet t s)
        (or_no_rows (in_order f k), quiet t s)
answered f k t s = ap (λ a. (or_no_rows a, quiet t s)) (first_some-lookup_keys f k)

module _ (o : Outside) (t : Tables) where
  -- The release that admin_app_latest names for a place.
  abbrev pub latest_at : Place → Option AppRelease
  latest_at k =
      first_row
        (inner_join o t.releases (rows_where (λ (l : Latest). same_place l.place k) t.latest))

  -- The first release of a place in the order of getNewestAppReleaseExact.
  abbrev pub newest_at : Place → Option AppRelease
  newest_at k = first_row (
      left_join o t.latest
        (order_by newer (rows_where (λ (r : Release). same_place r.place k) t.releases)))

-- Where no statement fails, the two lookups for a request whose words are supported answer with the
-- first release that is found for its place, for any architecture, on the stable channel or for
-- both, in this order, and with no row if there is none.
pub lookups-in_order :
    (o : Outside) (platform channel arch : Text) (k : Place) (t : Tables) (s : List Unit)
    → normal_place o platform channel arch ≡ ok k
    → (get_latest_for o platform channel arch (quiet t s)
        ≡ (or_no_rows (in_order (latest_at o t) k), quiet t s))
      × (get_newest_for o platform channel arch (quiet t s)
          ≡ (or_no_rows (in_order (newest_at o t) k), quiet t s))
unfolding run_sql get_latest_for get_newest_for get_latest_exact get_newest_exact
lookups-in_order o platform channel arch k t s e = (
  rw e (
      first_found-quiet (get_latest_exact o) (latest_at o t) t s (λ l. query_row-quiet _ t s)
        (lookup_keys k)
      ∙ answered (latest_at o t) k t s),
  rw e (
      first_found-quiet (get_newest_exact o) (newest_at o t) t s (λ l. query_row-quiet _ t s)
        (lookup_keys k)
      ∙ answered (newest_at o t) k t s),
)
