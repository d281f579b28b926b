-- ===== src/Releases/NoDraft.antt =====
-- GetLatestAppReleaseFor finds published releases only.
use hsgram_admin.Prelude.{
  ℕ, ◌≡◌, ◌≢◌, refl, ◌∙◌, Bool, true, map, some, List, [], ◌∷◌, ◌++◌, inl, inr, arith, Bool-cases,
  or_true, ==_iff, ◌==◌,
}
use mathlib.Core.Option.{some_inj}
use hsgram_admin.Prelude.Lists.{
  All, AllPairs, All-weaken, All-both, OptionOf, any_where, rows_where, first_where,
  first_where-All,
}
use hsgram_admin.Prelude.Text.{Text}
use hsgram_admin.Sql.{Result, ok, err, fault, World, raise}
use hsgram_admin.Sql.Triple.{
  Returns, Triple, Anything, Triple-raise, Triple-bind, Triple-statement, Triple-or_raise,
  Triple-attempt, Triple-pure, Triple-if, Triple-return_result, Returns-Anything,
}
use hsgram_admin.Releases.Types.{
  Place, same_place, Release, AppRelease, Latest, Tables, ReleaseError, Outside, Action, no_rows,
}
use hsgram_admin.Releases.Rows.{is_published, first_row, lookup_keys}
use hsgram_admin.Releases.Store.{
  normal_place, scan_release, inner_join, query_row, is_release_not_found, on_found, first_found,
  get_latest_exact, get_latest_for,
}
use hsgram_admin.Releases.Invariant.{Inv, points, is_target}
use hsgram_admin.Releases.Places.{same_place-flip}

-- A row with another id is not meant.
target-apart :
    (i : ℕ) (l : Latest) (rs : List Release)
    → any_where (is_target l) rs ≡ true
    → All (λ (s : Release). i ≢ s.id) rs
    → i ≢ l.release_id
target-apart i l [] h a = cc
target-apart i l (r ∷ rs) h a = elim (Bool-cases (r.id == l.release_id)) [
  | inl y ↦ let k = a.0 in ground arith
  | inr n ↦ target-apart i l rs (rw n at h) a.1
]

-- The row with the id that is asked for is the one that the latest release is.
found-points :
    (l : Latest) (rs : List Release) (r : Release)
    → any_where (is_target l) rs ≡ true
    → AllPairs (λ (s u : Release). s.id ≢ u.id) rs
    → first_where (λ (s : Release). s.id == l.release_id) rs ≡ some r
    → points r l ≡ true
found-points l [] r h d f = cc
found-points l (x ∷ rs) r h d f = elim (Bool-cases (x.id == l.release_id)) [
  | inl e ↦
      let same : some x ≡ some r = rw e at f in
      let eq : x ≡ r = some_inj.0 same in
      rw (← eq, e)
        (elim (Bool-cases (same_place x.place l.place)) [
          | inl y ↦ rw (same_place-flip x.place l.place y) refl
          | inr n ↦
              absurd (target-apart x.id l rs (rw (e, n) at h) d.0 ((==_iff x.id l.release_id).0 e))
        ])
  | inr n ↦ found-points l rs r (rw n at h) d.1 (rw n at f)
]

any_where-each :
    (ls : List Latest)
    → All (λ (l : Latest). (r : Release) → points r l ≡ true → any_where (points r) ls ≡ true) ls
any_where-each [] = tt
any_where-each (l ∷ ls) = (
  (λ r e. rw e refl),
  All-weaken _ _ ls (λ m h r e. or_true (points r l) _ (h r e)) (any_where-each ls),
)

abbrev IsPublished : AppRelease → Type 0
IsPublished a = is_published a.release ≡ true

named-IsPublished :
    (t : Tables)
    → Inv t
    → All
        (λ (l : Latest).
          (r : Release)
          → first_where (λ (s : Release). s.id == l.release_id) t.releases ≡ some r
          → is_published r ≡ true)
        t.latest
named-IsPublished t h =
    All-weaken _ _ t.latest
      (λ l both r f.
        let p = found-points l t.releases r both.0 h.distinct f in
        let m = first_where-All _ (λ (s : Release). s.id == l.release_id) t.releases h.marked in
        let own : is_published r ≡ any_where (points r) t.latest = rw f at m in own ∙ both.1 r p)
      (All-both _ _ t.latest h.pointed (any_where-each t.latest))

module _ (o : Outside) where
  first_row-matched :
      (p : Release → Bool) (rs : List Release) (xs : List AppRelease)
      → ((r : Release) → first_where p rs ≡ some r → is_published r ≡ true)
      → OptionOf IsPublished (first_row xs)
      → OptionOf IsPublished (first_row (map (λ r. scan_release o r true) (rows_where p rs) ++ xs))
  unfolding scan_release
  first_row-matched p [] xs k h = h
  first_row-matched p (r ∷ rs) xs k h = elim (Bool-cases (p r)) [
    | inl y ↦ rw y (k r (rw y refl))
    | inr n ↦ rw n (first_row-matched p rs xs (λ s e. k s (rw n e)) h)
  ]

  inner_join-IsPublished :
      (rs : List Release) (p : Latest → Bool) (ls : List Latest)
      → All
          (λ (l : Latest).
            (r : Release)
            → first_where (λ (s : Release). s.id == l.release_id) rs ≡ some r
            → is_published r ≡ true)
          ls
      → OptionOf IsPublished (first_row (inner_join o rs (rows_where p ls)))
  inner_join-IsPublished rs p [] h = tt
  inner_join-IsPublished rs p (l ∷ ls) h = elim (Bool-cases (p l)) [
    | inl y ↦ rw y (first_row-matched _ rs _ h.0 (inner_join-IsPublished rs p ls h.1))
    | inr n ↦ rw n (inner_join-IsPublished rs p ls h.1)
  ]

  get_latest_exact-IsPublished : (k : Place) → Triple Inv (get_latest_exact o k) IsPublished
  unfolding get_latest_exact query_row
  get_latest_exact-IsPublished k =
      Triple-bind {Q = OptionOf IsPublished}
        (Triple-statement _
          (λ t h. (h, inner_join-IsPublished t.releases _ t.latest (named-IsPublished t h))))
        (λ row h. Triple-or_raise no_rows row h)

on_found-IsPublished :
    (rest : Action AppRelease) (r : Result ReleaseError AppRelease)
    → Returns IsPublished r
    → Triple Inv rest IsPublished
    → Triple Inv (on_found rest r) IsPublished
on_found-IsPublished rest (ok a) h k = Triple-pure a h
on_found-IsPublished rest (err x) h k =
    Triple-if (is_release_not_found x) rest (raise x) k (Triple-raise x)
on_found-IsPublished rest fault h k = Triple-return_result fault h

first_found-IsPublished :
    (get : Place → Action AppRelease) (ks : List Place)
    → ((k : Place) → Triple Inv (get k) IsPublished)
    → Triple Inv (first_found get ks) IsPublished
first_found-IsPublished get [] h = Triple-raise no_rows
first_found-IsPublished get (k ∷ ks) h =
    Triple-bind {Q = Returns IsPublished} (Triple-attempt (h k))
      (λ r q. on_found-IsPublished _ r q (first_found-IsPublished get ks h))

get_latest_for-Triple :
    (o : Outside) (platform channel arch : Text)
    → Triple Inv (get_latest_for o platform channel arch) IsPublished
unfolding get_latest_for
get_latest_for-Triple o platform channel arch =
    Triple-bind {Q = Anything}
      (Triple-return_result (normal_place o platform channel arch) (Returns-Anything _))
      (λ k _.
        first_found-IsPublished (get_latest_exact o) (lookup_keys k)
          (get_latest_exact-IsPublished o))

-- Whichever statements fail, on well formed tables a release that GetLatestAppReleaseFor returns is
-- published, and the tables stay well formed.
pub get_latest_for-published :
    (o : Outside) (platform channel arch : Text) (w : World Tables (Unit {0}))
    → Inv w.tables
    → Inv (get_latest_for o platform channel arch w).1.tables
      × Returns
          (λ (a : AppRelease). is_published a.release ≡ true)
          (get_latest_for o platform channel arch w).0
get_latest_for-published o platform channel arch w =
    (get_latest_for-Triple o platform channel arch).run w
