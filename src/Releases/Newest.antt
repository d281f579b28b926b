-- ===== src/Releases/Newest.antt =====
-- getNewestAppReleaseExact finds a release with the highest version code of its place.
use hsgram_admin.Prelude.{
  ◌≤◌, ◌≡◌, sym, Bool, true, false, Option, none, some, List, [], ◌∷◌, inl, inr, arith, Bool-cases,
  ◌==◌, ltb, if◌then◌else◌,
}
use mathlib.Core.Path.{subst}
use hsgram_admin.Prelude.Lists.{All, All-weaken, rows_where, insert_by, order_by}
use hsgram_admin.Sql.{quiet}
use hsgram_admin.Releases.Types.{Place, same_place, Release, AppRelease, Tables, Outside}
use hsgram_admin.Releases.Rows.{newer, first_row}
use hsgram_admin.Releases.Store.{scan_release, left_join, get_newest_exact}
use hsgram_admin.Releases.Served.{newest_at, or_no_rows, query_row-quiet}
use hsgram_admin.Releases.Published.{first_row-or_unmatched}

-- The first row has the highest version code.
abbrev TopOf : List Release → List Release → Type 0
TopOf xs [] = All (λ _. ⊥) xs
TopOf xs (y ∷ ys) = All (λ (r : Release). r.version_code ≤ y.version_code) xs

newer-le : (x y : Release) → newer x y ≡ true → y.version_code ≤ x.version_code
unfolding newer
newer-le x y h = elim (Bool-cases (x.version_code == y.version_code)) [
  | inl e ↦ ground arith
  | inr n ↦ let k : ltb y.version_code x.version_code ≡ true = rw n at h in ground arith
]

older-le : (x y : Release) → newer x y ≡ false → x.version_code ≤ y.version_code
unfolding newer
older-le x y h = elim (Bool-cases (x.version_code == y.version_code)) [
  | inl e ↦ ground arith
  | inr n ↦ let k : ltb y.version_code x.version_code ≡ false = rw n at h in ground arith
]

insert_by-TopOf :
    (x : Release) (xs ys : List Release) → TopOf xs ys → TopOf (x ∷ xs) (insert_by newer x ys)
insert_by-TopOf x xs [] h = (omega arith, All-weaken _ _ xs (λ r no. absurd no) h)
insert_by-TopOf x xs (y ∷ ys) h = elim (Bool-cases (newer x y)) [
  | inl e ↦
      let k = newer-le x y e in
      subst (λ b. TopOf (x ∷ xs) (if b then x ∷ y ∷ ys else y ∷ insert_by newer x ys)) (sym e)
        (
          omega arith,
          All-weaken _ (λ (r : Release). r.version_code ≤ x.version_code) xs (λ r b. omega arith) h,
        )
  | inr e ↦
      subst (λ b. TopOf (x ∷ xs) (if b then x ∷ y ∷ ys else y ∷ insert_by newer x ys)) (sym e)
        (older-le x y e, h)
]

order_by-TopOf : (xs : List Release) → TopOf xs (order_by newer xs)
order_by-TopOf [] = tt
order_by-TopOf (x ∷ xs) = insert_by-TopOf x xs (order_by newer xs) (order_by-TopOf xs)

All-rows_where :
    {A : Type 0} (p : A → Bool) (R : A → Type 0) (xs : List A)
    → All R (rows_where p xs)
    → All (λ x. p x ≡ true → R x) xs
All-rows_where p R [] h = tt
All-rows_where p R (x ∷ xs) h = elim (Bool-cases (p x)) [
  | inl y ↦
      let k : R x × All R (rows_where p xs) = rw y at h in (λ _. k.0, All-rows_where p R xs k.1)
  | inr n ↦ (λ y. cc, All-rows_where p R xs (rw n at h))
]

-- No release of the place has a higher version code.
abbrev pub IsHighest : Tables → Place → Option AppRelease → Type 0
IsHighest t k none = All (λ (r : Release). same_place r.place k ≡ true → ⊥) t.releases
IsHighest t k (some a) =
    All (λ (r : Release). same_place r.place k ≡ true → r.version_code ≤ a.release.version_code)
      t.releases

module _ (o : Outside) (t : Tables) (k : Place) where
  of_place : List Release
  of_place = rows_where (λ (r : Release). same_place r.place k) t.releases

  first-IsHighest :
      (ys : List Release) → TopOf of_place ys → IsHighest t k (first_row (left_join o t.latest ys))
  unfolding of_place scan_release
  first-IsHighest [] h =
      All-rows_where (λ (r : Release). same_place r.place k) (λ _. ⊥) t.releases h
  first-IsHighest (y ∷ ys) h =
      subst (IsHighest t k) (sym (first_row-or_unmatched o y t.latest (left_join o t.latest ys))) (
        All-rows_where (λ (r : Release). same_place r.place k)
          (λ (r : Release). r.version_code ≤ y.version_code) t.releases h)

  -- Where no statement fails, getNewestAppReleaseExact answers with no row only if the place has
  -- no release, and else with one whose version code no release of the place exceeds.
  pub newest-IsHighest :
      (s : List Unit)
      → (get_newest_exact o k (quiet t s) ≡ (or_no_rows (newest_at o t k), quiet t s))
        × IsHighest t k (newest_at o t k)
  unfolding get_newest_exact of_place
  newest-IsHighest s =
      (query_row-quiet _ t s, first-IsHighest (order_by newer of_place) (order_by-TopOf of_place))
