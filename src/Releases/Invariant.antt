-- ===== src/Releases/Invariant.antt =====
-- What holds of the two release tables between two calls.
use hsgram_admin.Prelude.{
  ℕ, ◌<◌, ◌≡◌, ◌≢◌, refl, sym, ap, ◌∙◌, Bool, true, false, ◌&&◌, ◌||◌, some, List, [], ◌∷◌, inl,
  inr, arith, Bool-cases, if◌then◌else◌, ◌==◌,
}
use hsgram_admin.Prelude.Lists.{
  All, AllPairs, All-weaken, All-update_where, update_where, any_where, first_where,
  any_where-update, first_where-any,
}
use hsgram_admin.Releases.Types.{Place, same_place, Release, Latest, Tables}
use hsgram_admin.Releases.Rows.{is_published, set_latest, set_published}
use hsgram_admin.Releases.Places.{same_place_refl, same_place-eq, same_place-apart}

abbrev pub points : Release → Latest → Bool
points r l = same_place l.place r.place && r.id == l.release_id

abbrev pub is_target : Latest → Release → Bool
is_target l r = r.id == l.release_id && same_place r.place l.place

-- A release is published exactly if the row of its place names it.
pub record Inv (t : Tables) : Type 0 where
  pub below : All (λ (r : Release). r.id < t.next_id) t.releases
  pub distinct : AllPairs (λ (r s : Release). r.id ≢ s.id) t.releases
  pub keys : AllPairs (λ (l m : Latest). same_place l.place m.place ≡ false) t.latest
  pub marked : All (λ (r : Release). is_published r ≡ any_where (points r) t.latest) t.releases
  pub pointed : All (λ (l : Latest). any_where (is_target l) t.releases ≡ true) t.latest

-- No row of the place is left behind its first.
others-quiet :
    (r : Release) (l : Latest) (ls : List Latest)
    → l.place ≡ r.place
    → All (λ (m : Latest). same_place l.place m.place ≡ false) ls
    → any_where (points r) ls ≡ false
others-quiet r l [] e h = refl
others-quiet r l (m ∷ ms) e h = elim (Bool-cases (same_place m.place r.place)) [
  | inl y ↦
      let p = same_place-eq m.place r.place y in
      let q : same_place l.place m.place ≡ true = rw (e, p) (same_place_refl r.place) in cc (h.0)
  | inr n ↦ rw n (others-quiet r l ms e h.1)
]

set_latest-same :
    (r : Release) (k : Place) (i : ℕ) (ls : List Latest)
    → k ≡ r.place
    → AllPairs (λ (l m : Latest). same_place l.place m.place ≡ false) ls
    → any_where (points r) (set_latest k i ls) ≡ (r.id == i)
unfolding set_latest
set_latest-same r k i [] e h =
    let p : same_place k r.place ≡ true = rw e (same_place_refl r.place) in rw p (ground arith)
set_latest-same r k i (l ∷ ls) e h = elim (Bool-cases (same_place l.place k)) [
  | inl y ↦
      let p : same_place l.place r.place ≡ true = rw (← e) y in
      let q = others-quiet r l ls (same_place-eq l.place r.place p) h.0 in
      rw (y, p, q) (ground arith)
  | inr n ↦
      let p : same_place l.place r.place ≡ false = rw (← e) n in
      rw (n, p) (set_latest-same r k i ls e h.1)
]

set_latest-other :
    (r : Release) (k : Place) (i : ℕ) (ls : List Latest)
    → same_place k r.place ≡ false
    → any_where (points r) (set_latest k i ls) ≡ any_where (points r) ls
unfolding set_latest
set_latest-other r k i [] e = rw e refl
set_latest-other r k i (l ∷ ls) e = elim (Bool-cases (same_place l.place k)) [
  | inl y ↦
      let p = same_place-eq l.place k y in
      let q : same_place l.place r.place ≡ false = rw p e in rw (y, q) refl
  | inr n ↦ rw n (ap (λ b. points r l || b) (set_latest-other r k i ls e))
]

set_latest-All :
    (R : Latest → Type 0) (k : Place) (i : ℕ) (ls : List Latest)
    → ((m : Latest) → m.place ≡ k → m.release_id ≡ i → R m)
    → All R ls
    → All R (set_latest k i ls)
unfolding set_latest
set_latest-All R k i [] new h = (new _ refl refl, tt)
set_latest-All R k i (l ∷ ls) new h = elim (Bool-cases (same_place l.place k)) [
  | inl y ↦ rw y (new _ (same_place-eq l.place k y) refl, h.1)
  | inr n ↦ rw n (h.0, set_latest-All R k i ls new h.1)
]

set_latest-keys :
    (k : Place) (i : ℕ) (ls : List Latest)
    → AllPairs (λ (l m : Latest). same_place l.place m.place ≡ false) ls
    → AllPairs (λ (l m : Latest). same_place l.place m.place ≡ false) (set_latest k i ls)
unfolding set_latest
set_latest-keys k i [] h = (tt, tt)
set_latest-keys k i (l ∷ ls) h = elim (Bool-cases (same_place l.place k)) [
  | inl y ↦ rw y h
  | inr n ↦ rw n (
    set_latest-All (λ (m : Latest). same_place l.place m.place ≡ false) k i ls (λ m e f. rw e n)
        h.0,
    set_latest-keys k i ls h.1,
  )
]

-- The tables behind the two statements of a publication.
abbrev pub published_tables : ℕ → ℕ → Place → Tables → Tables
published_tables now i k t = record t {
  releases = update_where (λ (s : Release). same_place s.place k) (set_published now i) t.releases;
  latest = set_latest k i t.latest;
}

-- A row after the UPDATE.
module _ (now i : ℕ) (k : Place) where
  updated : Release → Release
  updated r = if same_place r.place k then set_published now i r else r

  updated-keys : (r : Release) → ((updated r).id ≡ r.id) × ((updated r).place ≡ r.place)
  unfolding updated set_published
  updated-keys r = elim (Bool-cases (same_place r.place k)) [
    | inl y ↦ rw y (refl, refl)
    | inr n ↦ rw n (refl, refl)
  ]

  published-below :
      (n : ℕ) (rs : List Release)
      → All (λ (r : Release). r.id < n) rs
      → All
          (λ (r : Release). r.id < n)
          (update_where (λ (s : Release). same_place s.place k) (set_published now i) rs)
  unfolding set_published
  published-below n rs =
      All-update_where (λ (r : Release). r.id < n) _ (set_published now i) rs (λ r h. h)

  apart-update :
      (r : Release) (rs : List Release)
      → All (λ (s : Release). r.id ≢ s.id) rs
      → All
          (λ (s : Release). (updated r).id ≢ s.id)
          (update_where (λ (s : Release). same_place s.place k) (set_published now i) rs)
  unfolding set_published
  apart-update r rs h =
      rw (updated-keys r).0
        (All-update_where (λ (s : Release). r.id ≢ s.id) _ (set_published now i) rs (λ s e. e) h)

  published-distinct :
      (rs : List Release)
      → AllPairs (λ (r s : Release). r.id ≢ s.id) rs
      → AllPairs
          (λ (r s : Release). r.id ≢ s.id)
          (update_where (λ (s : Release). same_place s.place k) (set_published now i) rs)
  unfolding updated
  published-distinct [] h = tt
  published-distinct (r ∷ rs) h = (apart-update r rs h.0, published-distinct rs h.1)

  points-updated : (r : Release) (l : Latest) → points (updated r) l ≡ points r l
  points-updated r l = let e = updated-keys r in rw (e.0, e.1) refl

  is_published-set : (r : Release) → is_published (set_published now i r) ≡ (r.id == i)
  unfolding set_published
  is_published-set r = elim (Bool-cases (r.id == i)) [ inl y ↦ rw y refl | inr n ↦ rw n refl ]

  any_where-points :
      (r : Release) (ls : List Latest) → any_where (points (updated r)) ls ≡ any_where (points r) ls
  any_where-points r [] = refl
  any_where-points r (l ∷ ls) = rw (points-updated r l, any_where-points r ls) refl

  updated-marked :
      (r : Release) (ls : List Latest)
      → AllPairs (λ (l m : Latest). same_place l.place m.place ≡ false) ls
      → is_published r ≡ any_where (points r) ls
      → is_published (updated r) ≡ any_where (points (updated r)) (set_latest k i ls)
  unfolding updated set_published
  updated-marked r ls h e = elim (Bool-cases (same_place r.place k)) [
    | inl y ↦
        let p = same_place-eq r.place k y in
        rw (y, is_published-set r) (sym (set_latest-same (set_published now i r) k i ls (sym p) h))
    | inr n ↦
        let q : same_place k r.place ≡ false = same_place-apart r.place k n in
        rw n (e ∙ sym (set_latest-other r k i ls q))
  ]

  published-marked :
      (rs : List Release) (ls : List Latest)
      → AllPairs (λ (l m : Latest). same_place l.place m.place ≡ false) ls
      → All (λ (r : Release). is_published r ≡ any_where (points r) ls) rs
      → All
          (λ (r : Release). is_published r ≡ any_where (points r) (set_latest k i ls))
          (update_where (λ (s : Release). same_place s.place k) (set_published now i) rs)
  unfolding updated
  published-marked [] ls h e = tt
  published-marked (r ∷ rs) ls h e = (updated-marked r ls h e.0, published-marked rs ls h e.1)

  published-pointed :
      (rs : List Release) (ls : List Latest) (r : Release)
      → first_where (λ (s : Release). s.id == i) rs ≡ some r
      → r.place ≡ k
      → All (λ (l : Latest). any_where (is_target l) rs ≡ true) ls
      → All
          (λ (l : Latest).
            any_where
              (is_target l)
              (update_where (λ (s : Release). same_place s.place k) (set_published now i) rs)
            ≡ true)
          (set_latest k i ls)
  unfolding set_published
  published-pointed rs ls r found e h =
      set_latest-All _ k i ls
        (λ m p q.
          any_where-update (is_target m) _ (set_published now i) rs (λ s. refl)
          ∙ first_where-any (is_target m) (λ (s : Release). s.id == i) rs r found
              (λ y.
                let same : same_place r.place m.place ≡ true = rw (e, p) (same_place_refl k) in
                let named : (r.id == m.release_id) ≡ true = rw q y in rw (named, same) refl))
        (All-weaken (λ (l : Latest). any_where (is_target l) rs ≡ true) _ ls
          (λ l y. any_where-update (is_target l) _ (set_published now i) rs (λ s. refl) ∙ y) h)

-- A publication of a release that is there keeps the invariant.
pub published-Inv :
    (now i : ℕ) (r : Release) (t : Tables)
    → first_where (λ (s : Release). s.id == i) t.releases ≡ some r
    → Inv t
    → Inv (published_tables now i r.place t)
published-Inv now i r t found h = record {
  below = published-below now i r.place t.next_id t.releases h.below;
  distinct = published-distinct now i r.place t.releases h.distinct;
  keys = set_latest-keys r.place i t.latest h.keys;
  marked = published-marked now i r.place t.releases t.latest h.keys h.marked;
  pointed = published-pointed now i r.place t.releases t.latest r found refl h.pointed;
}
