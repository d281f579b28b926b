-- ===== src/Prelude/Lists.antt =====
-- Lists as the code uses them: slices measured and indexed by native numbers, and the rows of a
-- table with the operations of an SQL statement (WHERE, UPDATE, COUNT, ORDER BY).
use Prim.Native.Nat.{ℕ, zero, suc}
use mathlib.Core.Path.{◌≡◌, refl}
use mathlib.Core.Bool.{Bool, true, false, ◌||◌}
use mathlib.Core.List.{List, [], ◌∷◌, ◌++◌}
use mathlib.Core.Option.{Option, none, some, some_inj}
use mathlib.Core.Logic.{inl, inr}
use mathlib.Core.Option
use hsgram_admin.Prelude.Tests.{Bool-cases, if◌then◌else◌, ◌==◌}

abbrev pub All {ℓ κ} : {A : Type ℓ} → (A → Type κ) → List A → Type κ
All P [] = Unit
All P (x ∷ xs) = P x × All P xs

abbrev pub AllPairs {ℓ κ} : {A : Type ℓ} → (A → A → Type κ) → List A → Type κ
AllPairs R [] = Unit
AllPairs R (x ∷ xs) = All (R x) xs × AllPairs R xs

module _ {ℓ} {A : Type ℓ} where
  abbrev pub length : List A → ℕ
  length [] = 0
  length (x ∷ xs) = suc (length xs)

  abbrev pub get_elem? : List A → ℕ → Option A
  get_elem? [] i = none
  get_elem? (x ∷ xs) zero = some x
  get_elem? (x ∷ xs) (suc i) = get_elem? xs i

  abbrev pub take : ℕ → List A → List A
  take zero xs = []
  take (suc n) [] = []
  take (suc n) (x ∷ xs) = x ∷ take n xs

  abbrev pub drop : ℕ → List A → List A
  drop zero xs = xs
  drop (suc n) [] = []
  drop (suc n) (x ∷ xs) = drop n xs

  -- WHERE.
  abbrev pub rows_where : (A → Bool) → List A → List A
  rows_where p [] = []
  rows_where p (x ∷ xs) = let rest = rows_where p xs in if p x then x ∷ rest else rest

  -- The first row of a query.
  abbrev pub first_where : (A → Bool) → List A → Option A
  first_where p [] = none
  first_where p (x ∷ xs) = if p x then some x else first_where p xs

  abbrev pub any_where : (A → Bool) → List A → Bool
  any_where p [] = false
  any_where p (x ∷ xs) = p x || any_where p xs

  -- UPDATE … WHERE.
  abbrev pub update_where : (A → Bool) → (A → A) → List A → List A
  update_where p f [] = []
  update_where p f (x ∷ xs) = (if p x then f x else x) ∷ update_where p f xs

  -- ORDER BY, for a total order given as a test.
  abbrev pub insert_by : (A → A → Bool) → A → List A → List A
  insert_by le x [] = x ∷ []
  insert_by le x (y ∷ ys) = if le x y then x ∷ y ∷ ys else y ∷ insert_by le x ys

  abbrev pub order_by : (A → A → Bool) → List A → List A
  order_by le [] = []
  order_by le (x ∷ xs) = insert_by le x (order_by le xs)

abbrev pub contains : ℕ → List ℕ → Bool
contains n [] = false
contains n (m ∷ ms) = m == n || contains n ms

abbrev pub OptionOf {ℓ} : {A : Type ℓ} → (A → Type 0) → Option A → Type 0
OptionOf Q none = Unit
OptionOf Q (some a) = Q a

pub OptionOf-unit {ℓ} : {A : Type ℓ} (o : Option A) → OptionOf (λ _. Unit) o
OptionOf-unit none = tt
OptionOf-unit (some a) = tt

pub All-weaken {ℓ} :
    {A : Type ℓ} (P Q : A → Type 0) (xs : List A) → ((x : A) → P x → Q x) → All P xs → All Q xs
All-weaken P Q [] k h = tt
All-weaken P Q (x ∷ xs) k h = (k x h.0, All-weaken P Q xs k h.1)

module _ {A : Type 0} (P : A → Type 0) where
  pub All-update_where :
      (p : A → Bool) (f : A → A) (xs : List A)
      → ((x : A) → P x → P (f x))
      → All P xs
      → All P (update_where p f xs)
  All-update_where p f [] k h = h
  All-update_where p f (x ∷ xs) k h = elim (Bool-cases (p x)) [
    | inl e ↦ rw e (k x h.0, All-update_where p f xs k h.1)
    | inr e ↦ rw e (h.0, All-update_where p f xs k h.1)
  ]

  pub first_where-All : (p : A → Bool) (xs : List A) → All P xs → OptionOf P (first_where p xs)
  first_where-All p [] h = tt
  first_where-All p (x ∷ xs) h = elim (Bool-cases (p x)) [
    | inl e ↦ rw e h.0
    | inr e ↦ rw e (first_where-All p xs h.1)
  ]

pub OptionOf-map :
    {A B : Type 0} (Q : B → Type 0) (f : A → B) (o : Option A)
    → OptionOf (λ a. Q (f a)) o
    → OptionOf Q (Option.map f o)
OptionOf-map Q f none h = tt
OptionOf-map Q f (some a) h = h

-- A query behind an UPDATE that does not change what the query selects by.
module _ {A : Type 0} (p q : A → Bool) (f : A → A) where
  pub first_where-update :
      ((x : A) → q (f x) ≡ q x)
      → ((x : A) → q x ≡ true → p x ≡ true)
      → (xs : List A) → first_where q (update_where p f xs) ≡ Option.map f (first_where q xs)
  first_where-update keep cover [] = refl
  first_where-update keep cover (x ∷ xs) = elim (Bool-cases (p x)) [
    | inl e ↦
        rw (e, keep x)
          (elim (Bool-cases (q x)) [
            | inl y ↦ rw y refl
            | inr n ↦ rw n (first_where-update keep cover xs)
          ])
    | inr e ↦ elim (Bool-cases (q x)) [
      | inl y ↦ cc (cover x y)
      | inr n ↦ rw (e, n) (first_where-update keep cover xs)
    ]
  ]

module _ {A : Type 0} (q : A → Bool) where
  -- An UPDATE that does not change what is asked.
  pub any_where-update :
      (p : A → Bool) (f : A → A) (xs : List A)
      → ((x : A) → q (f x) ≡ q x)
      → any_where q (update_where p f xs) ≡ any_where q xs
  any_where-update p f [] keep = refl
  any_where-update p f (x ∷ xs) keep = elim (Bool-cases (p x)) [
    | inl e ↦ rw (e, keep x, any_where-update p f xs keep) refl
    | inr e ↦ rw (e, any_where-update p f xs keep) refl
  ]

  -- A row that a query finds.
  pub first_where-any :
      (p : A → Bool) (xs : List A) (a : A)
      → first_where p xs ≡ some a
      → (p a ≡ true → q a ≡ true)
      → any_where q xs ≡ true
  first_where-any p [] a h k = cc
  first_where-any p (x ∷ xs) a h k = elim (Bool-cases (p x)) [
    | inl e ↦
        let same : some x ≡ some a = rw e at h in
        let eq : x ≡ a = some_inj.0 same in
        let found : q x ≡ true = rw eq (k (rw (← eq) e)) in rw found refl
    | inr n ↦
        let rest = first_where-any p xs a (rw n at h) k in
        elim (Bool-cases (q x)) [ inl y ↦ rw y refl | inr y ↦ rw y rest ]
  ]

-- What a query finds behind an UPDATE that does not change what it asks.
pub first_where-updated :
    {A : Type 0} (q p : A → Bool) (f : A → A) (xs : List A) (a : A)
    → ((x : A) → q (f x) ≡ q x)
    → first_where q xs ≡ some a
    → p a ≡ true
    → first_where q (update_where p f xs) ≡ some (f a)
first_where-updated q p f [] a keep h y = cc
first_where-updated q p f (x ∷ xs) a keep h y = elim (Bool-cases (q x)) [
  | inl e ↦
      let same : some x ≡ some a = rw e at h in
      let eq : x ≡ a = some_inj.0 same in
      let chosen : p x ≡ true = rw eq y in rw (chosen, keep x, e, eq) refl
  | inr n ↦
      let rest = first_where-updated q p f xs a keep (rw n at h) y in
      elim (Bool-cases (p x)) [ inl u ↦ rw (u, keep x, n) rest | inr u ↦ rw (u, n) rest ]
]

pub All-both {ℓ} :
    {A : Type ℓ} (P Q : A → Type 0) (xs : List A) → All P xs → All Q xs → All (λ x. P x × Q x) xs
All-both P Q [] h k = tt
All-both P Q (x ∷ xs) h k = ((h.0, k.0), All-both P Q xs h.1 k.1)

module _ {A : Type 0} (P : A → Type 0) where
  pub All-append : (xs ys : List A) → All P xs → All P ys → All P (xs ++ ys)
  All-append [] ys h k = k
  All-append (x ∷ xs) ys h k = (h.0, All-append xs ys h.1 k)

  pub All-take : (n : ℕ) (xs : List A) → All P xs → All P (take n xs)
  All-take zero xs h = tt
  All-take (suc n) [] h = tt
  All-take (suc n) (x ∷ xs) h = (h.0, All-take n xs h.1)

-- What a WHERE selects satisfies it.
pub rows_where-All :
    {A : Type 0} (p : A → Bool) (xs : List A) → All (λ x. p x ≡ true) (rows_where p xs)
rows_where-All p [] = tt
rows_where-All p (x ∷ xs) = elim (Bool-cases (p x)) [
  | inl y ↦ rw y (y, rows_where-All p xs)
  | inr n ↦ rw n (rows_where-All p xs)
]
