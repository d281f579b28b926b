-- ===== src/Prelude/Pairs.antt =====
-- Lists whose elements are pairwise different, under the operations of a query.
use mathlib.Core.Bool.{Bool}
use mathlib.Core.List.{List, [], ◌∷◌, ◌++◌, map}
use mathlib.Core.Logic.{inl, inr}
use hsgram_admin.Prelude.Tests.{Bool-cases}
use hsgram_admin.Prelude.Lists.{All, AllPairs, rows_where, insert_by, order_by}

module _ {ℓ} {A : Type ℓ} where
  All-rows_where :
      (P : A → Type 0) (p : A → Bool) (xs : List A) → All P xs → All P (rows_where p xs)
  All-rows_where P p [] h = tt
  All-rows_where P p (x ∷ xs) (h, hs) = elim (Bool-cases (p x)) [
    | inl e ↦ rw e (h, All-rows_where P p xs hs)
    | inr e ↦ rw e (All-rows_where P p xs hs)
  ]

  pub AllPairs-rows_where :
      (R : A → A → Type 0) (p : A → Bool) (xs : List A)
      → AllPairs R xs
      → AllPairs R (rows_where p xs)
  AllPairs-rows_where R p [] h = tt
  AllPairs-rows_where R p (x ∷ xs) (h, hs) = elim (Bool-cases (p x)) [
    | inl e ↦ rw e (All-rows_where (R x) p xs h, AllPairs-rows_where R p xs hs)
    | inr e ↦ rw e (AllPairs-rows_where R p xs hs)
  ]

  pub All-insert_by :
      (P : A → Type 0) (le : A → A → Bool) (x : A) (ys : List A)
      → P x
      → All P ys
      → All P (insert_by le x ys)
  All-insert_by P le x [] h hs = (h, tt)
  All-insert_by P le x (y ∷ ys) h (k, ks) = elim (Bool-cases (le x y)) [
    | inl e ↦ rw e (h, (k, ks))
    | inr e ↦ rw e (k, All-insert_by P le x ys h ks)
  ]

  All-order_by :
      (P : A → Type 0) (le : A → A → Bool) (xs : List A) → All P xs → All P (order_by le xs)
  All-order_by P le [] h = tt
  All-order_by P le (x ∷ xs) (h, hs) =
      All-insert_by P le x (order_by le xs) h (All-order_by P le xs hs)

  module _ (R : A → A → Type 0) (flip : (x y : A) → R x y → R y x) (le : A → A → Bool) where
    AllPairs-insert_by :
        (x : A) (ys : List A) → All (R x) ys → AllPairs R ys → AllPairs R (insert_by le x ys)
    AllPairs-insert_by x [] h hs = (tt, tt)
    AllPairs-insert_by x (y ∷ ys) (h, k) (m, n) = elim (Bool-cases (le x y)) [
      | inl e ↦ rw e ((h, k), (m, n))
      | inr e ↦ rw e (All-insert_by (R y) le x ys (flip x y h) m, AllPairs-insert_by x ys k n)
    ]

    pub AllPairs-order_by : (xs : List A) → AllPairs R xs → AllPairs R (order_by le xs)
    AllPairs-order_by [] h = tt
    AllPairs-order_by (x ∷ xs) (h, hs) =
        AllPairs-insert_by x (order_by le xs) (All-order_by (R x) le xs h) (AllPairs-order_by xs hs)

  All-append_left : (P : A → Type 0) (xs ys : List A) → All P (xs ++ ys) → All P xs
  All-append_left P [] ys h = tt
  All-append_left P (x ∷ xs) ys (h, hs) = (h, All-append_left P xs ys hs)

  pub AllPairs-append_left :
      (R : A → A → Type 0) (xs ys : List A) → AllPairs R (xs ++ ys) → AllPairs R xs
  AllPairs-append_left R [] ys h = tt
  AllPairs-append_left R (x ∷ xs) ys (h, hs) =
      (All-append_left (R x) xs ys h, AllPairs-append_left R xs ys hs)

module _ {ℓ κ} {A : Type ℓ} {B : Type κ} (f : A → B) where
  All-map : (P : B → Type 0) (xs : List A) → All (λ x. P (f x)) xs → All P (map f xs)
  All-map P [] h = tt
  All-map P (x ∷ xs) (h, hs) = (h, All-map P xs hs)

  pub AllPairs-map :
      (R : B → B → Type 0) (xs : List A)
      → AllPairs (λ x y. R (f x) (f y)) xs
      → AllPairs R (map f xs)
  AllPairs-map R [] h = tt
  AllPairs-map R (x ∷ xs) (h, hs) = (All-map (R (f x)) xs h, AllPairs-map R xs hs)
