-- ===== src/Prelude/Queries.antt =====
-- What a query finds, behind WHERE, ORDER BY and LIMIT.
use Prim.Native.Nat.{ℕ, zero, suc, ◌+◌, ◌*◌, ◌≤◌}
use mathlib.Core.Path.{◌≡◌, refl, sym, ap, ◌∙◌}
use mathlib.Core.Bool.{Bool, false, ◌||◌}
use mathlib.Core.Option.{none, some}
use mathlib.Core.List.{List, [], ◌∷◌, ◌++◌, map}
use mathlib.Core.Logic.{inl, inr}
use native.Mathlib.Omega.{arith}
use hsgram_admin.Prelude.Tests.{Bool-cases}
use hsgram_admin.Prelude.Lists.{
  length, take, drop, rows_where, first_where, any_where, insert_by, order_by,
}

pub length-rows_where_le :
    {A : Type 0} (p : A → Bool) (xs : List A) → length (rows_where p xs) ≤ length xs
length-rows_where_le p [] = omega arith
length-rows_where_le p (x ∷ xs) =
    let rest = length-rows_where_le p xs in
    elim (Bool-cases (p x)) [ inl y ↦ rw y (omega arith) | inr n ↦ rw n (omega arith) ]

any_where-insert_by :
    {A : Type 0} (p : A → Bool) (le : A → A → Bool) (x : A) (ys : List A)
    → any_where p (insert_by le x ys) ≡ (p x || any_where p ys)
any_where-insert_by p le x [] = refl
any_where-insert_by p le x (y ∷ ys) = elim (Bool-cases (le x y)) [
  | inl e ↦ rw e refl
  | inr e ↦ rw (e, any_where-insert_by p le x ys) (ground arith)
]

pub any_where-order_by :
    {A : Type 0} (p : A → Bool) (le : A → A → Bool) (xs : List A)
    → any_where p (order_by le xs) ≡ any_where p xs
any_where-order_by p le [] = refl
any_where-order_by p le (x ∷ xs) =
    any_where-insert_by p le x (order_by le xs) ∙ ap (λ c. p x || c) (any_where-order_by p le xs)

pub none_where :
    {A : Type 0} (p : A → Bool) (xs : List A) → first_where p xs ≡ none → any_where p xs ≡ false
none_where p [] e = refl
none_where p (x ∷ xs) e = elim (Bool-cases (p x)) [
  | inl y ↦ absurd (let h : some x ≡ none = rw y at e in cc)
  | inr n ↦ rw n (none_where p xs (rw n at e))
]

pub length-map_same {ℓ κ} :
    {A : Type ℓ} {B : Type κ} (f : A → B) (xs : List A) → length (map f xs) ≡ length xs
length-map_same f [] = refl
length-map_same f (x ∷ xs) = ap suc (length-map_same f xs)

length-insert_by {ℓ} :
    {A : Type ℓ} (le : A → A → Bool) (x : A) (ys : List A)
    → length (insert_by le x ys) ≡ suc (length ys)
length-insert_by le x [] = refl
length-insert_by le x (y ∷ ys) = elim (Bool-cases (le x y)) [
  | inl e ↦ rw e refl
  | inr e ↦ rw e (ap suc (length-insert_by le x ys))
]

pub length-order_by {ℓ} :
    {A : Type ℓ} (le : A → A → Bool) (xs : List A) → length (order_by le xs) ≡ length xs
length-order_by le [] = refl
length-order_by le (x ∷ xs) =
    length-insert_by le x (order_by le xs) ∙ ap suc (length-order_by le xs)

module _ {ℓ} {A : Type ℓ} where
  drop-nil : (n : ℕ) → drop {A = A} n [] ≡ []
  drop-nil zero = refl
  drop-nil (suc n) = refl

  drop-drop : (a b : ℕ) (xs : List A) → drop a (drop b xs) ≡ drop (b + a) xs
  drop-drop a zero xs = ap (λ n. drop n xs) (omega arith)
  drop-drop a (suc b) [] = drop-nil a ∙ sym (drop-nil (suc b + a))
  drop-drop a (suc b) (x ∷ xs) =
      let e : suc b + a ≡ suc (b + a) = omega arith in
      drop-drop a b xs ∙ sym (ap (λ n. drop n (x ∷ xs)) e)

  take-drop : (n : ℕ) (xs : List A) → take n xs ++ drop n xs ≡ xs
  take-drop zero xs = refl
  take-drop (suc n) [] = refl
  take-drop (suc n) (x ∷ xs) = ap (◌∷◌ x) (take-drop n xs)

  drop_all : (n : ℕ) (xs : List A) → length xs ≤ n → drop n xs ≡ []
  drop_all zero [] h = refl
  drop_all zero (x ∷ xs) h = absurd (omega arith)
  drop_all (suc n) [] h = refl
  drop_all (suc n) (x ∷ xs) h = drop_all n xs (omega arith)

  -- A list in pages of `s`: `n` pages, from the one behind the first `k`.
  abbrev pub pages_from : ℕ → ℕ → ℕ → List A → List A
  pages_from s k zero xs = []
  pages_from s k (suc n) xs = take s (drop (k * s) xs) ++ pages_from s (suc k) n xs

  pub pages_from-drop :
      (s k n : ℕ) (xs : List A) → length xs ≤ (k + n) * s → pages_from s k n xs ≡ drop (k * s) xs
  pages_from-drop s k zero xs h = sym (drop_all (k * s) xs (grind arith))
  pages_from-drop s k (suc n) xs h =
      ap (λ ys. take s (drop (k * s) xs) ++ ys)
        (pages_from-drop s (suc k) n xs (grind arith)
          ∙ ap (λ m. drop m xs) (grind arith)
          ∙ sym (drop-drop s (k * s) xs))
      ∙ take-drop s (drop (k * s) xs)
