-- ===== src/Prelude/Sorted.antt =====
-- ORDER BY gives the same rows, each as often, and in order.
use mathlib.Core.Path.{◌≡◌}
use mathlib.Core.Bool.{Bool, true, false}
use mathlib.Core.List.{List, [], ◌∷◌, Perm}
use mathlib.Core.List.Perm
use mathlib.Core.Logic.{inl, inr}
use hsgram_admin.Prelude.Tests.{Bool-cases}
use hsgram_admin.Prelude.Lists.{AllPairs, All-weaken, insert_by, order_by}
use hsgram_admin.Prelude.Pairs.{All-insert_by}

module _ {A : Type 0} (le : A → A → Bool) where
  insert_by-perm : (x : A) (ys : List A) → Perm (insert_by le x ys) (x ∷ ys)
  insert_by-perm x [] = Perm.refl (x ∷ [])
  insert_by-perm x (y ∷ ys) = elim (Bool-cases (le x y)) [
    | inl e ↦ rw e (Perm.refl (x ∷ y ∷ ys))
    | inr e ↦ rw e (Perm.trans (Perm.cons y (insert_by-perm x ys)) (Perm.swap x y ys))
  ]

  pub order_by-perm : (xs : List A) → Perm (order_by le xs) xs
  order_by-perm [] = Perm.refl []
  order_by-perm (x ∷ xs) =
      Perm.trans (insert_by-perm x (order_by le xs)) (Perm.cons x (order_by-perm xs))

  abbrev Before : A → A → Type 0
  Before x y = le x y ≡ true

  module _ (total : (x y : A) → le x y ≡ false → le y x ≡ true)
      (trans : (x y z : A) → le x y ≡ true → le y z ≡ true → le x z ≡ true) where
    insert_by-AllPairs :
        (x : A) (ys : List A) → AllPairs Before ys → AllPairs Before (insert_by le x ys)
    insert_by-AllPairs x [] h = (tt, tt)
    insert_by-AllPairs x (y ∷ ys) h = elim (Bool-cases (le x y)) [
      | inl e ↦ rw e ((e, All-weaken (Before y) (Before x) ys (λ z k. trans x y z e k) h.0), h)
      | inr e ↦
          rw e (All-insert_by (Before y) le x ys (total x y e) h.0, insert_by-AllPairs x ys h.1)
    ]

    pub order_by-AllPairs : (xs : List A) → AllPairs Before (order_by le xs)
    order_by-AllPairs [] = tt
    order_by-AllPairs (x ∷ xs) = insert_by-AllPairs x (order_by le xs) (order_by-AllPairs xs)
