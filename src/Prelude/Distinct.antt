-- ===== src/Prelude/Distinct.antt =====
-- Lists of numbers in which none comes twice, and how many there are.
use mathlib.Core.Path.{◌≡◌, refl, sym, ap, ◌∙◌, subst}
use mathlib.Core.Bool.{Bool, true, false, not, ◌&&◌, ◌||◌}
use mathlib.Core.List.{List, [], ◌∷◌, ◌++◌}
use mathlib.Core.Logic.{inl, inr}
use Prim.Native.Nat.{ℕ, suc, ◌≤◌}
use native.Mathlib.Omega.{arith}
use hsgram_admin.Prelude.Tests.{◌==◌, Bool-cases, ==_iff}
use hsgram_admin.Prelude.Lists.{All, contains, length, rows_where}

abbrev pub Distinct : List ℕ → Type 0
Distinct [] = Unit
Distinct (x ∷ xs) = (contains x xs ≡ false) × Distinct xs

-- The same numbers are in both.
abbrev pub SameMembers : List ℕ → List ℕ → Type 0
SameMembers xs ys = (k : ℕ) → contains k xs ≡ contains k ys

pub contains-append :
    (k : ℕ) (xs ys : List ℕ) → contains k (xs ++ ys) ≡ (contains k xs || contains k ys)
contains-append k [] ys = refl
contains-append k (x ∷ xs) ys = let rest = contains-append k xs ys in ground arith

pub contains-rows_where :
    (p : ℕ → Bool) (k : ℕ) (xs : List ℕ) → contains k (rows_where p xs) ≡ (p k && contains k xs)
contains-rows_where p k [] = ground arith
contains-rows_where p k (x ∷ xs) =
    let rest = contains-rows_where p k xs in
    elim (Bool-cases (x == k)) [
      | inl e ↦
          let same : x ≡ k = (==_iff x k).0 e in
          elim (Bool-cases (p k)) [
            | inl y ↦ let px : p x ≡ true = ap p same ∙ y in rw (px, e, y) refl
            | inr n ↦ let px : p x ≡ false = ap p same ∙ n in rw (px, n) (rest ∙ rw n refl)
          ]
      | inr d ↦ elim (Bool-cases (p x)) [ inl y ↦ rw (y, d) rest | inr n ↦ rw (n, d) rest ]
    ]

pub Distinct-rows_where : (p : ℕ → Bool) (xs : List ℕ) → Distinct xs → Distinct (rows_where p xs)
Distinct-rows_where p [] h = tt
Distinct-rows_where p (x ∷ xs) h = elim (Bool-cases (p x)) [
  | inl y ↦
      rw y (contains-rows_where p x xs ∙ rw (h.0) (ground arith), Distinct-rows_where p xs h.1)
  | inr n ↦ rw n (Distinct-rows_where p xs h.1)
]

abbrev without : ℕ → List ℕ → List ℕ
without x xs = rows_where (λ y. not (y == x)) xs

without-absent : (x : ℕ) (xs : List ℕ) → contains x xs ≡ false → without x xs ≡ xs
without-absent x [] h = refl
without-absent x (y ∷ ys) h =
    let d : (y == x) ≡ false = ground arith in
    let rest : contains x ys ≡ false = ground arith in rw d (ap (◌∷◌ y) (without-absent x ys rest))

length-without :
    (x : ℕ) (xs : List ℕ)
    → Distinct xs
    → contains x xs ≡ true
    → length xs ≡ suc (length (without x xs))
length-without x [] d h = cc
length-without x (y ∷ ys) d h = elim (Bool-cases (y == x)) [
  | inl e ↦
      let same : y ≡ x = (==_iff y x).0 e in
      let no : contains x ys ≡ false = subst (λ z. contains z ys ≡ false) same d.0 in
      rw (e, without-absent x ys no) refl
  | inr n ↦
      let there : contains x ys ≡ true = rw n at h in rw n (ap suc (length-without x ys d.1 there))
]

empty-SameMembers : (ys : List ℕ) → SameMembers [] ys → length ys ≡ 0
empty-SameMembers [] h = refl
empty-SameMembers (y ∷ ys) h = absurd (let no = h y in ground arith)

-- Lists without repetition that have the same members are as long as each other.
pub length-SameMembers :
    (xs ys : List ℕ) → Distinct xs → Distinct ys → SameMembers xs ys → length xs ≡ length ys
length-SameMembers [] ys d e h = sym (empty-SameMembers ys h)
length-SameMembers (x ∷ xs) ys d e h =
    let there : contains x ys ≡ true = sym (h x) ∙ ground arith in
    let rest = length-SameMembers xs (without x ys) d.1 (Distinct-rows_where _ ys e) (λ k.
      elim (Bool-cases (k == x)) [
        | inl y ↦
            let same : k ≡ x = (==_iff k x).0 y in
            subst (λ z. contains z xs ≡ false) (sym same) d.0
            ∙ sym (contains-rows_where (λ z. not (z == x)) k ys ∙ rw y refl)
        | inr n ↦
            let other : (x == k) ≡ false = ground arith in
            let members = h k in
            (rw other at members) ∙ sym (contains-rows_where (λ z. not (z == x)) k ys ∙ rw n refl)
      ]) in
    ap suc rest ∙ sym (length-without x ys e there)

pub length-rows_where : (p : ℕ → Bool) (xs : List ℕ) → length (rows_where p xs) ≤ length xs
length-rows_where p [] = omega arith
length-rows_where p (x ∷ xs) =
    let rest = length-rows_where p xs in
    elim (Bool-cases (p x)) [ inl y ↦ rw y (omega arith) | inr n ↦ rw n (omega arith) ]

-- A test that leaves out nothing holds of all.
pub All-length :
    (p : ℕ → Bool) (xs : List ℕ) → length (rows_where p xs) ≡ length xs → All (λ x. p x ≡ true) xs
All-length p [] h = tt
All-length p (x ∷ xs) h = elim (Bool-cases (p x)) [
  | inl y ↦ (y, All-length p xs (let k = rw y at h in omega arith))
  | inr n ↦ absurd (let k = rw n at h in let l = length-rows_where p xs in omega arith)
]

pub length-All :
    (p : ℕ → Bool) (xs : List ℕ) → All (λ x. p x ≡ true) xs → length (rows_where p xs) ≡ length xs
length-All p [] h = refl
length-All p (x ∷ xs) h = rw (h.0) (ap suc (length-All p xs h.1))
