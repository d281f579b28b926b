-- ===== src/Settings/FreshIds.antt =====
-- What normalizeUserIDList of backend/internal/store/runtime_settings.go returns.
use hsgram_admin.Prelude.{
  ℕ, ◌≡◌, refl, sym, ap, ◌∙◌, Bool, true, false, not, ◌&&◌, ◌||◌, List, [], ◌∷◌, inl, inr, arith,
  ◌==◌, ==_iff, Bool-cases,
}
use mathlib.Core.Path.{subst}
use hsgram_admin.Prelude.Lists.{contains}
use hsgram_admin.Prelude.Distinct.{Distinct}
use hsgram_admin.Settings.{fresh_ids}

-- A step of the loop, by whether the id is left out.
abbrev pub kept : Bool → ℕ → List ℕ → List ℕ → List ℕ
kept c i is seen = elim c [ true ↦ fresh_ids seen is | false ↦ i ∷ fresh_ids (i ∷ seen) is ]

fresh_ids-skip :
    (i : ℕ) (seen is : List ℕ)
    → (i == 0 || contains i seen) ≡ true
    → fresh_ids seen (i ∷ is) ≡ fresh_ids seen is
fresh_ids-skip i seen is h = ap (λ c. kept c i is seen) h

fresh_ids-keep :
    (i : ℕ) (seen is : List ℕ)
    → (i == 0 || contains i seen) ≡ false
    → fresh_ids seen (i ∷ is) ≡ i ∷ fresh_ids (i ∷ seen) is
fresh_ids-keep i seen is h = ap (λ c. kept c i is seen) h

-- An id that is left out is not missed, and one that is kept is there.
skipped :
    (i k : ℕ) (seen is : List ℕ)
    → (i == 0 || contains i seen) ≡ true
    → (not (k == 0 || contains k seen) && contains k is)
      ≡ (not (k == 0 || contains k seen) && (i == k || contains k is))
skipped i k seen is y = elim (Bool-cases (i == k)) [
  | inl e ↦
      let left : (k == 0 || contains k seen) ≡ true =
        subst (λ z. (z == 0 || contains z seen) ≡ true) ((==_iff i k).0 e) y in
      rw left refl
  | inr d ↦ rw d refl
]

added :
    (i k : ℕ) (seen is : List ℕ)
    → (i == 0 || contains i seen) ≡ false
    → (i == k || (not (k == 0 || (i == k || contains k seen)) && contains k is))
      ≡ (not (k == 0 || contains k seen) && (i == k || contains k is))
added i k seen is n = elim (Bool-cases (i == k)) [
  | inl e ↦
      let here : (k == 0 || contains k seen) ≡ false =
        subst (λ z. (z == 0 || contains z seen) ≡ false) ((==_iff i k).0 e) n in
      rw (e, here) refl
  | inr d ↦ rw d refl
]

-- What is not 0, was not seen, and was given.
pub contains-fresh_ids :
    (k : ℕ) (seen is : List ℕ)
    → contains k (fresh_ids seen is) ≡ (not (k == 0 || contains k seen) && contains k is)
contains-fresh_ids k seen [] = ground arith
contains-fresh_ids k seen (i ∷ is) = elim (Bool-cases (i == 0 || contains i seen)) [
  | inl y ↦
      ap (contains k) (fresh_ids-skip i seen is y)
      ∙ contains-fresh_ids k seen is
      ∙ skipped i k seen is y
  | inr n ↦
      ap (contains k) (fresh_ids-keep i seen is n)
      ∙ ap (λ b. i == k || b) (contains-fresh_ids k (i ∷ seen) is)
      ∙ added i k seen is n
]

pub fresh_ids-Distinct : (seen is : List ℕ) → Distinct (fresh_ids seen is)
fresh_ids-Distinct seen [] = tt
fresh_ids-Distinct seen (i ∷ is) = elim (Bool-cases (i == 0 || contains i seen)) [
  | inl y ↦ subst Distinct (sym (fresh_ids-skip i seen is y)) (fresh_ids-Distinct seen is)
  | inr n ↦
      let self : (i == i) ≡ true = ground arith in
      let gone : (not (i == 0 || contains i (i ∷ seen)) && contains i is) ≡ false = ground arith in
      subst Distinct (sym (fresh_ids-keep i seen is n))
        (contains-fresh_ids i (i ∷ seen) is ∙ gone, fresh_ids-Distinct (i ∷ seen) is)
]
