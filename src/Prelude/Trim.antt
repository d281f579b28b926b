-- ===== src/Prelude/Trim.antt =====
-- `strings.TrimSpace` of what it returned.
use mathlib.Core.Path.{◌≡◌, refl, sym, ap, ◌∙◌, subst}
use mathlib.Core.Bool.{false}
use mathlib.Core.List.{[], ◌∷◌, ◌++◌, reverse, reverse-append, reverse-reverse}
use mathlib.Core.Logic.{inl, inr}
use hsgram_admin.Prelude.Tests.{Bool-cases}
use hsgram_admin.Prelude.Text.{Text, is_space, trim_left, trim}

-- The text does not begin with a space.
abbrev Starts : Text → Type 0
Starts [] = Unit
Starts (c ∷ s) = is_space c ≡ false

trim_left-Starts : (s : Text) → Starts (trim_left s)
unfolding trim_left
trim_left-Starts [] = tt
trim_left-Starts (c ∷ s) = elim (Bool-cases (is_space c)) [
  | inl y ↦ rw y (trim_left-Starts s)
  | inr n ↦ rw n n
]

trim_left-same : (s : Text) → Starts s → trim_left s ≡ s
unfolding trim_left
trim_left-same [] h = refl
trim_left-same (c ∷ s) h = rw h refl

-- What is left out in front.
trim_left-rest : (s : Text) → (p : Text) × (s ≡ p ++ trim_left s)
unfolding trim_left
trim_left-rest [] = ([], refl)
trim_left-rest (c ∷ s) = elim (Bool-cases (is_space c)) [
  | inl y ↦ let (p, e) = trim_left-rest s in rw y (c ∷ p, ap (◌∷◌ c) e)
  | inr n ↦ rw n ([], refl)
]

Starts-before : (s t : Text) → Starts (s ++ t) → Starts s
Starts-before [] t h = tt
Starts-before (c ∷ s) t h = h

trim-Starts : (s : Text) → Starts (trim s)
unfolding trim
trim-Starts s =
    let u = trim_left s in
    let (p, e) = trim_left-rest (reverse u) in
    let whole : u ≡ reverse (trim_left (reverse u)) ++ reverse p =
      sym (reverse-reverse u) ∙ ap (λ (v : Text). reverse v) e ∙ reverse-append p _ in
    Starts-before _ (reverse p) (subst Starts whole (trim_left-Starts s))

pub trim-trim : (s : Text) → trim (trim s) ≡ trim s
unfolding trim
trim-trim s =
    let v = reverse (trim_left s) in
    ap (λ (t : Text). reverse (trim_left (reverse t))) (trim_left-same (trim s) (trim-Starts s))
    ∙ ap (λ (t : Text). reverse (trim_left t)) (reverse-reverse (trim_left v))
    ∙ ap (λ (t : Text). reverse t) (trim_left-same (trim_left v) (trim_left-Starts v))
