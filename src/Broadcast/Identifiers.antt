-- ===== src/Broadcast/Identifiers.antt =====
-- `splitIdentifiers` of backend/internal/store/broadcast.go: the values that are looked up.
use hsgram_admin.Prelude.{
  ◌≡◌, ◌≢◌, refl, sym, ap, ◌∙◌, inl, inr, Bool, true, false, ◌||◌, Bool-cases, or_right, List, [],
  ◌∷◌,
}
use mathlib.Core.Path.{subst}
use hsgram_admin.Prelude.Lists.{All, AllPairs, any_where, All-weaken}
use hsgram_admin.Prelude.Text.{Text, is_empty, trim, text_eq, text_eq_refl, text_eq_iff}
use hsgram_admin.Broadcast.Targets.{fields, unique_values, split_identifiers}

abbrev pub IsOther : Text → Text → Type 0
IsOther u v = u ≢ v

-- A value that is looked up is not empty, and none of those that were seen before.
record IsFresh (seen : List Text) (v : Text) : Type 0 where
  filled : is_empty v ≡ false
  unseen : any_where (text_eq v) seen ≡ false

or_false : (x y : Bool) → (x || y) ≡ false → (x ≡ false) × (y ≡ false)
or_false true y h = absurd (cc)
or_false false y h = (refl, h)

IsFresh-behind : (v : Text) (seen : List Text) (u : Text) → IsFresh (v ∷ seen) u → IsFresh seen u
IsFresh-behind v seen u h = record {
  filled = h.filled;
  unseen = (or_false (text_eq u v) _ h.unseen).1;
}

or_first : (x y : Bool) → x ≡ true → (x || y) ≡ true
or_first true y h = refl
or_first false y h = absurd (cc)

or_second : (x y z : Bool) → y ≡ true → (x || (y || z)) ≡ true
or_second true y z h = refl
or_second false y z h = or_first y z h

or_swap : (x y z : Bool) → ((y || x) || z) ≡ true → (x || (y || z)) ≡ true
or_swap true y z h = refl
or_swap false true z h = refl
or_swap false false z h = h

-- A step of the loop, by whether the value is left out.
abbrev kept : Bool → Text → List Text → List Text → List Text
kept c x xs seen = elim c [
  | true ↦ unique_values xs seen
  | false ↦ trim x ∷ unique_values xs (trim x ∷ seen)
]

unique_values-IsFresh : (xs seen : List Text) → All (IsFresh seen) (unique_values xs seen)
unique_values-IsFresh [] seen = tt
unique_values-IsFresh (x ∷ xs) seen =
    elim (Bool-cases (is_empty (trim x) || any_where (text_eq (trim x)) seen)) [
      | inl e ↦
          subst (λ c. All (IsFresh seen) (kept c x xs seen)) (sym e) (unique_values-IsFresh xs seen)
      | inr e ↦
          subst (λ c. All (IsFresh seen) (kept c x xs seen)) (sym e)
            (
              record { filled = (or_false _ _ e).0; unseen = (or_false (is_empty (trim x)) _ e).1 },
              All-weaken (IsFresh (trim x ∷ seen)) (IsFresh seen) _ (IsFresh-behind (trim x) seen)
                  (unique_values-IsFresh xs (trim x ∷ seen)),
            )
    ]

unseen-IsOther : (v : Text) (seen : List Text) (u : Text) → IsFresh (v ∷ seen) u → IsOther v u
unseen-IsOther v seen u h e =
    let other = (or_false (text_eq u v) _ h.unseen).0 in
    let same = text_eq_refl v in let moved = ap (λ t. text_eq t v) e in cc

unique_values-IsOther : (xs seen : List Text) → AllPairs IsOther (unique_values xs seen)
unique_values-IsOther [] seen = tt
unique_values-IsOther (x ∷ xs) seen =
    elim (Bool-cases (is_empty (trim x) || any_where (text_eq (trim x)) seen)) [
      | inl e ↦
          subst (λ c. AllPairs IsOther (kept c x xs seen)) (sym e) (unique_values-IsOther xs seen)
      | inr e ↦
          subst (λ c. AllPairs IsOther (kept c x xs seen)) (sym e)
            (
              All-weaken (IsFresh (trim x ∷ seen)) (IsOther (trim x)) _
                  (unseen-IsOther (trim x) seen) (unique_values-IsFresh xs (trim x ∷ seen)),
              unique_values-IsOther xs (trim x ∷ seen),
            )
    ]

-- What was seen or is kept.
abbrev is_covered : Text → List Text → List Text → Bool
is_covered v seen kept = any_where (text_eq v) seen || any_where (text_eq v) kept

unique_values-is_covered :
    (x : Text) (xs seen : List Text)
    → is_empty (trim x) ≡ false
    → any_where (text_eq x) xs ≡ true
    → is_covered (trim x) seen (unique_values xs seen) ≡ true
unique_values-is_covered x [] seen f h = absurd (cc)
unique_values-is_covered x (y ∷ ys) seen f h =
    elim (Bool-cases (is_empty (trim y) || any_where (text_eq (trim y)) seen)) [
      | inl e ↦
          subst (λ c. is_covered (trim x) seen (kept c y ys seen) ≡ true) (sym e)
            (elim (Bool-cases (text_eq x y)) [
              | inl same ↦ or_first _ _ (seen_already same e)
              | inr other ↦ unique_values-is_covered x ys seen f (or_right _ _ other h)
            ])
      | inr e ↦
          subst (λ c. is_covered (trim x) seen (kept c y ys seen) ≡ true) (sym e)
            (elim (Bool-cases (text_eq x y)) [
              | inl same ↦ or_second _ _ _ (same_value same)
              | inr other ↦
                  or_swap (any_where (text_eq (trim x)) seen) (text_eq (trim x) (trim y))
                    (any_where (text_eq (trim x)) (unique_values ys (trim y ∷ seen)))
                    (unique_values-is_covered x ys (trim y ∷ seen) f (or_right _ _ other h))
            ])
    ]
  where
    equal : text_eq x y ≡ true → x ≡ y
    equal same = (text_eq_iff x y).0 same

    same_value : text_eq x y ≡ true → text_eq (trim x) (trim y) ≡ true
    same_value same = ap (λ t. text_eq (trim x) (trim t)) (sym (equal same)) ∙ text_eq_refl (trim x)

    seen_already :
        text_eq x y ≡ true
        → (is_empty (trim y) || any_where (text_eq (trim y)) seen) ≡ true
        → any_where (text_eq (trim x)) seen ≡ true
    seen_already same e =
        or_right _ _ f
          (ap (λ t. is_empty (trim t) || any_where (text_eq (trim t)) seen) (equal same) ∙ e)

-- No value is empty or comes twice, and each field of the text that is not blank is a value.
pub split_identifiers-values :
    (raw x : Text)
    → is_empty (trim x) ≡ false
    → any_where (text_eq x) (fields raw) ≡ true
    → All (λ (v : Text). is_empty v ≡ false) (split_identifiers raw)
      × AllPairs IsOther (split_identifiers raw)
      × (any_where (text_eq (trim x)) (split_identifiers raw) ≡ true)
unfolding split_identifiers
split_identifiers-values raw x f h = (
  All-weaken (IsFresh []) (λ (v : Text). is_empty v ≡ false) _ (λ v k. k.filled)
      (unique_values-IsFresh (fields raw) []),
  unique_values-IsOther (fields raw) [],
  unique_values-is_covered x (fields raw) [] f h,
)
