-- ===== src/Prelude/Decimal.antt =====
-- `%d` of package fmt, for numbers that are not negative.
use hsgram_admin.Prelude.{
  ℕ, zero, suc, ◌+◌, ◌-◌, ◌*◌, ◌/◌, ◌%◌, ◌≤◌, ◌<◌, ◌≡◌, ◌≢◌, refl, sym, ap, ◌∙◌, [], ◌∷◌, ◌++◌,
  arith, inl, inr, Bool, true, not, ◌&&◌, ◌||◌, ltb, leb, ◌==◌, Bool-cases, if◌then◌else◌,
}
use hsgram_admin.Prelude.Lists.{All, All-append}
use hsgram_admin.Prelude.Text.{Text, is_empty}

-- The digits of `n`, of which there are at most the fuel.
digits : ℕ → ℕ → Text
digits zero n = []
digits (suc f) n =
    let rest = digits f (n / 10) in if n == 0 then [] else rest ++ (b'0' + n % 10) ∷ []

unfoldable pub show : ℕ → Text
unfolding digits
show n = if n == 0 then b'0' ∷ [] else digits n n

-- The number that digits stand for.
value : ℕ → Text → ℕ
value acc [] = acc
value acc (c ∷ s) = value (acc * 10 + (c - b'0')) s

value-append :
    (acc : ℕ) (s : Text) (c : ℕ) → value acc (s ++ c ∷ []) ≡ value acc s * 10 + (c - b'0')
unfolding value
value-append acc [] c = refl
value-append acc (d ∷ s) c = value-append (acc * 10 + (d - b'0')) s c

value-digits : (f n : ℕ) → n ≤ f → value 0 (digits f n) ≡ n
unfolding digits value
value-digits zero n h = omega arith
value-digits (suc f) n h =
    ground (arith, value-append 0 (digits f (n / 10)) (b'0' + n % 10), value-digits f (n / 10))

value-show : (n : ℕ) → value 0 (show n) ≡ n
unfolding show
value-show n = elim (Bool-cases (n == 0)) [
  | inl z ↦ rw z (unfold value in ground arith)
  | inr p ↦ rw p (value-digits n n (omega arith))
]

-- Different numbers print differently.
pub show-injective : (m n : ℕ) → show m ≡ show n → m ≡ n
show-injective m n e = sym (value-show m) ∙ ap (value 0) e ∙ value-show n

-- No digit is a colon.
abbrev IsPlain : Text → Type 0
IsPlain s = All (λ c. c ≢ b':') s

-- What holds of every digit holds of what is printed.
module _ (P : ℕ → Type 0) (each : (d : ℕ) → d < 10 → P (b'0' + d)) where
  digits-All : (f n : ℕ) → All P (digits f n)
  unfolding digits
  digits-All zero n = tt
  digits-All (suc f) n = elim (Bool-cases (n == 0)) [
    | inl z ↦ rw z tt
    | inr p ↦ rw p (
        All-append P (digits f (n / 10)) _ (digits-All f (n / 10))
          (each (n % 10) (omega arith), tt))
  ]

  pub show-All : (n : ℕ) → All P (show n)
  unfolding show
  show-All n = elim (Bool-cases (n == 0)) [
    | inl z ↦ rw z (each 0 (omega arith), tt)
    | inr p ↦ rw p (digits-All n n)
  ]

show-IsPlain : (n : ℕ) → IsPlain (show n)
show-IsPlain n = show-All (λ c. c ≢ b':') (λ d h. omega arith) n

split-colon :
    (s u r v : Text) → IsPlain s → IsPlain u → s ++ b':' ∷ r ≡ u ++ b':' ∷ v → (s ≡ u) × (r ≡ v)
split-colon [] [] r v h k e = (refl, cc)
split-colon [] (d ∷ u) r v h k e = absurd (k.0 (cc))
split-colon (c ∷ s) [] r v h k e = absurd (h.0 (cc))
split-colon (c ∷ s) (d ∷ u) r v h k e =
    let (heads, tails) = split-colon s u r v h.1 k.1 (cc) in (cc, tails)

-- Numbers joined by a colon are told apart by what they print.
pub show-colon_injective :
    (m n : ℕ) (r v : Text) → show m ++ b':' ∷ r ≡ show n ++ b':' ∷ v → (m ≡ n) × (r ≡ v)
show-colon_injective m n r v e =
    let (heads, tails) = split-colon _ _ r v (show-IsPlain m) (show-IsPlain n) e in
    (show-injective m n heads, tails)

-- What `strconv.ParseInt(s, 10, 64)` makes of a text; `Atoi` is the same on a 64-bit machine.
pub data Parsed : Type 0 where
  not_a_number : Parsed
  negative : Parsed
  number : ℕ → Parsed

abbrev is_digit : ℕ → Bool
is_digit c = leb b'0' c && leb c b'9'

abbrev all_digits : Text → Bool
all_digits [] = true
all_digits (c ∷ s) = is_digit c && all_digits s

-- A number without a sign, up to `greatest`.
abbrev unsigned : ℕ → Text → Parsed
unsigned greatest s =
    if is_empty s || not (all_digits s) || ltb greatest (value 0 s)
    then not_a_number
    else number (value 0 s)

-- Behind a minus sign: -0 is 0.
abbrev negated : Parsed → Parsed
negated not_a_number = not_a_number
negated negative = negative
negated (number n) = if n == 0 then number 0 else negative

abbrev after_sign : ℕ → Text → Text → Parsed
after_sign c s whole =
    if c == b'-'
    then negated (unsigned 9_223_372_036_854_775_808 s)
    else unsigned 9_223_372_036_854_775_807 (if c == b'+' then s else whole)

unfoldable pub parse_int : Text → Parsed
unfolding value
parse_int [] = not_a_number
parse_int (c ∷ s) = after_sign c s (c ∷ s)

reads : (parse_int (b'-' ∷ b'4' ∷ b'2' ∷ []) ≡ negative) × (parse_int (b'+' ∷ b'7' ∷ []) ≡ number 7)
unfolding parse_int
reads = (refl, refl)
