-- ===== src/Releases/Elements.antt =====
-- Words that are one element of a path, and the paths that are joined from them.
use hsgram_admin.Prelude.{
  ℕ, ◌≡◌, refl, sym, ap, ◌∙◌, Bool, true, false, not, ◌&&◌, ◌||◌, List, [], ◌∷◌, ◌++◌, ◌==◌, arith,
}
use mathlib.Core.Path.{subst}
use mathlib.Core.List.{reverse, reverse-cons, reverse-reverse}
use hsgram_admin.Prelude.Lists.{All, All-append, rows_where}
use hsgram_admin.Prelude.Text.{Text, is_empty, is_space, text_eq, trim, trim_left}
use hsgram_admin.Releases.FilePath.{
  dot, dots, split_slash, join_slash, walk, clean, join_given, is_rooted, join, base,
  without_slashes,
}
use hsgram_admin.Releases.Paths.{is_safe}

abbrev pub IsSafe : Text → Type 0
IsSafe s = All (λ c. is_safe c ≡ true) s

-- Neither empty nor one of the two elements with a meaning of their own.
abbrev pub is_plain : Text → Bool
is_plain s = not (is_empty s || (text_eq s dot || text_eq s dots))

abbrev pub IsWord : Text → Type 0
IsWord s = IsSafe s × (is_plain s ≡ true)

abbrev pub all_safe : Text → Bool
all_safe [] = true
all_safe (c ∷ s) = is_safe c && all_safe s

pub all_safe-IsSafe : (s : Text) → all_safe s ≡ true → IsSafe s
all_safe-IsSafe [] h = tt
all_safe-IsSafe (c ∷ s) h = (ground arith, all_safe-IsSafe s (ground arith))

-- For literals.
pub test-IsWord : (s : Text) → all_safe s ≡ true → is_plain s ≡ true → IsWord s
test-IsWord s h k = (all_safe-IsSafe s h, k)

All-reverse : (P : ℕ → Type 0) (s : Text) → All P s → All P (reverse s)
All-reverse P [] h = tt
All-reverse P (c ∷ s) h =
    subst (All P) (sym (reverse-cons c s))
      (All-append P (reverse s) (c ∷ []) (All-reverse P s h.1) (h.0, tt))

-- What drops a head that is not safe keeps a safe text, from both sides.
both_sides :
    (f : Text → Text) (s : Text)
    → ((t : Text) → IsSafe t → f t ≡ t)
    → IsSafe s
    → reverse (f (reverse s)) ≡ s
both_sides f s same h =
    ap (λ (t : Text). reverse t) (same (reverse s) (All-reverse _ s h)) ∙ reverse-reverse s

trim_left-safe : (s : Text) → IsSafe s → trim_left s ≡ s
unfolding trim_left is_space
trim_left-safe [] h = refl
trim_left-safe (c ∷ s) h =
    let safe = h.0 in let no : is_space c ≡ false = ground arith in rw no refl

without_slashes-safe : (s : Text) → IsSafe s → without_slashes s ≡ s
without_slashes-safe [] h = refl
without_slashes-safe (c ∷ s) h =
    let safe = h.0 in let no : (c == b'/') ≡ false = ground arith in rw no refl

pub trim-safe : (s : Text) → IsSafe s → trim s ≡ s
unfolding trim
trim-safe s h =
    ap (λ (t : Text). reverse (trim_left (reverse t))) (trim_left-safe s h)
    ∙ both_sides trim_left s trim_left-safe h

pub rows_where-safe : (s : Text) → IsSafe s → rows_where is_safe s ≡ s
rows_where-safe [] h = refl
rows_where-safe (c ∷ s) h = rw (h.0) (ap (◌∷◌ c) (rows_where-safe s h.1))

split_slash-safe : (s : Text) → IsSafe s → split_slash s ≡ s ∷ []
unfolding split_slash
split_slash-safe [] h = refl
split_slash-safe (c ∷ s) h =
    let safe = h.0 in
    let no : (c == b'/') ≡ false = ground arith in rw (no, split_slash-safe s h.1) refl

split_slash-append : (s t : Text) → IsSafe s → split_slash (s ++ (b'/' ∷ t)) ≡ s ∷ split_slash t
unfolding split_slash
split_slash-append [] t h = refl
split_slash-append (c ∷ s) t h =
    let safe = h.0 in
    let no : (c == b'/') ≡ false = ground arith in rw (no, split_slash-append s t h.1) refl

pub base-safe : (c : ℕ) (s : Text) → IsSafe (c ∷ s) → base (c ∷ s) ≡ c ∷ s
unfolding base
base-safe c s h =
    rw (both_sides without_slashes (c ∷ s) without_slashes-safe h, split_slash-safe (c ∷ s) h) refl

is_empty-word : (s : Text) → IsWord s → is_empty s ≡ false
is_empty-word [] h = absurd (let no = h.1 in cc)
is_empty-word (c ∷ s) h = refl

is_empty-append : (s t : Text) → IsWord s → is_empty (s ++ t) ≡ false
is_empty-append [] t h = absurd (let no = h.1 in cc)
is_empty-append (c ∷ s) t h = refl

is_rooted-append : (s t : Text) → IsWord s → is_rooted (s ++ t) ≡ false
is_rooted-append [] t h = absurd (let no = h.1 in cc)
is_rooted-append (c ∷ s) t h = let safe = h.0.0 in ground arith

walk-word :
    (out : List Text) (s : Text) (ss : List Text)
    → IsWord s
    → walk false out (s ∷ ss) ≡ walk false (s ∷ out) ss
walk-word out s ss h =
    let plain = h.1 in
    let still : (is_empty s || text_eq s dot) ≡ false = ground arith in
    let down : text_eq s dots ≡ false = ground arith in rw (still, down) refl

module _ (a b c d : Text) (ha : IsWord a) (hb : IsWord b) (hc : IsWord c) (hd : IsWord d) where
  split_slash-words : split_slash (join_slash (a ∷ b ∷ c ∷ d ∷ [])) ≡ a ∷ b ∷ c ∷ d ∷ []
  split_slash-words =
      rw
        (
          split_slash-append a (join_slash (b ∷ c ∷ d ∷ [])) ha.0,
          split_slash-append b (join_slash (c ∷ d ∷ [])) hb.0,
          split_slash-append c d hc.0,
          split_slash-safe d hd.0,
        )
        refl

  walk-words : walk false [] (a ∷ b ∷ c ∷ d ∷ []) ≡ a ∷ b ∷ c ∷ d ∷ []
  walk-words =
      walk-word [] a (b ∷ c ∷ d ∷ []) ha
      ∙ walk-word (a ∷ []) b (c ∷ d ∷ []) hb
      ∙ walk-word (b ∷ a ∷ []) c (d ∷ []) hc
      ∙ walk-word (c ∷ b ∷ a ∷ []) d [] hd

  clean-words : clean (join_slash (a ∷ b ∷ c ∷ d ∷ [])) ≡ join_slash (a ∷ b ∷ c ∷ d ∷ [])
  clean-words =
      let low = is_rooted-append a (b'/' ∷ join_slash (b ∷ c ∷ d ∷ [])) ha in
      let some_body = is_empty-append a (b'/' ∷ join_slash (b ∷ c ∷ d ∷ [])) ha in
      rw (low, split_slash-words, walk-words, some_body) refl

  kept-words : rows_where (λ (s : Text). not (is_empty s)) (a ∷ b ∷ c ∷ d ∷ []) ≡ a ∷ b ∷ c ∷ d ∷ []
  kept-words =
      rw (is_empty-word a ha, is_empty-word b hb, is_empty-word c hc, is_empty-word d hd) refl

  -- Words are joined by slashes as they stand.
  pub join-words : join (a ∷ b ∷ c ∷ d ∷ []) ≡ join_slash (a ∷ b ∷ c ∷ d ∷ [])
  unfolding join
  join-words = ap join_given kept-words ∙ clean-words

-- A name with a dash is no element with a meaning of its own.
pub plain-dash : (s t : Text) → is_plain (s ++ (b'-' ∷ t)) ≡ true
unfolding text_eq
plain-dash [] t = refl
plain-dash (c ∷ []) t = ground arith
plain-dash (c ∷ d ∷ []) t = ground arith
plain-dash (c ∷ d ∷ e ∷ s) t = ground arith
