-- ===== src/Apk/RoundTrip.antt =====
-- What a manifest's pool holds is read back: backend/internal/httpapi/apk_manifest.go against the two
-- encodings of a string, written here from the format.
use hsgram_admin.Prelude.{
  ℕ, ◌+◌, ◌-◌, ◌*◌, ◌/◌, ◌%◌, ◌≤◌, ◌<◌, ◌≡◌, refl, sym, ap, ◌∙◌, false, some, [], ◌∷◌, ◌++◌,
  Bool-cases, inl, inr, ltb, if◌then◌else◌, arith,
}
use mathlib.Core.List.{append_assoc}
use hsgram_admin.Prelude.Lists.{length, take, drop}
use hsgram_admin.Apk.Bytes.{Bytes, ok, byte_at, slice}
use hsgram_admin.Apk.Strings.{read_length8, decode_utf8}

-- A length below 2 ^ 15 as the format writes it: in two bytes from 128 on.
abbrev pub length8 : ℕ → Bytes
length8 n = if ltb n 128 then n ∷ [] else (128 + n / 256) ∷ (n % 256) ∷ []

pub take-all : (s t : Bytes) → take (length s) (s ++ t) ≡ s
take-all [] t = refl
take-all (x ∷ s) t = ap (λ r. x ∷ r) (take-all s t)

take-length : (s : Bytes) → take (length s) s ≡ s
take-length [] = refl
take-length (x ∷ s) = ap (λ r. x ∷ r) (take-length s)

pub drop-all : (s t : Bytes) → drop (length s) (s ++ t) ≡ t
drop-all [] t = refl
drop-all (x ∷ s) t = drop-all s t

pub length-append : (s t : Bytes) → length (s ++ t) ≡ length s + length t
length-append [] t = omega arith
length-append (x ∷ s) t = let h = length-append s t in omega arith

read-short : (n : ℕ) (rest : Bytes) → n < 128 → read_length8 (n ∷ rest) ≡ ok (some (n, 1))
unfolding read_length8 byte_at
read-short n rest h = ground arith

read-long :
    (a b : ℕ) (rest : Bytes)
    → a < 128
    → read_length8 ((128 + a) ∷ b ∷ rest) ≡ ok (some (a * 256 + b, 2))
unfolding read_length8 byte_at
read-long a b rest h = ground arith

slice-then :
    (a b : ℕ) (s : Bytes) → a ≤ b → b ≤ length s → slice a b s ≡ ok (take (b - a) (drop a s))
unfolding slice
slice-then a b s h k = ground arith

pub slice-part :
    (a b : ℕ) (s t r : Bytes)
    → a ≡ length s
    → b ≡ length s + length t
    → slice a b (s ++ (t ++ r)) ≡ ok t
slice-part a b s t r e f =
    let l = length-append s (t ++ r) in
    let m = length-append t r in
    let same : b - a ≡ length t = omega arith in
    let k = slice-then a b (s ++ (t ++ r)) (omega arith) (omega arith) in
    let cut : drop a (s ++ (t ++ r)) ≡ t ++ r = rw e (drop-all s (t ++ r)) in
    let taken : take (b - a) (drop a (s ++ (t ++ r))) ≡ t = rw (same, cut) (take-all t r) in
    k ∙ ap ok taken

slice-rest :
    (a b : ℕ) (s t : Bytes) → a ≡ length s → b ≡ length (s ++ t) → slice a b (s ++ t) ≡ ok t
slice-rest a b s t e f =
    let l = length-append s t in
    let k = slice-then a b (s ++ t) (omega arith) (omega arith) in
    let same : b - a ≡ length t = omega arith in
    let cut : drop a (s ++ t) ≡ t = rw e (drop-all s t) in
    let taken : take (b - a) (drop a (s ++ t)) ≡ t = rw (same, cut) (take-length t) in
    k ∙ ap ok taken

read_length8-length8 :
    (n : ℕ) (rest : Bytes)
    → n < 32768
    → read_length8 (length8 n ++ rest) ≡ ok (some (n, length (length8 n)))
read_length8-length8 n rest h = elim (Bool-cases (ltb n 128)) [
  | inl e ↦ rw e (read-short n rest (ground arith))
  | inr e ↦
      rw e (
        read-long (n / 256) (n % 256) rest (omega arith) ∙ ap (λ k. ok (some (k, 2))) (omega arith))
]

-- A string of fewer than 2 ^ 15 bytes, written in a pool as UTF-8 with the number of its
-- characters, is read back, whatever stands behind it.
pub decode_utf8-written :
    (chars : ℕ) (s rest : Bytes)
    → chars < 32768
    → length s < 32768
    → decode_utf8 (length8 chars ++ (length8 (length s) ++ (s ++ rest))) ≡ ok s
unfolding decode_utf8
decode_utf8-written chars s rest h k =
    let p = length8 chars in
    let q = length8 (length s) in
    let all = p ++ (q ++ (s ++ rest)) in
    let l = length-append p (q ++ (s ++ rest)) in
    let m = length-append q (s ++ rest) in
    let n = length-append s rest in
    let e₁ : read_length8 all ≡ ok (some (chars, length p)) =
      read_length8-length8 chars (q ++ (s ++ rest)) h in
    let e₂ : slice (length p) (length all) all ≡ ok (q ++ (s ++ rest)) =
      slice-rest (length p) (length all) p (q ++ (s ++ rest)) refl refl in
    let e₃ : read_length8 (q ++ (s ++ rest)) ≡ ok (some (length s, length q)) =
      read_length8-length8 (length s) (s ++ rest) k in
    let o = length-append p q in
    let fits : ltb (length all) (length p + length q + length s) ≡ false = ground arith in
    let joined : all ≡ (p ++ q) ++ (s ++ rest) = sym (append_assoc p q (s ++ rest)) in
    let e₄ : slice (length p + length q) (length p + length q + length s) all ≡ ok s = rw joined (
      slice-part (length p + length q) (length p + length q + length s) (p ++ q) s rest (sym o)
        (omega arith)) in
    rw (e₁, e₂, e₃, fits) e₄
