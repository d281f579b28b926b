-- ===== src/Apk/Units.antt =====
-- The strings of a pool in UTF-16 are read back: backend/internal/httpapi/apk_manifest.go against the
-- encoding, written here from the format.
use hsgram_admin.Prelude.{
  ℕ, ◌+◌, ◌-◌, ◌*◌, ◌/◌, ◌%◌, ◌≤◌, ◌<◌, ◌≡◌, ◌⊎◌, refl, sym, ap, ◌∙◌, Bool, true, false, ◌&&◌, ◌==◌,
  none, some, List, [], ◌∷◌, ◌++◌, Bool-cases, inl, inr, ltb, leb, if◌then◌else◌, arith,
}
use mathlib.Core.List.{append_assoc}
use hsgram_admin.Prelude.Lists.{All, length}
use hsgram_admin.Apk.Bytes.{Bytes, ok, byte_at, slice, u16, u16_at}
use hsgram_admin.Apk.Strings.{read_length16, read_units, runes_from, utf8_all, decode_utf16}
use hsgram_admin.Apk.RoundTrip.{length-append, slice-part}

abbrev pub word : ℕ → Bytes
word u = (u % 256) ∷ (u / 256) ∷ []

abbrev pub words : List ℕ → Bytes
words [] = []
words (u ∷ us) = word u ++ words us

-- A length below 2 ^ 31 as the format writes it: in two words from 2 ^ 15 on.
abbrev pub length16 : ℕ → Bytes
length16 n = if ltb n 32768 then word n else word (32768 + n / 65536) ++ word (n % 65536)

-- A code point is one unit, or a pair of halves.
abbrev pub utf16 : List ℕ → List ℕ
utf16 [] = []
utf16 (c ∷ cs) =
    let rest = utf16 cs in
    if ltb c 0x1_0000
    then c ∷ rest
    else (0xd800 + (c - 0x1_0000) / 1024) ∷ (0xdc00 + (c - 0x1_0000) % 1024) ∷ rest

-- What a code point may be: no half of a pair.
abbrev pub IsRune : ℕ → Type 0
IsRune c = (c < 0xd800) ⊎ (0xe000 ≤ c × c < 0x11_0000)

runes-unit :
    (c : ℕ) (us : List ℕ)
    → IsRune c
    → c < 0x1_0000
    → runes_from none (c ∷ us) ≡ c ∷ runes_from none us
unfolding runes_from
runes-unit c us h k = ground arith

case-true : (b : Bool) (x y : List ℕ) → b ≡ true → elim b [ true ↦ x | false ↦ y ] ≡ x
case-true true x y e = refl
case-true false x y e = cc

runes-halves :
    (u v : ℕ) (us : List ℕ)
    → 0xd800 ≤ u
    → u < 0xdc00
    → 0xdc00 ≤ v
    → v < 0xe000
    → runes_from none (u ∷ v ∷ us)
      ≡ ((u - 0xd800) * 1024 + (v - 0xdc00) + 0x1_0000) ∷ runes_from none us
unfolding runes_from
runes-halves u v us h₁ h₂ h₃ h₄ =
    case-true (leb 0xd800 u && ltb u 0xdc00) (runes_from (some u) (v ∷ us)) _ (ground arith)
    ∙ case-true (leb 0xdc00 v && ltb v 0xe000) _ _ (ground arith)

runes-pair :
    (d : ℕ) (us : List ℕ)
    → d < 0x10_0000
    → runes_from none ((0xd800 + d / 1024) ∷ (0xdc00 + d % 1024) ∷ us)
      ≡ (0x1_0000 + d) ∷ runes_from none us
unfolding runes_from
runes-pair d us h =
    let u = 0xd800 + d / 1024 in
    let v = 0xdc00 + d % 1024 in
    let k = runes-halves u v us (omega arith) (omega arith) (omega arith) (omega arith) in
    k ∙ ap (λ c. c ∷ runes_from none us) (omega arith)

rune-back :
    (c : ℕ) (cs rs : List ℕ) → 0x1_0000 ≤ c → rs ≡ cs → (0x1_0000 + (c - 0x1_0000)) ∷ rs ≡ c ∷ cs
rune-back c cs rs h e = let same : 0x1_0000 + (c - 0x1_0000) ≡ c = omega arith in rw (same, e)

runes-utf16 : (cs : List ℕ) → All IsRune cs → runes_from none (utf16 cs) ≡ cs
unfolding runes_from
runes-utf16 [] h = refl
runes-utf16 (c ∷ cs) (h, hs) = elim (Bool-cases (ltb c 0x1_0000)) [
  | inl e ↦ rw e (runes-unit c (utf16 cs) h (ground arith) ∙ ap (λ r. c ∷ r) (runes-utf16 cs hs))
  | inr e ↦ rw e (
      runes-pair (c - 0x1_0000) (utf16 cs) (ground arith)
      ∙ rune-back c cs _ (ground arith) (runes-utf16 cs hs))
]

u16_at-word :
    (pre : Bytes) (pos u : ℕ) (rest : Bytes)
    → pos ≡ length pre
    → u16_at pos (pre ++ (word u ++ rest)) ≡ ok u
unfolding u16_at u16 byte_at
u16_at-word pre pos u rest e =
    let k : slice pos (pos + 2) (pre ++ (word u ++ rest)) ≡ ok (word u) =
      slice-part pos (pos + 2) pre (word u) rest e (omega arith) in
    rw k (ap ok (omega arith))

read_units-words :
    (pre rest : Bytes) (pos : ℕ) (us : List ℕ)
    → pos ≡ length pre
    → read_units (pre ++ (words us ++ rest)) pos (length us) ≡ ok us
unfolding read_units
read_units-words pre rest pos [] e = refl
read_units-words pre rest pos (u ∷ us) e =
    let first : u16_at pos (pre ++ (words (u ∷ us) ++ rest)) ≡ ok u =
      u16_at-word pre pos u (words us ++ rest) e in
    let l = length-append pre (word u) in
    let joined : pre ++ (words (u ∷ us) ++ rest) ≡ (pre ++ word u) ++ (words us ++ rest) =
      sym (append_assoc pre (word u) (words us ++ rest)) in
    let others : read_units (pre ++ (words (u ∷ us) ++ rest)) (pos + 2) (length us) ≡ ok us =
      rw joined (read_units-words (pre ++ word u) rest (pos + 2) us (omega arith)) in
    rw (first, others) refl

read_length16-short :
    (n : ℕ) (rest : Bytes) → n < 32768 → read_length16 (word n ++ rest) ≡ ok (some (n, 2))
unfolding read_length16
read_length16-short n rest h =
    let first : u16_at 0 (word n ++ rest) ≡ ok n = u16_at-word [] 0 n rest refl in
    let l = length-append (word n) rest in
    let enough : ltb (length (word n ++ rest)) 2 ≡ false = ground arith in
    let top : (n / 32768 % 2 == 0) ≡ true = ground arith in rw (enough, first, top) refl

read_length16-long :
    (m n : ℕ) (rest : Bytes)
    → m < 32768
    → read_length16 (word (32768 + m) ++ (word n ++ rest)) ≡ ok (some (m * 65536 + n, 4))
unfolding read_length16
read_length16-long m n rest h =
    let s = word (32768 + m) ++ (word n ++ rest) in
    let first : u16_at 0 s ≡ ok (32768 + m) = u16_at-word [] 0 (32768 + m) (word n ++ rest) refl in
    let second : u16_at 2 s ≡ ok n = u16_at-word (word (32768 + m)) 2 n rest refl in
    let l = length-append (word (32768 + m)) (word n ++ rest) in
    let k = length-append (word n) rest in
    let enough : ltb (length s) 2 ≡ false = ground arith in
    let more : ltb (length s) 4 ≡ false = ground arith in
    let top : ((32768 + m) / 32768 % 2 == 0) ≡ false = ground arith in
    let low : (32768 + m) % 32768 ≡ m = omega arith in
    rw (enough, first, top, more, second, low) refl

read_length16-length16 :
    (n : ℕ) (rest : Bytes)
    → n < 2147483648
    → read_length16 (length16 n ++ rest) ≡ ok (some (n, length (length16 n)))
read_length16-length16 n rest h = elim (Bool-cases (ltb n 32768)) [
  | inl e ↦ rw e (read_length16-short n rest (ground arith))
  | inr e ↦ rw e (
      read_length16-long (n / 65536) (n % 65536) rest (omega arith)
      ∙ ap (λ k. ok (some (k, 4))) (omega arith))
]

length-words : (us : List ℕ) → length (words us) ≡ length us * 2
length-words [] = refl
length-words (u ∷ us) = let h = length-words us in omega arith

-- A string of code points, fewer than 2 ^ 31 units long and written in a pool as UTF-16, is read
-- back as its UTF-8, whatever stands behind it.
pub decode_utf16-written :
    (cs : List ℕ) (rest : Bytes)
    → All IsRune cs
    → length (utf16 cs) < 2147483648
    → decode_utf16 (length16 (length (utf16 cs)) ++ (words (utf16 cs) ++ rest)) ≡ ok (utf8_all cs)
unfolding decode_utf16
decode_utf16-written cs rest h k =
    let us = utf16 cs in
    let p = length16 (length us) in
    let all = p ++ (words us ++ rest) in
    let l = length-append p (words us ++ rest) in
    let m = length-append (words us) rest in
    let n = length-words us in
    let size : read_length16 all ≡ ok (some (length us, length p)) =
      read_length16-length16 (length us) (words us ++ rest) k in
    let fits : ltb (length all) (length p + length us * 2) ≡ false = ground arith in
    let units : read_units all (length p) (length us) ≡ ok us =
      read_units-words p rest (length p) us refl in
    rw (size, fits, units, runes-utf16 cs h) refl
