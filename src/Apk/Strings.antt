-- ===== src/Apk/Strings.antt =====
-- The strings of a pool: `decodeAXMLString` and the two forms of a length
-- (backend/internal/httpapi/apk_manifest.go), with Go's UTF-16 and UTF-8. A Go string is its bytes.
use hsgram_admin.Prelude.{
  ℕ, zero, suc, ◌+◌, ◌-◌, ◌*◌, ◌/◌, ◌%◌, Bool, true, false, ◌&&◌, Option, none, some, List, [], ◌∷◌,
  ◌++◌, leb, ltb, ◌==◌, if◌then◌else◌,
}
use hsgram_admin.Prelude.Lists.{length}
use hsgram_admin.Prelude.Text.{Text}
use hsgram_admin.Apk.Bytes.{
  Bytes, Parse, ok, bad, invalid_utf8_length, invalid_utf8_byte_length, invalid_utf8_data,
  invalid_utf16_length, invalid_utf16_data, or_bad, byte_at, slice, u16_at, ◌>>=◌,
}

-- The length with the bytes it takes; `none` is Go's `false`. The top bit says that a byte follows.
unfoldable pub read_length8 : Bytes → Parse (Option (ℕ × ℕ))
unfolding byte_at
read_length8 s = if ltb (length s) 1 then ok none else (do
  b₀ ← byte_at s 0
  if b₀ / 128 % 2 == 0
      then ok (some (b₀, 1))
      else if ltb (length s) 2
      then ok none
      else (do b₁ ← byte_at s 1; ok (some (b₀ % 128 * 256 + b₁, 2))))

unfoldable pub read_length16 : Bytes → Parse (Option (ℕ × ℕ))
read_length16 s = if ltb (length s) 2 then ok none else (do
  first ← u16_at 0 s
  if first / 32768 % 2 == 0
      then ok (some (first, 2))
      else if ltb (length s) 4
      then ok none
      else (do second ← u16_at 2 s; ok (some (first % 32768 * 65536 + second, 4))))

-- The loop over the 16-bit units, from `pos` on.
unfoldable pub read_units : Bytes → ℕ → ℕ → Parse (List ℕ)
read_units s pos zero = ok []
read_units s pos (suc n) = do u ← u16_at pos s; us ← read_units s (pos + 2) n; ok (u ∷ us)

abbrev is_high : ℕ → Bool
is_high u = leb 0xd800 u && ltb u 0xdc00

abbrev is_low : ℕ → Bool
is_low u = leb 0xdc00 u && ltb u 0xe000

-- `utf16.Decode`, by the unit before if that is the first half of a pair: a half without its other
-- is U+FFFD.
unfoldable pub runes_from : Option ℕ → List ℕ → List ℕ
runes_from none [] = []
runes_from (some h) [] = 0xfffd ∷ []
runes_from none (u ∷ us) = elim (is_high u) [
  | true ↦ runes_from (some u) us
  | false ↦ (if is_low u then 0xfffd else u) ∷ runes_from none us
]
runes_from (some h) (u ∷ us) = elim (is_low u) [
  | true ↦ ((h - 0xd800) * 1024 + (u - 0xdc00) + 0x1_0000) ∷ runes_from none us
  | false ↦
      0xfffd ∷ elim (is_high u) [ true ↦ runes_from (some u) us | false ↦ u ∷ runes_from none us ]
]

-- A code point in UTF-8.
abbrev pub utf8 : ℕ → Bytes
utf8 c =
    if ltb c 0x80
    then c ∷ []
    else if ltb c 0x800
    then (0xc0 + c / 64) ∷ (0x80 + c % 64) ∷ []
    else if ltb c 0x1_0000
    then (0xe0 + c / 4096) ∷ (0x80 + c / 64 % 64) ∷ (0x80 + c % 64) ∷ []
    else (0xf0 + c / 262144) ∷ (0x80 + c / 4096 % 64) ∷ (0x80 + c / 64 % 64) ∷ (0x80 + c % 64) ∷ []

-- `string(…)` of code points.
abbrev pub utf8_all : List ℕ → Bytes
utf8_all [] = []
utf8_all (c ∷ cs) = utf8 c ++ utf8_all cs

unfoldable pub decode_utf8 : Bytes → Parse Text
decode_utf8 s = do
  chars ← read_length8 s
  (_, skip) ← or_bad invalid_utf8_length chars
  rest ← slice skip (length s) s
  size ← read_length8 rest
  (count, n) ← or_bad invalid_utf8_byte_length size
  if ltb (length s) (skip + n + count)
      then bad invalid_utf8_data
      else slice (skip + n) (skip + n + count) s

unfoldable pub decode_utf16 : Bytes → Parse Text
decode_utf16 s = do
  size ← read_length16 s
  (count, skip) ← or_bad invalid_utf16_length size
  if ltb (length s) (skip + count * 2)
      then bad invalid_utf16_data
      else (do units ← read_units s skip count; ok (utf8_all (runes_from none units)))

unfoldable pub decode_string : Bool → Bytes → Parse Text
decode_string true s = decode_utf8 s
decode_string false s = decode_utf16 s
