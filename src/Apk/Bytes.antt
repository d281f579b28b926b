-- ===== src/Apk/Bytes.antt =====
-- Slices of bytes as Go has them, for backend/internal/httpapi/apk_manifest.go: an index out of
-- range is a panic. On a 64-bit machine no sum or product of the offsets leaves the range of int.
use hsgram_admin.Prelude.{ℕ, ◌+◌, ◌-◌, ◌*◌, Option, none, some, List, ◌&&◌, leb, if◌then◌else◌}
use hsgram_admin.Prelude.Lists.{length, get_elem?, take, drop}

abbrev pub Bytes : Type 0
Bytes = List ℕ

pub data ApkError : Type 0 where
  open_failed manifest_open_failed manifest_read_failed manifest_not_found : ApkError
  too_small invalid_chunk missing_version_code element_not_found : ApkError
  invalid_pool invalid_pool_offsets invalid_string_offset : ApkError
  invalid_utf8_length invalid_utf8_byte_length invalid_utf8_data : ApkError
  invalid_utf16_length invalid_utf16_data : ApkError
  invalid_start invalid_start_header invalid_attribute_size invalid_attributes : ApkError
  not_an_integer invalid_version_code : ApkError

-- `panic` is an index out of range, and `stuck` a loop that is out of fuel: neither is a Go value.
pub data Parse (A : Type 0) : Type 0 where
  ok : A → Parse A
  bad : ApkError → Parse A
  panic : Parse A
  stuck : Parse A

infixl 5 ◌>>=◌
abbrev pub ◌>>=◌ : {A B : Type 0} → Parse A → (A → Parse B) → Parse B
ok a >>= f = f a
bad e >>= f = bad e
panic >>= f = panic
stuck >>= f = stuck

abbrev pub or_bad : {A : Type 0} → ApkError → Option A → Parse A
or_bad e none = bad e
or_bad e (some a) = ok a

-- `data[i]`.
abbrev pub or_panic : {A : Type 0} → Option A → Parse A
or_panic none = panic
or_panic (some a) = ok a

unfoldable pub byte_at : Bytes → ℕ → Parse ℕ
byte_at s i = or_panic (get_elem? s i)

-- `data[a:b]`, for no more than the length of the slice.
unfoldable pub slice : ℕ → ℕ → Bytes → Parse Bytes
slice a b s = if leb a b && leb b (length s) then ok (take (b - a) (drop a s)) else panic

-- `binary.LittleEndian`.
unfoldable pub u16 : Bytes → Parse ℕ
unfolding byte_at
u16 s = do b₀ ← byte_at s 0; b₁ ← byte_at s 1; ok (b₀ + b₁ * 256)

unfoldable pub u32 : Bytes → Parse ℕ
unfolding byte_at
u32 s = do
  b₀ ← byte_at s 0
  b₁ ← byte_at s 1
  b₂ ← byte_at s 2
  b₃ ← byte_at s 3
  ok (b₀ + b₁ * 256 + b₂ * 65536 + b₃ * 16777216)

unfoldable pub u16_at : ℕ → Bytes → Parse ℕ
unfolding slice u16
u16_at a s = do part ← slice a (a + 2) s; u16 part

unfoldable pub u32_at : ℕ → Bytes → Parse ℕ
unfolding slice u32
u32_at a s = do part ← slice a (a + 4) s; u32 part
