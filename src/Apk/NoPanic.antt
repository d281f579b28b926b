-- ===== src/Apk/NoPanic.antt =====
-- The strings and the chunks of backend/internal/httpapi/apk_manifest.go are read inside their bounds.
use hsgram_admin.Prelude.{
  ℕ, zero, suc, ◌+◌, ◌*◌, ◌/◌, ◌%◌, ◌≤◌, Bool, true, false, ◌==◌, Option, none, some, ltb, arith,
}
use hsgram_admin.Prelude.Lists.{length}
use hsgram_admin.Apk.Bytes.{
  Bytes, ApkError, invalid_utf8_length, invalid_utf8_byte_length, invalid_utf16_length, or_bad,
  byte_at, slice, u16_at,
}
use hsgram_admin.Apk.Strings.{
  read_length8, read_length16, read_units, decode_utf8, decode_utf16, decode_string,
}
use hsgram_admin.Apk.Safe.{
  Holds, Any, bind-Holds, if-Holds, or_bad-Holds, slice-Any, byte_at-Holds, u16_at-Holds,
}

-- A length takes no more bytes than there are.
abbrev Taken : Bytes → Option (ℕ × ℕ) → Type 0
Taken s none = Unit
Taken s (some (count, n)) = n ≤ length s

read_length8-Holds : (s : Bytes) → Holds (Taken s) (read_length8 s)
unfolding read_length8
read_length8-Holds s =
    if-Holds (Taken s) (ltb (length s) 1) _ _ (λ e. tt)
      (λ e. bind-Holds Any (Taken s) (byte_at s 0) _ (byte_at-Holds s 0 (ground arith)) (λ b₀ _.
        if-Holds (Taken s) (b₀ / 128 % 2 == 0) _ _ (λ f. ground arith)
          (λ f.
            if-Holds (Taken s) (ltb (length s) 2) _ _ (λ g. tt)
              (λ g.
                bind-Holds Any (Taken s) (byte_at s 1) _ (byte_at-Holds s 1 (ground arith))
                  (λ b₁ _. ground arith)))))

read_length16-Holds : (s : Bytes) → Holds (Taken s) (read_length16 s)
unfolding read_length16
read_length16-Holds s =
    if-Holds (Taken s) (ltb (length s) 2) _ _ (λ e. tt)
      (λ e. bind-Holds Any (Taken s) (u16_at 0 s) _ (u16_at-Holds 0 s (ground arith)) (λ u _.
        if-Holds (Taken s) (u / 32768 % 2 == 0) _ _ (λ f. ground arith)
          (λ f.
            if-Holds (Taken s) (ltb (length s) 4) _ _ (λ g. tt)
              (λ g.
                bind-Holds Any (Taken s) (u16_at 2 s) _ (u16_at-Holds 2 s (ground arith))
                  (λ v _. ground arith)))))

read_units-Holds : (s : Bytes) (pos n : ℕ) → pos + n * 2 ≤ length s → Holds Any (read_units s pos n)
unfolding read_units
read_units-Holds s pos zero h = tt
read_units-Holds s pos (suc n) h =
    bind-Holds Any Any (u16_at pos s) _ (u16_at-Holds pos s (omega arith)) (λ u _.
      bind-Holds Any Any (read_units s (pos + 2) n) _ (read_units-Holds s (pos + 2) n (omega arith))
        (λ us _. tt))

decode_utf16-Holds : (s : Bytes) → Holds Any (decode_utf16 s)
unfolding decode_utf16
decode_utf16-Holds s =
    bind-Holds (Taken s) Any (read_length16 s) _ (read_length16-Holds s) (λ size h.
      bind-Holds Any Any (or_bad invalid_utf16_length size) _
        (or_bad-Holds Any invalid_utf16_length size (λ _ _. tt))
        (λ (count, skip) _.
          if-Holds Any (ltb (length s) (skip + count * 2)) _ _ (λ e. tt)
            (λ e.
              bind-Holds Any Any (read_units s skip count) _
                (read_units-Holds s skip count (ground arith)) (λ us _. tt))))

or_bad-Taken :
    (s : Bytes) (e : ApkError) (o : Option (ℕ × ℕ))
    → Taken s o
    → Holds (λ (p : ℕ × ℕ). p.1 ≤ length s) (or_bad e o)
or_bad-Taken s e none h = tt
or_bad-Taken s e (some (count, n)) h = h

decode_utf8-Holds : (s : Bytes) → Holds Any (decode_utf8 s)
unfolding decode_utf8
decode_utf8-Holds s = bind-Holds (Taken s) Any (read_length8 s) _ (read_length8-Holds s) (λ chars h.
    bind-Holds (λ (p : ℕ × ℕ). p.1 ≤ length s) Any (or_bad invalid_utf8_length chars) _
      (or_bad-Taken s invalid_utf8_length chars h)
      (λ (c, skip) k.
        bind-Holds Any Any (slice skip (length s) s) _ (slice-Any skip (length s) s k (omega arith))
          (λ rest _.
            bind-Holds (Taken rest) Any (read_length8 rest) _ (read_length8-Holds rest) (λ size _.
              bind-Holds Any Any (or_bad invalid_utf8_byte_length size) _
                (or_bad-Holds Any invalid_utf8_byte_length size (λ _ _. tt))
                (λ (count, n) _.
                  if-Holds Any (ltb (length s) (skip + n + count)) _ _ (λ e. tt)
                    (λ e.
                      slice-Any (skip + n) (skip + n + count) s (omega arith) (ground arith)))))))

pub decode_string-Holds : (b : Bool) (s : Bytes) → Holds Any (decode_string b s)
unfolding decode_string
decode_string-Holds true s = decode_utf8-Holds s
decode_string-Holds false s = decode_utf16-Holds s
