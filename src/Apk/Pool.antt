-- ===== src/Apk/Pool.antt =====
-- The string pool of backend/internal/httpapi/apk_manifest.go is read inside its bounds.
use hsgram_admin.Prelude.{
  ℕ, zero, suc, ◌+◌, ◌*◌, ◌/◌, ◌%◌, ◌≤◌, Bool, not, ◌||◌, ◌==◌, ltb, leb, arith,
}
use hsgram_admin.Prelude.Lists.{length}
use hsgram_admin.Apk.Bytes.{Bytes}
use hsgram_admin.Apk.Strings.{decode_string}
use hsgram_admin.Apk.Manifest.{read_entries, parse_pool}
use hsgram_admin.Apk.Safe.{
  Holds, Any, bind-Holds, if-Holds, u16_then-Holds, u32_then-Holds, slice_then-Holds,
}
use hsgram_admin.Apk.NoPanic.{decode_string-Holds}

read_entries-Holds :
    (chunk : Bytes) (header start : ℕ) (utf8 : Bool) (i n : ℕ)
    → header + (i + n) * 4 ≤ length chunk
    → Holds Any (read_entries chunk header start utf8 i n)
unfolding read_entries
read_entries-Holds chunk header start utf8 i zero h = tt
read_entries-Holds chunk header start utf8 i (suc n) h =
    u32_then-Holds Any (header + i * 4) chunk _ (omega arith) (λ offset.
      if-Holds Any (leb (length chunk) (start + offset)) _ _ (λ e. tt)
        (λ e.
          slice_then-Holds Any (start + offset) (length chunk) chunk _ (ground arith) (omega arith)
            (λ rest _.
              bind-Holds Any Any (decode_string utf8 rest) _ (decode_string-Holds utf8 rest)
                (λ value _.
                  bind-Holds Any Any (read_entries chunk header start utf8 (i + 1) n) _
                    (read_entries-Holds chunk header start utf8 (i + 1) n (omega arith))
                    (λ values _. tt)))))

pub parse_pool-Holds : (chunk : Bytes) → Holds Any (parse_pool chunk)
unfolding parse_pool
parse_pool-Holds chunk =
    if-Holds Any (ltb (length chunk) 28) _ _ (λ e. tt)
      (λ e. u32_then-Holds Any 8 chunk _ (ground arith) (λ count.
        u32_then-Holds Any 16 chunk _ (ground arith) (λ flags.
          u32_then-Holds Any 20 chunk _ (ground arith) (λ start.
            u16_then-Holds Any 2 chunk _ (ground arith) (λ header.
              if-Holds Any
                (ltb (length chunk) (header + count * 4)
                  || (leb start 0 || ltb (length chunk) start))
                _ _ (λ f. tt)
                (λ f.
                  read_entries-Holds chunk header start (not (flags / 256 % 2 == 0)) 0 count
                    (ground arith)))))))
