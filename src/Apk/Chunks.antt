-- ===== src/Apk/Chunks.antt =====
-- The chunks of backend/internal/httpapi/apk_manifest.go are read inside their bounds, in as many
-- rounds as there are.
use hsgram_admin.Prelude.{
  ℕ, zero, suc, ◌+◌, ◌≤◌, ◌<◌, ◌≡◌, refl, Bool, true, false, ◌||◌, ◌==◌, Option, none, some, List,
  [], ltb, leb, if◌then◌else◌, arith,
}
use hsgram_admin.Prelude.Lists.{length}
use hsgram_admin.Prelude.Text.{Text}
use hsgram_admin.Apk.Bytes.{Bytes, Parse}
use hsgram_admin.Apk.Manifest.{
  Metadata, parse_pool, parse_start, on_element, on_chunk, parse_chunks, parse_manifest,
}
use hsgram_admin.Apk.Safe.{
  Holds, Any, bind-Holds, if-Holds, u16_then-Holds, u32_then-Holds, slice_then-Holds,
}
use hsgram_admin.Apk.Pool.{parse_pool-Holds}
use hsgram_admin.Apk.Attributes.{parse_start-Holds}

-- What is returned as metadata is a release that can be ordered.
abbrev pub Positive : Metadata → Type 0
Positive meta = 0 < meta.version_code

on_element-Holds :
    (go : List Text → Parse Metadata) (strings : List Text) (o : Option Metadata)
    → Holds Positive (go strings)
    → Holds Positive (on_element go strings o)
on_element-Holds go strings none h = h
on_element-Holds go strings (some meta) h =
    if-Holds Positive (meta.version_code == 0) _ _ (λ e. tt) (λ e. ground arith)

on_chunk-Holds :
    (go : List Text → Parse Metadata) (type : ℕ) (chunk : Bytes) (strings : List Text)
    → ((strings' : List Text) → Holds Positive (go strings'))
    → Holds Positive (on_chunk go type chunk strings)
unfolding on_chunk
on_chunk-Holds go type chunk strings h =
    if-Holds Positive (type == 0x0001) _ _
      (λ e.
        bind-Holds Any Positive (parse_pool chunk) go (parse_pool-Holds chunk)
          (λ strings' _. h strings'))
      (λ e.
        if-Holds Positive (type == 0x0102) _ _
          (λ f.
            bind-Holds Any Positive (parse_start chunk strings) (on_element go strings)
              (parse_start-Holds chunk strings) (λ o _. on_element-Holds go strings o (h strings)))
          (λ f. h strings))

parse_chunks-Holds :
    (fuel : ℕ) (s : Bytes) (offset : ℕ) (strings : List Text)
    → offset ≤ length s
    → length s < fuel + offset
    → Holds Positive (parse_chunks fuel s offset strings)
unfolding parse_chunks
parse_chunks-Holds zero s offset strings k h = absurd (omega arith)
parse_chunks-Holds (suc fuel) s offset strings k h =
    if-Holds Positive (ltb (length s) (offset + 8)) _ _ (λ e. tt)
      (λ e. u16_then-Holds Positive offset s _ (ground arith) (λ type.
        u16_then-Holds Positive (offset + 2) s _ (ground arith) (λ header.
          u32_then-Holds Positive (offset + 4) s _ (ground arith) (λ size.
            if-Holds Positive (ltb header 8 || (ltb size header || ltb (length s) (offset + size)))
              _ _ (λ f. tt)
              (λ f.
                slice_then-Holds Positive offset (offset + size) s _ (omega arith) (ground arith)
                  (λ chunk _.
                    on_chunk-Holds (parse_chunks fuel s (offset + size)) type chunk strings
                      (λ strings'.
                        parse_chunks-Holds fuel s (offset + size) strings' (ground arith)
                          (ground arith))))))))

start_within :
    (b : Bool) (first l : ℕ) → 8 ≤ l → (b ≡ false → first < l) → (if b then 8 else first) ≤ l
start_within true first l h k = h
start_within false first l h k = let lt = k refl in omega arith

-- On any bytes the reader of a binary manifest meets no index out of range and does not run out of
-- its fuel, and a version code that it returns is positive.
pub parse_manifest_total : (s : Bytes) → Holds Positive (parse_manifest s)
unfolding parse_manifest
parse_manifest_total s =
    if-Holds Positive (ltb (length s) 8) _ _ (λ e. tt)
      (λ e. u16_then-Holds Positive 2 s _ (ground arith) (λ first.
        let b = ltb first 8 || leb (length s) first in
        let h = start_within b first (length s) (ground arith) (λ f. ground arith) in
        parse_chunks-Holds (suc (length s)) s (if b then 8 else first) [] h (omega arith)))
