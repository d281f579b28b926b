-- ===== src/Apk/Attributes.antt =====
-- The attributes of the manifest element of backend/internal/httpapi/apk_manifest.go are read
-- inside their bounds.
use hsgram_admin.Prelude.{
  ℕ, zero, suc, ◌+◌, ◌*◌, ◌≤◌, not, ◌||◌, ◌==◌, List, ltb, if◌then◌else◌, arith,
}
use hsgram_admin.Prelude.Lists.{length}
use hsgram_admin.Prelude.Text.{Text, codes, text_eq}
use hsgram_admin.Prelude.Decimal.{Parsed, not_a_number, negative, number, parse_int}
use hsgram_admin.Apk.Bytes.{Bytes, byte_at}
use hsgram_admin.Apk.Manifest.{
  Metadata, no_metadata, no_entry, axml_string, code_of, attribute_int, set_attribute,
  read_attributes, parse_start,
}
use hsgram_admin.Apk.Safe.{
  Holds, Any, bind-Holds, if-Holds, u16_then-Holds, u32_then-Holds, slice_then-Holds, byte_at-Holds,
}

code_of-Holds : (p : Parsed) → Holds Any (code_of p)
code_of-Holds not_a_number = tt
code_of-Holds negative = tt
code_of-Holds (number n) = tt

attribute_int-Holds :
    (strings : List Text) (raw type value : ℕ) → Holds Any (attribute_int strings raw type value)
unfolding attribute_int
attribute_int-Holds strings raw type value =
    let index = if type == 0x03 then value else raw in
    if-Holds Any (type == 0x10 || type == 0x11) _ _ (λ e. tt)
      (λ e.
        if-Holds Any (index == no_entry) _ _ (λ f. tt)
          (λ f. code_of-Holds (parse_int (axml_string strings index))))

set_attribute-Holds :
    (strings : List Text) (name : Text) (raw type value : ℕ) (meta : Metadata)
    → Holds Any (set_attribute strings name raw type value meta)
unfolding set_attribute
set_attribute-Holds strings name raw type value meta =
    if-Holds Any (text_eq name (codes "package")) _ _ (λ e. tt)
      (λ e.
        if-Holds Any (text_eq name (codes "versionName")) _ _ (λ f. tt)
          (λ f.
            if-Holds Any (text_eq name (codes "versionCode")) _ _
              (λ g.
                bind-Holds Any Any (attribute_int strings raw type value) _
                  (attribute_int-Holds strings raw type value) (λ code _. tt))
              (λ g. tt)))

next_attribute :
    (base size i n l : ℕ)
    → base + i * size + suc n * size ≤ l
    → base + i * size + size ≤ l × base + (i + 1) * size + n * size ≤ l
next_attribute base size i n l h = (grind arith, grind arith)

read_attributes-Holds :
    (chunk : Bytes) (strings : List Text) (base size i n : ℕ) (meta : Metadata)
    → 20 ≤ size
    → base + i * size + n * size ≤ length chunk
    → Holds Any (read_attributes chunk strings base size i n meta)
unfolding read_attributes
read_attributes-Holds chunk strings base size i zero meta h k = tt
read_attributes-Holds chunk strings base size i (suc n) meta h k =
    let next = next_attribute base size i n (length chunk) k in
    slice_then-Holds Any (base + i * size) (base + i * size + size) chunk _ (omega arith) next.0
      (λ attr e. u32_then-Holds Any 4 attr _ (omega arith) (λ name.
        u32_then-Holds Any 8 attr _ (omega arith) (λ raw.
          bind-Holds Any Any (byte_at attr 15) _ (byte_at-Holds attr 15 (omega arith)) (λ type _.
            u32_then-Holds Any 16 attr _ (omega arith) (λ value.
              bind-Holds Any Any
                (set_attribute strings (axml_string strings name) raw type value meta) _
                (set_attribute-Holds strings (axml_string strings name) raw type value meta)
                (λ meta' _.
                  read_attributes-Holds chunk strings base size (i + 1) n meta' h next.1))))))

-- A missing manifest element, or some attributes.
pub parse_start-Holds :
    (chunk : Bytes) (strings : List Text) → Holds Any (parse_start chunk strings)
unfolding parse_start
parse_start-Holds chunk strings =
    if-Holds Any (ltb (length chunk) 36) _ _ (λ e. tt)
      (λ e. u16_then-Holds Any 2 chunk _ (ground arith) (λ header.
        if-Holds Any (ltb header 16 || ltb (length chunk) (header + 20)) _ _ (λ f. tt)
          (λ f. u32_then-Holds Any (header + 4) chunk _ (ground arith) (λ name.
            if-Holds Any (not (text_eq (axml_string strings name) (codes "manifest"))) _ _ (λ g. tt)
              (λ g. u16_then-Holds Any (header + 8) chunk _ (ground arith) (λ first.
                u16_then-Holds Any (header + 10) chunk _ (ground arith) (λ size.
                  u16_then-Holds Any (header + 12) chunk _ (ground arith) (λ count.
                    if-Holds Any (ltb size 20) _ _ (λ k. tt)
                      (λ k.
                        if-Holds Any (ltb (length chunk) (header + first + count * size)) _ _
                          (λ l. tt)
                          (λ l.
                            bind-Holds Any Any
                              (read_attributes chunk strings (header + first) size 0 count
                                no_metadata)
                              _
                              (read_attributes-Holds chunk strings (header + first) size 0 count
                                no_metadata (ground arith) (ground arith))
                              (λ meta _. tt)))))))))))
