-- ===== src/Apk/Manifest.antt =====
-- The chunks of a binary manifest: the string pool, the first element and its attributes
-- (backend/internal/httpapi/apk_manifest.go).
use hsgram_admin.Prelude.{
  ℕ, zero, suc, ◌+◌, ◌*◌, ◌/◌, ◌%◌, Bool, true, false, not, ◌||◌, Option, none, some, List, [], ◌∷◌,
  leb, ltb, ◌==◌, if◌then◌else◌,
}
use hsgram_admin.Prelude.Lists.{length, get_elem?}
use hsgram_admin.Prelude.Text.{Text, codes, text_eq}
use hsgram_admin.Prelude.Decimal.{Parsed, not_a_number, negative, number, parse_int}
use hsgram_admin.Apk.Bytes.{
  Bytes, Parse, ok, bad, stuck, open_failed, manifest_open_failed, manifest_read_failed,
  manifest_not_found, too_small, invalid_chunk, missing_version_code, element_not_found,
  invalid_pool, invalid_pool_offsets, invalid_string_offset, invalid_start, invalid_start_header,
  invalid_attribute_size, invalid_attributes, not_an_integer, invalid_version_code, byte_at, slice,
  u16_at, u32_at, ◌>>=◌,
}
use hsgram_admin.Apk.Strings.{decode_string}

-- A negative version code counts as 0: the code only tests whether it is positive.
pub record Metadata : Type 0 where
  pub package_name : Text
  pub version_name : Text
  pub version_code : ℕ

abbrev pub no_metadata : Metadata
no_metadata = record { package_name = []; version_name = []; version_code = 0 }

abbrev pub no_entry : ℕ
no_entry = 0xffff_ffff

abbrev pub or_empty : Option Text → Text
or_empty none = []
or_empty (some s) = s

unfoldable pub axml_string : List Text → ℕ → Text
axml_string strings i =
    if i == no_entry || leb (length strings) i then [] else or_empty (get_elem? strings i)

unfoldable pub attribute_string : List Text → ℕ → ℕ → ℕ → Text
attribute_string strings raw type value =
    if not (raw == no_entry)
    then axml_string strings raw
    else if type == 0x03
    then axml_string strings value
    else []

abbrev pub code_of : Parsed → Parse ℕ
code_of not_a_number = bad invalid_version_code
code_of negative = ok 0
code_of (number n) = ok n

unfoldable pub attribute_int : List Text → ℕ → ℕ → ℕ → Parse ℕ
unfolding axml_string
attribute_int strings raw type value =
    let index = if type == 0x03 then value else raw in
    if type == 0x10 || type == 0x11
    then ok value
    else if index == no_entry
    then bad not_an_integer
    else code_of (parse_int (axml_string strings index))

-- The loop over the offsets of the strings, from the `i`-th on.
unfoldable pub read_entries : Bytes → ℕ → ℕ → Bool → ℕ → ℕ → Parse (List Text)
read_entries chunk header start utf8 i zero = ok []
read_entries chunk header start utf8 i (suc n) = do
  offset ← u32_at (header + i * 4) chunk
  if leb (length chunk) (start + offset) then bad invalid_string_offset else (do
    rest ← slice (start + offset) (length chunk) chunk
    value ← decode_string utf8 rest
    values ← read_entries chunk header start utf8 (i + 1) n
    ok (value ∷ values))

unfoldable pub parse_pool : Bytes → Parse (List Text)
parse_pool chunk = if ltb (length chunk) 28 then bad invalid_pool else (do
  count ← u32_at 8 chunk
  flags ← u32_at 16 chunk
  start ← u32_at 20 chunk
  header ← u16_at 2 chunk
  if ltb (length chunk) (header + count * 4) || (leb start 0 || ltb (length chunk) start)
      then bad invalid_pool_offsets
      else read_entries chunk header start (not (flags / 256 % 2 == 0)) 0 count)

-- `switch name`.
unfoldable pub set_attribute : List Text → Text → ℕ → ℕ → ℕ → Metadata → Parse Metadata
set_attribute strings name raw type value meta =
    if text_eq name (codes "package")
    then ok (record meta { package_name = attribute_string strings raw type value })
    else if text_eq name (codes "versionName")
    then ok (record meta { version_name = attribute_string strings raw type value })
    else if text_eq name (codes "versionCode")
    then (do code ← attribute_int strings raw type value; ok (record meta { version_code = code }))
    else ok meta

-- The loop over the attributes, from the `i`-th on.
unfoldable pub read_attributes : Bytes → List Text → ℕ → ℕ → ℕ → ℕ → Metadata → Parse Metadata
read_attributes chunk strings base size i zero meta = ok meta
read_attributes chunk strings base size i (suc n) meta = do
  attr ← slice (base + i * size) (base + i * size + size) chunk
  name ← u32_at 4 attr
  raw ← u32_at 8 attr
  type ← byte_at attr 15
  value ← u32_at 16 attr
  meta' ← set_attribute strings (axml_string strings name) raw type value meta
  read_attributes chunk strings base size (i + 1) n meta'

-- `none` for an element that is not the manifest.
unfoldable pub parse_start : Bytes → List Text → Parse (Option Metadata)
parse_start chunk strings = if ltb (length chunk) 36 then bad invalid_start else (do
  header ← u16_at 2 chunk
  if ltb header 16 || ltb (length chunk) (header + 20) then bad invalid_start_header else (do
    name ← u32_at (header + 4) chunk
    if not (text_eq (axml_string strings name) (codes "manifest")) then ok none else (do
      first ← u16_at (header + 8) chunk
      size ← u16_at (header + 10) chunk
      count ← u16_at (header + 12) chunk
      if ltb size 20
          then bad invalid_attribute_size
          else if ltb (length chunk) (header + first + count * size)
          then bad invalid_attributes
          else (do
            meta ← read_attributes chunk strings (header + first) size 0 count no_metadata
            ok (some meta)))))

-- The manifest's element ends the loop; `go` is the loop behind the chunk.
abbrev pub on_element : (List Text → Parse Metadata) → List Text → Option Metadata → Parse Metadata
on_element go strings none = go strings
on_element go strings (some meta) =
    if meta.version_code == 0 then bad missing_version_code else ok meta

unfoldable pub on_chunk : (List Text → Parse Metadata) → ℕ → Bytes → List Text → Parse Metadata
on_chunk go type chunk strings =
    if type == 0x0001
    then parse_pool chunk >>= go
    else if type == 0x0102
    then parse_start chunk strings >>= on_element go strings
    else go strings

-- The loop over the chunks.
unfoldable pub parse_chunks : ℕ → Bytes → ℕ → List Text → Parse Metadata
parse_chunks zero s offset strings = stuck
parse_chunks (suc fuel) s offset strings =
    if ltb (length s) (offset + 8) then bad element_not_found else (do
      type ← u16_at offset s
      header ← u16_at (offset + 2) s
      size ← u32_at (offset + 4) s
      if ltb header 8 || (ltb size header || ltb (length s) (offset + size))
          then bad invalid_chunk
          else (do
            chunk ← slice offset (offset + size) s
            on_chunk (parse_chunks fuel s (offset + size)) type chunk strings))

-- A chunk takes eight bytes at least, so a round for each byte is enough.
unfoldable pub parse_manifest : Bytes → Parse Metadata
parse_manifest s = if ltb (length s) 8 then bad too_small else (do
  first ← u16_at 2 s
  parse_chunks (suc (length s)) s (if ltb first 8 || leb (length s) first then 8 else first) [])

-- What `archive/zip` gives for a file of the archive.
pub data Content : Type 0 where
  not_opened : Content
  not_read : Content
  content : Bytes → Content

pub record ZipFile : Type 0 where
  pub name : Text
  pub bytes : Content

abbrev pub parse_content : Content → Parse Metadata
parse_content not_opened = bad manifest_open_failed
parse_content not_read = bad manifest_read_failed
parse_content (content s) = parse_manifest s

abbrev pub find_manifest : List ZipFile → Parse Metadata
find_manifest [] = bad manifest_not_found
find_manifest (f ∷ fs) = elim (text_eq f.name (codes "AndroidManifest.xml")) [
  | true ↦ parse_content f.bytes
  | false ↦ find_manifest fs
]

-- `none` for an archive that cannot be opened.
unfoldable pub read_apk : Option (List ZipFile) → Parse Metadata
read_apk none = bad open_failed
read_apk (some fs) = find_manifest fs
