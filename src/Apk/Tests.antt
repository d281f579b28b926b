-- ===== src/Apk/Tests.antt =====
-- A manifest as a build tool writes it, and the theorems at concrete bytes.
use hsgram_admin.Prelude.{ℕ, ◌≡◌, refl, inl, inr, List, [], ◌∷◌, ◌++◌, arith}
use hsgram_admin.Prelude.Lists.{length}
use hsgram_admin.Prelude.Text.{codes, text_eq}
use hsgram_admin.Apk.Bytes.{Bytes, ok, byte_at, slice, u16, u32, u16_at, u32_at}
use hsgram_admin.Apk.Strings.{read_length8, utf8_all, decode_utf8, decode_utf16, decode_string}
use hsgram_admin.Apk.Manifest.{
  axml_string, attribute_string, attribute_int, read_entries, parse_pool, set_attribute,
  read_attributes, parse_start, on_chunk, parse_chunks, parse_manifest,
}
use hsgram_admin.Apk.Sample.{sample, sample_metadata}
use hsgram_admin.Apk.Safe.{Holds}
use hsgram_admin.Apk.Chunks.{Positive, parse_manifest_total}
use hsgram_admin.Apk.RoundTrip.{length8, decode_utf8-written}
use hsgram_admin.Apk.Units.{words, length16, utf16, decode_utf16-written}

pub parses : parse_manifest sample ≡ ok sample_metadata
unfolding parse_manifest parse_chunks on_chunk parse_pool parse_start read_entries read_attributes
    set_attribute attribute_int attribute_string axml_string decode_string decode_utf8 read_length8
    u16_at u32_at u16 u32 slice byte_at text_eq codes
parses = refl

parse_manifest_total_example : Holds Positive (parse_manifest sample)
parse_manifest_total_example = parse_manifest_total sample

abbrev short : Bytes
short = 65 ∷ 66 ∷ []

decode_utf8-written_example :
    decode_utf8 (length8 2 ++ (length8 (length short) ++ (short ++ (0 ∷ [])))) ≡ ok short
decode_utf8-written_example = decode_utf8-written 2 short (0 ∷ []) (omega arith) (omega arith)

abbrev smiley : List ℕ
smiley = 0x41 ∷ 0x1_f600 ∷ []

decode_utf16-written_example :
    decode_utf16 (length16 (length (utf16 smiley)) ++ (words (utf16 smiley) ++ (0 ∷ 0 ∷ [])))
    ≡ ok (utf8_all smiley)
decode_utf16-written_example =
    decode_utf16-written smiley (0 ∷ 0 ∷ [])
      (inl (omega arith), (inr (omega arith, omega arith), tt)) (omega arith)
