-- ===== src/Apk/Sample.antt =====
-- A manifest as a build tool writes it.
use hsgram_admin.Prelude.{[], ◌∷◌}
use hsgram_admin.Prelude.Text.{codes}
use hsgram_admin.Apk.Bytes.{Bytes}
use hsgram_admin.Apk.Manifest.{Metadata}

abbrev pub sample : Bytes
sample =
    3 ∷ 0 ∷ 8 ∷ 0 ∷ 220 ∷ 0 ∷ 0 ∷ 0 ∷ 1 ∷ 0 ∷ 28 ∷ 0 ∷ 116 ∷ 0 ∷ 0 ∷ 0 ∷ 6 ∷ 0 ∷ 0 ∷ 0 ∷ 0 ∷ 0 ∷ 0
    ∷ 0 ∷ 0 ∷ 1 ∷ 0 ∷ 0 ∷ 52 ∷ 0 ∷ 0 ∷ 0 ∷ 0 ∷ 0 ∷ 0 ∷ 0 ∷ 0 ∷ 0 ∷ 0 ∷ 0 ∷ 10 ∷ 0 ∷ 0 ∷ 0 ∷ 24 ∷ 0
    ∷ 0 ∷ 0 ∷ 38 ∷ 0 ∷ 0 ∷ 0 ∷ 49 ∷ 0 ∷ 0 ∷ 0 ∷ 55 ∷ 0 ∷ 0 ∷ 0 ∷ 7 ∷ 7 ∷ 112 ∷ 97 ∷ 99 ∷ 107 ∷ 97
    ∷ 103 ∷ 101 ∷ 0 ∷ 11 ∷ 11 ∷ 118 ∷ 101 ∷ 114 ∷ 115 ∷ 105 ∷ 111 ∷ 110 ∷ 78 ∷ 97 ∷ 109 ∷ 101 ∷ 0
    ∷ 11 ∷ 11 ∷ 118 ∷ 101 ∷ 114 ∷ 115 ∷ 105 ∷ 111 ∷ 110 ∷ 67 ∷ 111 ∷ 100 ∷ 101 ∷ 0 ∷ 8 ∷ 8 ∷ 109
    ∷ 97 ∷ 110 ∷ 105 ∷ 102 ∷ 101 ∷ 115 ∷ 116 ∷ 0 ∷ 3 ∷ 3 ∷ 97 ∷ 46 ∷ 98 ∷ 0 ∷ 3 ∷ 3 ∷ 49 ∷ 46 ∷ 50
    ∷ 0 ∷ 0 ∷ 0 ∷ 0 ∷ 2 ∷ 1 ∷ 16 ∷ 0 ∷ 96 ∷ 0 ∷ 0 ∷ 0 ∷ 1 ∷ 0 ∷ 0 ∷ 0 ∷ 255 ∷ 255 ∷ 255 ∷ 255 ∷ 255
    ∷ 255 ∷ 255 ∷ 255 ∷ 3 ∷ 0 ∷ 0 ∷ 0 ∷ 20 ∷ 0 ∷ 20 ∷ 0 ∷ 3 ∷ 0 ∷ 0 ∷ 0 ∷ 0 ∷ 0 ∷ 0 ∷ 0 ∷ 255 ∷ 255
    ∷ 255 ∷ 255 ∷ 0 ∷ 0 ∷ 0 ∷ 0 ∷ 4 ∷ 0 ∷ 0 ∷ 0 ∷ 8 ∷ 0 ∷ 0 ∷ 3 ∷ 4 ∷ 0 ∷ 0 ∷ 0 ∷ 255 ∷ 255 ∷ 255
    ∷ 255 ∷ 1 ∷ 0 ∷ 0 ∷ 0 ∷ 5 ∷ 0 ∷ 0 ∷ 0 ∷ 8 ∷ 0 ∷ 0 ∷ 3 ∷ 5 ∷ 0 ∷ 0 ∷ 0 ∷ 255 ∷ 255 ∷ 255 ∷ 255
    ∷ 2 ∷ 0 ∷ 0 ∷ 0 ∷ 255 ∷ 255 ∷ 255 ∷ 255 ∷ 8 ∷ 0 ∷ 0 ∷ 16 ∷ 7 ∷ 0 ∷ 0 ∷ 0 ∷ []

abbrev pub sample_metadata : Metadata
sample_metadata = record {
  package_name = codes "a.b";
  version_name = codes "1.2";
  version_code = 7;
}
