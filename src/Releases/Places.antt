-- ===== src/Releases/Places.antt =====
-- When two places of a release are the same.
use hsgram_admin.Prelude.{◌≡◌, refl, true, false, inl, inr, arith, Bool-cases}
use hsgram_admin.Prelude.Text.{text_eq_iff, text_eq_refl}
use hsgram_admin.Releases.Types.{Place, same_place}

pub same_place_refl : (k : Place) → same_place k k ≡ true
unfolding same_place
same_place_refl k = rw (text_eq_refl k.platform, text_eq_refl k.channel, text_eq_refl k.arch) refl

place_eta :
    (a b : Place) → a.platform ≡ b.platform → a.channel ≡ b.channel → a.arch ≡ b.arch → a ≡ b
place_eta a b e f g i = record { platform = e i; channel = f i; arch = g i }

pub same_place-eq : (a b : Place) → same_place a b ≡ true → a ≡ b
unfolding same_place
same_place-eq a b h =
    place_eta a b ((text_eq_iff a.platform b.platform).0 (ground arith))
      ((text_eq_iff a.channel b.channel).0 (ground arith))
      ((text_eq_iff a.arch b.arch).0 (ground arith))

pub same_place-apart : (a b : Place) → same_place a b ≡ false → same_place b a ≡ false
same_place-apart a b h = elim (Bool-cases (same_place b a)) [
  | inl y ↦ let same : same_place a b ≡ true = rw (same_place-eq b a y) (same_place_refl a) in cc
  | inr n ↦ n
]

pub same_place-flip : (a b : Place) → same_place a b ≡ true → same_place b a ≡ true
same_place-flip a b h = rw (same_place-eq a b h) (same_place_refl b)
