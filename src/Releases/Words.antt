-- ===== src/Releases/Words.antt =====
-- The words that the normalisation returns are normal.
use hsgram_admin.Prelude.{
  ◌≡◌, refl, Bool, true, ◌&&◌, ◌||◌, Option, none, some, List, [], ◌∷◌, inl, inr, ltb, Bool-cases,
}
use mathlib.Core.Path.{subst}
use mathlib.Core.Option.{some_inj}
use hsgram_admin.Prelude.Lists.{All}
use hsgram_admin.Prelude.Text.{Text, trim, text_eq}
use hsgram_admin.Releases.Names.{
  Case, android, windows, is_label, pick, platforms, channels, update_levels, any_arch,
  android_archs, windows_archs, archs_of, normalize_platform, normalize_channel,
  normalize_update_level, normalize_arch, arch_of_platform,
}

-- ASCII, and no capital letter.
abbrev pub all_lower : Text → Bool
all_lower [] = true
all_lower (c ∷ s) = (ltb c 65 || (ltb 90 c && ltb c 128)) && all_lower s

-- What holds of each word of a list holds of the one that is picked.
pub pick-All :
    (P : Text → Type 0) (s : Text) (cs : List Case) (q : Text)
    → All (λ (c : Case). P c.word) cs
    → pick s cs ≡ some q
    → P q
pick-All P s [] q h e = cc
pick-All P s (c ∷ cs) q h e = elim (Bool-cases (is_label s c.labels)) [
  | inl y ↦ let same : some c.word ≡ some q = rw y at e in subst P (some_inj.0 same) h.0
  | inr n ↦ pick-All P s cs q h.1 (rw n at e)
]

module _ (lower : Text → Text) (keeps : (s : Text) → all_lower s ≡ true → lower s ≡ s) where
  -- A word that is one of its own labels.
  word-kept :
      (cs : List Case) (w : Text)
      → trim w ≡ w
      → all_lower w ≡ true
      → pick w cs ≡ some w
      → pick (lower (trim w)) cs ≡ some w
  word-kept cs w e l p = rw (e, keeps w l) p

  abbrev Kept : List Case → Type 0
  Kept cs = All (λ (c : Case). pick (lower (trim c.word)) cs ≡ some c.word) cs

  platforms-Kept : Kept platforms
  unfolding platforms trim text_eq
  platforms-Kept =
      (word-kept platforms _ refl refl refl, (word-kept platforms _ refl refl refl, tt))

  channels-Kept : Kept channels
  unfolding channels trim text_eq
  channels-Kept = (
    word-kept channels _ refl refl refl,
    (word-kept channels _ refl refl refl, (word-kept channels _ refl refl refl, tt)),
  )

  update_levels-Kept : Kept update_levels
  unfolding update_levels trim text_eq
  update_levels-Kept = (
    word-kept update_levels _ refl refl refl,
    (word-kept update_levels _ refl refl refl, (word-kept update_levels _ refl refl refl, tt)),
  )

  android_archs-Kept : Kept android_archs
  unfolding android_archs trim text_eq
  android_archs-Kept = (
    word-kept android_archs _ refl refl refl,
    (
      word-kept android_archs _ refl refl refl,
      (word-kept android_archs _ refl refl refl, (word-kept android_archs _ refl refl refl, tt)),
    ),
  )

  windows_archs-Kept : Kept windows_archs
  unfolding windows_archs trim text_eq
  windows_archs-Kept = (
    word-kept windows_archs _ refl refl refl,
    (word-kept windows_archs _ refl refl refl, (word-kept windows_archs _ refl refl refl, tt)),
  )

  any_arch-Kept : Kept (any_arch ∷ [])
  unfolding any_arch trim text_eq
  any_arch-Kept = (word-kept (any_arch ∷ []) _ refl refl refl, tt)

  archs_of-Kept : (platform : Text) → Kept (archs_of platform)
  archs_of-Kept platform = elim (Bool-cases (text_eq platform android)) [
    | inl y ↦ rw y android_archs-Kept
    | inr n ↦ elim (Bool-cases (text_eq platform windows)) [
      | inl y ↦ rw (n, y) windows_archs-Kept
      | inr m ↦ rw (n, m) any_arch-Kept
    ]
  ]

  pick-Kept :
      (cs : List Case) (s q : Text)
      → Kept cs
      → pick s cs ≡ some q
      → pick (lower (trim q)) cs ≡ some q
  pick-Kept cs s q h e = pick-All (λ w. pick (lower (trim w)) cs ≡ some w) s cs q h e

  arch-kept :
      (p : Option Text) (arch q : Text)
      → arch_of_platform lower p arch ≡ some q
      → arch_of_platform lower p q ≡ some q
  arch-kept none arch q e = e
  arch-kept (some p) arch q e = pick-Kept (archs_of p) _ q (archs_of-Kept p) e

  -- Where lower case keeps texts of ASCII without capital letters, a word that one of the four
  -- normalisations returns is normalised to itself.
  pub normalize-normal :
      ((p q : Text) → normalize_platform lower p ≡ some q → normalize_platform lower q ≡ some q)
      × ((c q : Text) → normalize_channel lower c ≡ some q → normalize_channel lower q ≡ some q)
      × ((l q : Text)
          → normalize_update_level lower l ≡ some q
          → normalize_update_level lower q ≡ some q)
      × ((p a q : Text) → normalize_arch lower p a ≡ some q → normalize_arch lower p q ≡ some q)
  unfolding normalize_platform normalize_channel normalize_update_level normalize_arch
  normalize-normal = (
    λ p q. pick-Kept platforms _ q platforms-Kept,
    λ c q. pick-Kept channels _ q channels-Kept,
    λ l q. pick-Kept update_levels _ q update_levels-Kept,
    λ p a q. arch-kept (normalize_platform lower p) a q,
  )
