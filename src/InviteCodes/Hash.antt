-- ===== src/InviteCodes/Hash.antt =====
-- The hash commands that backend/internal/invitecodes/service.go uses.
use hsgram_admin.Prelude.{◌≡◌, refl, true, false, some, List, [], ◌∷◌, inl, inr, Bool-cases}
use hsgram_admin.Prelude.Lists.{All, AllPairs, OptionOf}
use hsgram_admin.Prelude.Text.{Text, text_eq, text_eq_iff, text_eq_refl}
use hsgram_admin.InviteCodes.Types.{Field}
use hsgram_admin.InviteCodes.Service.{hget, hset}

pub text_apart : (s t : Text) → text_eq s t ≡ false → text_eq t s ≡ false
text_apart s t h = elim (Bool-cases (text_eq t s)) [
  | inl y ↦
      let same : text_eq s t ≡ true = let eq = (text_eq_iff t s).0 y in rw eq (text_eq_refl s) in cc
  | inr n ↦ n
]

pub hget-hset_same : (k v : Text) (fs : List Field) → hget k (hset k v fs) ≡ some v
unfolding hget hset
hget-hset_same k v [] = rw (text_eq_refl k) refl
hget-hset_same k v (f ∷ fs) = elim (Bool-cases (text_eq f.name k)) [
  | inl y ↦ rw (y, y) refl
  | inr n ↦ rw (n, n) (hget-hset_same k v fs)
]

pub hget-hset_other :
    (j k v : Text) (fs : List Field) → text_eq k j ≡ false → hget j (hset k v fs) ≡ hget j fs
unfolding hget hset
hget-hset_other j k v [] h = rw h refl
hget-hset_other j k v (f ∷ fs) h = elim (Bool-cases (text_eq f.name k)) [
  | inl y ↦
      let eq = (text_eq_iff f.name k).0 y in
      let other : text_eq f.name j ≡ false = rw eq h in rw (y, other) refl
  | inr n ↦ elim (Bool-cases (text_eq f.name j)) [
    | inl y ↦ rw (n, y) refl
    | inr m ↦ rw (n, m) (hget-hset_other j k v fs h)
  ]
]

module _ (P : Field → Type 0) where
  pub hset-All :
      (k v : Text) (fs : List Field)
      → ((f : Field) → f.name ≡ k → f.value ≡ v → P f)
      → All P fs
      → All P (hset k v fs)
  unfolding hset
  hset-All k v [] new h = (new _ refl refl, tt)
  hset-All k v (f ∷ fs) new h = elim (Bool-cases (text_eq f.name k)) [
    | inl y ↦ rw y (new _ ((text_eq_iff f.name k).0 y) refl, h.1)
    | inr n ↦ rw n (h.0, hset-All k v fs new h.1)
  ]

  -- The value of a field that is there.
  pub hget-All :
      (Q : Text → Type 0) (k : Text) (fs : List Field)
      → ((f : Field) → f.name ≡ k → P f → Q f.value)
      → All P fs
      → OptionOf Q (hget k fs)
  unfolding hget
  hget-All Q k [] each h = tt
  hget-All Q k (f ∷ fs) each h = elim (Bool-cases (text_eq f.name k)) [
    | inl y ↦ rw y (each f ((text_eq_iff f.name k).0 y) h.0)
    | inr n ↦ rw n (hget-All Q k fs each h.1)
  ]

abbrev pub Apart : List Field → Type 0
Apart fs = AllPairs (λ (f g : Field). text_eq f.name g.name ≡ false) fs

pub hset-Apart : (k v : Text) (fs : List Field) → Apart fs → Apart (hset k v fs)
unfolding hset
hset-Apart k v [] h = (tt, tt)
hset-Apart k v (f ∷ fs) h = elim (Bool-cases (text_eq f.name k)) [
  | inl y ↦ rw y h
  | inr n ↦ rw n (
    hset-All (λ (g : Field). text_eq f.name g.name ≡ false) k v fs (λ g e m. rw e n) h.0,
    hset-Apart k v fs h.1,
  )
]
