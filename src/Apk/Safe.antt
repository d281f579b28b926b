-- ===== src/Apk/Safe.antt =====
-- Which of Go's run-time errors the manifest reader can meet: the rules for a call that meets none.
use hsgram_admin.Prelude.{
  ℕ, zero, suc, ◌+◌, ◌-◌, ◌≤◌, ◌<◌, ◌≡◌, refl, Bool, true, false, ◌&&◌, Option, none, some, [], ◌∷◌,
  leb, if◌then◌else◌, arith,
}
use hsgram_admin.Prelude.Lists.{length, take, drop}
use hsgram_admin.Apk.Bytes.{
  Bytes, Parse, ApkError, ok, bad, panic, stuck, or_bad, byte_at, slice, u16, u32, u16_at, u32_at,
  ◌>>=◌,
}

-- Neither a panic nor out of fuel, and what is returned satisfies `P`.
abbrev pub Holds : {A : Type 0} → (A → Type 0) → Parse A → Type 0
Holds P (ok a) = P a
Holds P (bad e) = Unit
Holds P panic = ⊥
Holds P stuck = ⊥

abbrev pub Any : {A : Type 0} → A → Type 0
Any a = Unit

module _ {A B : Type 0} (P : A → Type 0) (Q : B → Type 0) where
  pub bind-Holds :
      (m : Parse A) (f : A → Parse B)
      → Holds P m
      → ((a : A) → P a → Holds Q (f a))
      → Holds Q (m >>= f)
  bind-Holds (ok a) f h k = k a h
  bind-Holds (bad e) f h k = tt
  bind-Holds panic f h k = h
  bind-Holds stuck f h k = h

module _ {A : Type 0} (P : A → Type 0) where
  pub if-Holds :
      (b : Bool) (m n : Parse A)
      → (b ≡ true → Holds P m)
      → (b ≡ false → Holds P n)
      → Holds P (if b then m else n)
  if-Holds true m n h k = h refl
  if-Holds false m n h k = k refl

  pub or_bad-Holds :
      (e : ApkError) (o : Option A) → ((a : A) → o ≡ some a → P a) → Holds P (or_bad e o)
  or_bad-Holds e none h = tt
  or_bad-Holds e (some a) h = h a refl

  pub Holds-weaken : (Q : A → Type 0) (m : Parse A) → ((a : A) → P a → Q a) → Holds P m → Holds Q m
  Holds-weaken Q (ok a) h k = h a k
  Holds-weaken Q (bad e) h k = k
  Holds-weaken Q panic h k = k
  Holds-weaken Q stuck h k = k

length-take : (n : ℕ) (s : Bytes) → n ≤ length s → length (take n s) ≡ n
length-take zero s h = refl
length-take (suc n) [] h = absurd (omega arith)
length-take (suc n) (x ∷ s) h = let k = length-take n s (omega arith) in omega arith

length-drop_exact : (n : ℕ) (s : Bytes) → length (drop n s) ≡ length s - n
length-drop_exact zero s = omega arith
length-drop_exact (suc n) [] = omega arith
length-drop_exact (suc n) (x ∷ s) = let k = length-drop_exact n s in omega arith

pub slice-Holds :
    (a b : ℕ) (s : Bytes)
    → a ≤ b
    → b ≤ length s
    → Holds (λ (t : Bytes). length t ≡ b - a) (slice a b s)
unfolding slice
slice-Holds a b s h k =
    if-Holds (λ (t : Bytes). length t ≡ b - a) (leb a b && leb b (length s)) _ _
      (λ e. length-take (b - a) (drop a s) (let d = length-drop_exact a s in omega arith))
      (λ e. absurd (ground arith))

pub byte_at-Holds : (s : Bytes) (i : ℕ) → i < length s → Holds Any (byte_at s i)
unfolding byte_at
byte_at-Holds [] i h = absurd (omega arith)
byte_at-Holds (x ∷ s) zero h = tt
byte_at-Holds (x ∷ s) (suc i) h = byte_at-Holds s i (omega arith)

pub u16-Holds : (s : Bytes) → 2 ≤ length s → Holds Any (u16 s)
unfolding u16
u16-Holds s h =
    bind-Holds Any Any (byte_at s 0) _ (byte_at-Holds s 0 (omega arith))
      (λ b₀ _. bind-Holds Any Any (byte_at s 1) _ (byte_at-Holds s 1 (omega arith)) (λ b₁ _. tt))

pub u32-Holds : (s : Bytes) → 4 ≤ length s → Holds Any (u32 s)
unfolding u32
u32-Holds s h = bind-Holds Any Any (byte_at s 0) _ (byte_at-Holds s 0 (omega arith)) (λ b₀ _.
    bind-Holds Any Any (byte_at s 1) _ (byte_at-Holds s 1 (omega arith)) (λ b₁ _.
      bind-Holds Any Any (byte_at s 2) _ (byte_at-Holds s 2 (omega arith)) (λ b₂ _.
        bind-Holds Any Any (byte_at s 3) _ (byte_at-Holds s 3 (omega arith)) (λ b₃ _. tt))))

pub u16_at-Holds : (a : ℕ) (s : Bytes) → a + 2 ≤ length s → Holds Any (u16_at a s)
unfolding u16_at
u16_at-Holds a s h =
    bind-Holds (λ (t : Bytes). length t ≡ a + 2 - a) Any (slice a (a + 2) s) _
      (slice-Holds a (a + 2) s (omega arith) h) (λ t e. u16-Holds t (omega arith))

pub u32_at-Holds : (a : ℕ) (s : Bytes) → a + 4 ≤ length s → Holds Any (u32_at a s)
unfolding u32_at
u32_at-Holds a s h =
    bind-Holds (λ (t : Bytes). length t ≡ a + 4 - a) Any (slice a (a + 4) s) _
      (slice-Holds a (a + 4) s (omega arith) h) (λ t e. u32-Holds t (omega arith))

pub slice-Any : (a b : ℕ) (s : Bytes) → a ≤ b → b ≤ length s → Holds Any (slice a b s)
slice-Any a b s h k =
    Holds-weaken (λ (t : Bytes). length t ≡ b - a) Any (slice a b s) (λ t e. tt)
      (slice-Holds a b s h k)

module _ {B : Type 0} (Q : B → Type 0) where
  -- A number that is read inside the bounds can be any.
  pub u16_then-Holds :
      (a : ℕ) (s : Bytes) (f : ℕ → Parse B)
      → a + 2 ≤ length s
      → ((n : ℕ) → Holds Q (f n))
      → Holds Q (u16_at a s >>= f)
  u16_then-Holds a s f h k = bind-Holds Any Q (u16_at a s) f (u16_at-Holds a s h) (λ n _. k n)

  pub u32_then-Holds :
      (a : ℕ) (s : Bytes) (f : ℕ → Parse B)
      → a + 4 ≤ length s
      → ((n : ℕ) → Holds Q (f n))
      → Holds Q (u32_at a s >>= f)
  u32_then-Holds a s f h k = bind-Holds Any Q (u32_at a s) f (u32_at-Holds a s h) (λ n _. k n)

  pub slice_then-Holds :
      (a b : ℕ) (s : Bytes) (f : Bytes → Parse B)
      → a ≤ b
      → b ≤ length s
      → ((t : Bytes) → length t ≡ b - a → Holds Q (f t))
      → Holds Q (slice a b s >>= f)
  slice_then-Holds a b s f h k g =
      bind-Holds (λ (t : Bytes). length t ≡ b - a) Q (slice a b s) f (slice-Holds a b s h k) g
