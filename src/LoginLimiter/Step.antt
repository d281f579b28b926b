-- ===== src/LoginLimiter/Step.antt =====
-- One operation of the limiter (backend/internal/httpapi/login_limiter.go) against one slot for a key.
use hsgram_admin.Prelude.{
  ℕ, ◌+◌, ◌≤◌, ◌≡◌, ◌⊎◌, refl, ap, Bool, true, false, not, ◌&&◌, Option, none, some, inl, inr,
  arith, Bool-cases, ltb, leb, ◌==◌,
}
use hsgram_admin.Prelude.Text.{Text, text_eq, text_eq_refl}
use hsgram_admin.LoginLimiter.{
  Attempt, Limiter, put, minute, is_expired, swept, sweep_expired, allow_entry, allow,
  entry_or_zero, next_attempt, record_failure, record_success,
}

pub data Op : Type 0 where
  op_allow op_failure op_success : Op

-- An operation on a key at an instant.
pub record Call : Type 0 where
  pub now : ℕ
  pub op : Op
  pub key : Text

-- The limiter behind an operation, and what `Allow` answers.
unfoldable pub perform : Op → ℕ → Text → Limiter → Limiter × Option Bool
perform op_allow now key l = let (l', wait, ok) = allow now now key l in (l', some ok)
perform op_failure now key l = (record_failure now key l, none)
perform op_success now key l = (record_success now key l, none)

-- The description: one slot for the key, which only calls with the key change.
unfoldable pub slot_allow : ℕ → Option Attempt → Bool
slot_allow now none = true
slot_allow now (some e) = leb e.blocked_until now

unfoldable pub slot_step : ℕ → ℕ → ℕ → Op → ℕ → Option Attempt → Option Attempt
slot_step limit window block_for op_allow now s = s
slot_step limit window block_for op_failure now s =
    some (next_attempt limit window block_for now (entry_or_zero s))
slot_step limit window block_for op_success now s = none

unfoldable pub slot_answer : Op → ℕ → Option Attempt → Option Bool
slot_answer op_allow now s = some (slot_allow now s)
slot_answer op_failure now s = none
slot_answer op_success now s = none

-- The entry of the key is the slot, or is gone where the slot has run out.
abbrev pub IsPast : ℕ → ℕ → Option Attempt → Type 0
IsPast window now none = Unit
IsPast window now (some e) = (e.window_start + window ≤ now) × (e.blocked_until ≤ now)

abbrev pub Sim : ℕ → ℕ → Option Attempt → Option Attempt → Type 0
Sim window now i s = (i ≡ s) ⊎ ((i ≡ none) × IsPast window now s)

IsPast-later :
    (window now now' : ℕ) (s : Option Attempt)
    → now ≤ now'
    → IsPast window now s
    → IsPast window now' s
IsPast-later window now now' none h p = tt
IsPast-later window now now' (some e) h p = omega arith

pub Sim-later :
    (window now now' : ℕ) (i s : Option Attempt)
    → now ≤ now'
    → Sim window now i s
    → Sim window now' i s
Sim-later window now now' i s h (inl e) = inl e
Sim-later window now now' i s h (inr p) = inr (p.0, IsPast-later window now now' s h p.1)

swept-Sim : (window now : ℕ) (s : Option Attempt) → Sim window now (swept window now s) s
swept-Sim window now none = inl refl
swept-Sim window now (some e) = elim (Bool-cases (is_expired window now e)) [
  | inl x ↦ rw x (inr (refl, ground arith))
  | inr x ↦ rw x (inl refl)
]

swept_again :
    (window now : ℕ) (i s : Option Attempt)
    → Sim window now i s
    → Sim window now (swept window now i) s
swept_again window now i s (inl e) = rw e (swept-Sim window now s)
swept_again window now i s (inr p) = rw (p.0) (inr (refl, p.1))

-- The settings stay as they are.
abbrev pub SameSettings : Limiter → Limiter → Type 0
SameSettings l l' = (l'.limit ≡ l.limit) × (l'.window ≡ l.window) × (l'.block_for ≡ l.block_for)

module _ (k : Text) (s : Option Attempt) (l : Limiter) (now : ℕ) where
  pub sweep-Sim :
      Sim l.window now (l.attempts k) s
      → Sim l.window now ((sweep_expired now l).attempts k) s × SameSettings l (sweep_expired now l)
  unfolding sweep_expired
  sweep-Sim h = elim (Bool-cases (not (l.last_sweep == 0) && ltb now (l.last_sweep + minute))) [
    | inl e ↦ rw e (h, (refl, refl, refl))
    | inr e ↦ rw e (swept_again l.window now (l.attempts k) s h, (refl, refl, refl))
  ]

-- A slot that has run out counts from one again, as an entry that is gone does.
past_reset :
    (limit window block_for now : ℕ) (s : Option Attempt)
    → IsPast window now s
    → next_attempt limit window block_for now (entry_or_zero none)
      ≡ next_attempt limit window block_for now (entry_or_zero s)
unfolding next_attempt
past_reset limit window block_for now none p = refl
past_reset limit window block_for now (some e) p = ground arith

module _ (l : Limiter) (now : ℕ) (key : Text) where
  allow_entry-own :
      (i s : Option Attempt)
      → l.attempts key ≡ i
      → Sim l.window now i s
      → ((allow_entry now now key l i).2 ≡ slot_allow now s)
        × Sim l.window now ((allow_entry now now key l i).0.attempts key) s
  unfolding slot_allow
  allow_entry-own none none e h = (refl, rw e (inl refl))
  allow_entry-own none (some x) e h = (ground arith, rw e h)
  allow_entry-own (some y) none e h = ground arith
  allow_entry-own (some y) (some x) e h =
      elim (Bool-cases (not (y.blocked_until == 0) && ltb now y.blocked_until)) [
        | inl b ↦ rw b (ground arith, rw e h)
        | inr b ↦ rw b (elim (Bool-cases (leb (y.window_start + l.window) now)) [
          | inl d ↦ rw (d, text_eq_refl key) (ground arith, inr (refl, ground arith))
          | inr d ↦ rw d (ground arith, rw e h)
        ])
      ]

  allow_entry-other :
      (k : Text) (i : Option Attempt)
      → text_eq k key ≡ false
      → (allow_entry now now key l i).0.attempts k ≡ l.attempts k
  allow_entry-other k none e = refl
  allow_entry-other k (some y) e =
      elim (Bool-cases (not (y.blocked_until == 0) && ltb now y.blocked_until)) [
        | inl b ↦ rw b refl
        | inr b ↦ rw b (elim (Bool-cases (leb (y.window_start + l.window) now)) [
          | inl d ↦ rw (d, e) refl
          | inr d ↦ rw d refl
        ])
      ]

  allow_entry-settings : (i : Option Attempt) → SameSettings l (allow_entry now now key l i).0
  allow_entry-settings none = (refl, refl, refl)
  allow_entry-settings (some y) = ground arith

  failure-own :
      (s : Option Attempt)
      → Sim l.window now (l.attempts key) s
      → next_attempt l.limit l.window l.block_for now (entry_or_zero (l.attempts key))
        ≡ next_attempt l.limit l.window l.block_for now (entry_or_zero s)
  failure-own s (inl e) = rw e
  failure-own s (inr p) = rw (p.0) (past_reset l.limit l.window l.block_for now s p.1)

-- The operations behind their sweep.
unfoldable pub perform_swept : Op → ℕ → Text → Limiter → Limiter × Option Bool
perform_swept op_allow now key l =
    let (l', wait, ok) = allow_entry now now key l (l.attempts key) in (l', some ok)
perform_swept op_failure now key l = (
  record l {
    attempts =
        put l.attempts key
          (some (next_attempt l.limit l.window l.block_for now (entry_or_zero (l.attempts key))));
  },
  none,
)
perform_swept op_success now key l = (record l { attempts = put l.attempts key none }, none)

pub perform-swept :
    (o : Op) (now : ℕ) (key : Text) (l : Limiter)
    → perform o now key l ≡ perform_swept o now key (sweep_expired now l)
unfolding perform perform_swept allow record_failure record_success
perform-swept op_allow now key l = refl
perform-swept op_failure now key l = refl
perform-swept op_success now key l = refl

module _ (l : Limiter) (now : ℕ) (key : Text) where
  pub own-swept :
      (o : Op) (s : Option Attempt)
      → Sim l.window now (l.attempts key) s
      → ((perform_swept o now key l).1 ≡ slot_answer o now s)
        × Sim l.window now
            ((perform_swept o now key l).0.attempts key)
            (slot_step l.limit l.window l.block_for o now s)
        × SameSettings l (perform_swept o now key l).0
  unfolding perform_swept slot_answer slot_step
  own-swept op_allow s h =
      let (same, sim) = allow_entry-own l now key (l.attempts key) s refl h in
      (ap some same, sim, allow_entry-settings l now key (l.attempts key))
  own-swept op_failure s h =
      (refl, inl (rw (text_eq_refl key) (ap some (failure-own l now key s h))), (refl, refl, refl))
  own-swept op_success s h = (refl, inl (rw (text_eq_refl key) refl), (refl, refl, refl))

  pub other-swept :
      (o : Op) (k : Text)
      → text_eq k key ≡ false
      → ((perform_swept o now key l).0.attempts k ≡ l.attempts k)
        × SameSettings l (perform_swept o now key l).0
  unfolding perform_swept
  other-swept op_allow k e = (
    allow_entry-other l now key k (l.attempts key) e,
    allow_entry-settings l now key (l.attempts key),
  )
  other-swept op_failure k e = (rw e refl, (refl, refl, refl))
  other-swept op_success k e = (rw e refl, (refl, refl, refl))
