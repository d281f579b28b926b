-- ===== src/LoginLimiter/Lockout.antt =====
-- When a login is refused: by the count of the failures before it.
use hsgram_admin.Prelude.{
  ℕ, suc, ◌+◌, ◌<◌, ◌≡◌, ap, ◌∙◌, Bool, not, ◌&&◌, Option, none, some, List, [], ◌∷◌, arith, ltb,
  leb, if◌then◌else◌,
}
use hsgram_admin.Prelude.Lists.{length, All}
use hsgram_admin.Prelude.Text.{Text, text_eq_refl}
use hsgram_admin.LoginLimiter.{Attempt, entry_or_zero, next_attempt, new_limiter}
use hsgram_admin.LoginLimiter.Step.{op_allow, op_failure, Call}
use hsgram_admin.LoginLimiter.Refine.{answers, slot_answers, IsOrdered, new_limiter-answers}

-- The failed logins with the key at the instants of a list, and then a login.
abbrev pub failures_then : Text → List ℕ → ℕ → List Call
failures_then k [] now = record { now = now; op = op_allow; key = k } ∷ []
failures_then k (t ∷ ts) now = record { now = t; op = op_failure; key = k } ∷ failures_then k ts now

abbrev pub last_of : ℕ → List ℕ → ℕ
last_of t [] = t
last_of t (u ∷ us) = last_of u us

-- A failure answers nothing.
abbrev pub silent_then : List ℕ → Bool → List (Option Bool)
silent_then [] b = some b ∷ []
silent_then (t ∷ ts) b = none ∷ silent_then ts b

shift : (n m : ℕ) → n + suc m ≡ n + 1 + m
shift n m = omega arith

module _ (limit window block_for : ℕ) (k : Text) (first now : ℕ) (positive : 0 < first) where
  counted : ℕ → ℕ → Attempt
  counted n u = record {
    count = n;
    window_start = first;
    blocked_until = if leb limit n then u + block_for else 0;
  }

  counted-next :
      (n u t : ℕ)
      → t < first + window
      → next_attempt limit window block_for t (counted n u) ≡ counted (n + 1) t
  unfolding next_attempt counted
  counted-next n u t h = ground arith

  allowed :
      (n u : ℕ)
      → leb (counted n u).blocked_until now ≡ not (leb limit (n + 0) && ltb now (u + block_for))
  unfolding counted
  allowed n u = ground arith

  slot_answers-failures :
      (ts : List ℕ) (n u : ℕ)
      → All (λ t. t < first + window) ts
      → slot_answers limit window block_for k (failures_then k ts now) (some (counted n u))
        ≡ silent_then ts (not (leb limit (n + length ts) && ltb now (last_of u ts + block_for)))
  unfolding slot_answers
  slot_answers-failures [] n u h = rw (text_eq_refl k) (ap (λ b. some b ∷ []) (allowed n u))
  slot_answers-failures (t ∷ ts) n u h =
      rw (text_eq_refl k, counted-next n u t h.0, shift n (length ts))
        (ap (◌∷◌ none) (slot_answers-failures ts (n + 1) t h.1))

  first_failure : next_attempt limit window block_for first (entry_or_zero none) ≡ counted 1 first
  unfolding next_attempt counted
  first_failure = ground arith

-- From an empty limiter, failures that all fall into the window of the first one and a login
-- behind them, with a clock that does not run backwards and any calls with other keys left out:
-- the login is refused exactly if the failures are as many as the limit and the time of blocking,
-- counted from the last of them, is not over.
pub login-answers :
    (limit window block_for : ℕ) (k : Text) (first now : ℕ) (rest : List ℕ)
    → 0 < first
    → All (λ t. t < first + window) rest
    → IsOrdered 0 (failures_then k (first ∷ rest) now)
    → answers k (failures_then k (first ∷ rest) now) (new_limiter limit window block_for)
      ≡ silent_then
          (first ∷ rest)
          (not (leb limit (1 + length rest) && ltb now (last_of first rest + block_for)))
login-answers limit window block_for k first now rest positive inside ordered =
    new_limiter-answers limit window block_for k (failures_then k (first ∷ rest) now) ordered
    ∙ unfold slot_answers in
      (rw (text_eq_refl k, first_failure limit window block_for k first now positive)
        (ap (◌∷◌ none)
          (slot_answers-failures limit window block_for k first now positive rest 1 first inside)))
