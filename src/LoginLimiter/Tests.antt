-- ===== src/LoginLimiter/Tests.antt =====
-- Logins of one user, and the theorems at them.
use hsgram_admin.Prelude.{
  ℕ, ◌+◌, ◌≡◌, refl, not, ◌&&◌, ltb, leb, true, false, none, some, List, [], ◌∷◌, arith,
}
use hsgram_admin.Prelude.Lists.{length}
use hsgram_admin.Prelude.Text.{Text, text_eq}
use hsgram_admin.LoginLimiter.{
  new_limiter, sweep_expired, allow, record_failure, record_success, next_attempt,
}
use hsgram_admin.LoginLimiter.Step.{op_allow, op_failure, Call, perform}
use hsgram_admin.LoginLimiter.Refine.{answers, slot_answers, new_limiter-answers}
use hsgram_admin.LoginLimiter.Lockout.{failures_then, last_of, silent_then, login-answers}

abbrev admin : Text
admin = b'a' ∷ []

abbrev guest : Text
guest = b'g' ∷ []

abbrev later : List ℕ
later = 12 ∷ []

abbrev calls : List Call
calls =
    record { now = 10; op = op_failure; key = admin }
    ∷ record { now = 11; op = op_failure; key = guest }
    ∷ record { now = 12; op = op_failure; key = admin }
    ∷ record { now = 13; op = op_allow; key = admin }
    ∷ record { now = 70_000_000_000; op = op_allow; key = guest }
    ∷ record { now = 70_000_000_000; op = op_allow; key = admin }
    ∷ []

answers_run :
    answers admin calls (new_limiter 2 100 100) ≡ none ∷ none ∷ some false ∷ some true ∷ []
unfolding answers perform allow sweep_expired record_failure record_success next_attempt new_limiter
    text_eq
answers_run = refl

new_limiter-answers_example :
    answers admin calls (new_limiter 2 100 100) ≡ slot_answers 2 100 100 admin calls none
new_limiter-answers_example = new_limiter-answers 2 100 100 admin calls (omega arith)

login-answers_example :
    answers admin (failures_then admin (10 ∷ later) 13) (new_limiter 2 100 100)
    ≡ silent_then (10 ∷ later) (not (leb 2 (1 + length later) && ltb 13 (last_of 10 later + 100)))
login-answers_example =
    login-answers 2 100 100 admin 10 13 later (omega arith) (omega arith) (omega arith)
