-- ===== src/LoginLimiter.antt =====
-- The limiter of failed logins: backend/internal/httpapi/login_limiter.go. Instants and durations
-- are nanoseconds, and the zero time is 0; the map is a function of its keys. Where the code asks
-- whether `now.Sub(t) >= d`, the model asks whether `t + d <= now`.
pub mod Step
pub mod Refine
pub mod Lockout
pub mod Address
mod Tests
use hsgram_admin.Prelude.{
  ℕ, ◌+◌, ◌-◌, ◌/◌, Bool, true, false, not, ◌&&◌, ◌||◌, Option, none, some, List, [], ◌∷◌, ◌++◌,
  ltb, leb, ◌==◌, if◌then◌else◌,
}
use hsgram_admin.Prelude.Text.{Text, codes, is_empty, trim, text_eq}
use hsgram_admin.Prelude.Decimal.{show}

pub record Attempt : Type 0 where
  pub count : ℕ
  pub window_start : ℕ
  pub blocked_until : ℕ

pub record Limiter : Type 0 where
  pub attempts : Text → Option Attempt
  pub limit : ℕ
  pub window : ℕ
  pub block_for : ℕ
  pub last_sweep : ℕ

-- `newLoginLimiter`.
unfoldable pub new_limiter : ℕ → ℕ → ℕ → Limiter
new_limiter limit window block_for = record {
  attempts = λ key. none;
  limit = limit;
  window = window;
  block_for = block_for;
  last_sweep = 0;
}

-- `m[key] = v` and `delete(m, key)`.
abbrev pub put : (Text → Option Attempt) → Text → Option Attempt → Text → Option Attempt
put m key v k = if text_eq k key then v else m k

abbrev pub minute : ℕ
minute = 60_000_000_000

abbrev pub expires_at : ℕ → Attempt → ℕ
expires_at window e =
    let at = e.window_start + window in if ltb at e.blocked_until then e.blocked_until else at

-- What the sweep deletes.
abbrev pub is_expired : ℕ → ℕ → Attempt → Bool
is_expired window now e = not (expires_at window e == 0) && leb (expires_at window e) now

abbrev pub swept : ℕ → ℕ → Option Attempt → Option Attempt
swept window now none = none
swept window now (some e) = if is_expired window now e then none else some e

-- `sweepExpired`.
unfoldable pub sweep_expired : ℕ → Limiter → Limiter
sweep_expired now l =
    if not (l.last_sweep == 0) && ltb now (l.last_sweep + minute)
    then l
    else record l { attempts = λ k. swept l.window now (l.attempts k); last_sweep = now }

-- `Allow` for a key: whether the login may go on, and else how long to wait; `later` is the
-- second reading of the clock, by `time.Until`.
abbrev pub allow_entry : ℕ → ℕ → Text → Limiter → Option Attempt → Limiter × ℕ × Bool
allow_entry now later key l none = (l, 0, true)
allow_entry now later key l (some e) =
    if not (e.blocked_until == 0) && ltb now e.blocked_until
    then (l, e.blocked_until - later, false)
    else if leb (e.window_start + l.window) now
    then (record l { attempts = put l.attempts key none }, 0, true)
    else (l, 0, true)

unfoldable pub allow : ℕ → ℕ → Text → Limiter → Limiter × ℕ × Bool
allow now later key l =
    let l' = sweep_expired now l in allow_entry now later key l' (l'.attempts key)

-- A missing key reads as the zero value.
abbrev pub entry_or_zero : Option Attempt → Attempt
entry_or_zero none = record { count = 0; window_start = 0; blocked_until = 0 }
entry_or_zero (some e) = e

-- The entry behind one more failure.
unfoldable pub next_attempt : ℕ → ℕ → ℕ → ℕ → Attempt → Attempt
next_attempt limit window block_for now e =
    let counted =
      if e.window_start == 0 || leb (e.window_start + window) now
      then record { count = 1; window_start = now; blocked_until = 0 }
      else record e { count = e.count + 1 } in
    if leb limit counted.count then record counted { blocked_until = now + block_for } else counted

-- `RecordFailure` and `RecordSuccess` for a key.
unfoldable pub record_failure : ℕ → Text → Limiter → Limiter
record_failure now key l =
    let l' = sweep_expired now l in
    record l' {
      attempts = put l'.attempts key (
          some
            (next_attempt l'.limit l'.window l'.block_for now (entry_or_zero (l'.attempts key))));
    }

unfoldable pub record_success : ℕ → Text → Limiter → Limiter
record_success now key l =
    let l' = sweep_expired now l in record l' { attempts = put l'.attempts key none }

-- `loginAttemptKey`; `lower` is `strings.ToLower`.
unfoldable pub login_attempt_key : (Text → Text) → Text → Text → Text
login_attempt_key lower ip username = lower (trim username) ++ (codes "|" ++ trim ip)

-- `formatRetryAfter`, of a duration that is not negative.
unfoldable pub format_retry_after : ℕ → Text
format_retry_after d =
    if leb d 0
    then codes "60"
    else (let seconds = (d + 500_000_000) / 1_000_000_000 in
        show (if ltb seconds 1 then 1 else seconds))
