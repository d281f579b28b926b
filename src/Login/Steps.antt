-- ===== src/Login/Steps.antt =====
-- handleLogin of backend/internal/httpapi/handler.go in its two steps: other requests can come between
-- asking the limiter and telling it of the outcome, each of which is under the lock.
use hsgram_admin.Prelude.{
  ℕ, ◌≡◌, refl, ap, Bool, true, not, some, inl, inr, Bool-cases, if◌then◌else◌,
}
use hsgram_admin.Prelude.Text.{Text, trim}
use hsgram_admin.Sql.{Result, ok, err, fault, World}
use hsgram_admin.LoginLimiter.{Limiter, allow, login_attempt_key}
use hsgram_admin.LoginLimiter.Step.{op_allow, op_failure, op_success, perform}
use hsgram_admin.Login.{
  AdminTables, AdminUser, LoginError, invalid_credentials, Outside, authenticate_admin,
  LoginRequest, LoginAnswer, bad_method, bad_body, wrong_credentials, failed, no_token, too_many,
  logged_in, Backend, after_authenticate, handle_login,
}

-- The key of a request.
abbrev pub key_of : Outside → LoginRequest → Text
key_of o r = login_attempt_key o.lower r.ip r.username

-- What the first step comes to: an answer, or the request goes on to the store.
pub data Entered : Type 0 where
  answered : LoginAnswer → Entered
  let_in : Entered

abbrev allowed : Limiter × ℕ × Bool → Entered × Limiter
allowed (l, wait, free) = (if free then let_in else answered (too_many wait), l)

-- Up to the answer of `Allow`.
unfoldable pub enter_login : Outside → ℕ → LoginRequest → Limiter → Entered × Limiter
enter_login o now r l =
    if not r.method_post
    then (answered bad_method, l)
    else if not r.decoded
    then (answered bad_body, l)
    else allowed (allow now now (key_of o r) l)

-- From the query of the store on.
unfoldable pub finish_login :
    Outside → ℕ → LoginRequest → Limiter → World AdminTables (Unit {0}) → LoginAnswer × Backend
finish_login o now r l w =
    after_authenticate o now (key_of o r) l (authenticate_admin o (trim r.username) r.password w)

-- A request that no other overlaps.
abbrev both_steps :
    Outside
    → ℕ
    → LoginRequest
    → Entered × Limiter
    → World AdminTables (Unit {0})
    → LoginAnswer × Backend
both_steps o now r (answered a, l) w = (a, (l, w))
both_steps o now r (let_in, l) w = finish_login o now r l w

pub handle_login-steps :
    (o : Outside) (now : ℕ) (r : LoginRequest) (l : Limiter) (w : World AdminTables (Unit {0}))
    → handle_login o now r l w ≡ both_steps o now r (enter_login o now r l) w
unfolding handle_login enter_login finish_login
handle_login-steps o now r l w = elim (Bool-cases r.method_post) [
  | inr n ↦ rw n refl
  | inl y ↦ elim (Bool-cases r.decoded) [
    | inr n ↦ rw (y, n) refl
    | inl d ↦ elim (Bool-cases (allow now now (key_of o r) l).2) [
      | inr n ↦ rw (y, d, n) refl
      | inl e ↦ rw (y, d, e) refl
    ]
  ]
]

-- What the first step does with the limiter.
abbrev pub Entering : ℕ → Text → Limiter → Entered × Limiter → Type 0
Entering now key l (let_in, l') =
    let p = perform op_allow now key l in (p.1 ≡ some true) × (l' ≡ p.0)
Entering now key l (answered (too_many wait), l') = l' ≡ (perform op_allow now key l).0
Entering now key l (answered bad_method, l') = l' ≡ l
Entering now key l (answered bad_body, l') = l' ≡ l
Entering now key l (answered wrong_credentials, l') = ⊥
Entering now key l (answered failed, l') = ⊥
Entering now key l (answered no_token, l') = ⊥
Entering now key l (answered (logged_in a), l') = ⊥

pub enter_login-Entering :
    (o : Outside) (now : ℕ) (r : LoginRequest) (l : Limiter)
    → Entering now (key_of o r) l (enter_login o now r l)
unfolding enter_login perform
enter_login-Entering o now r l = elim (Bool-cases r.method_post) [
  | inr n ↦ rw n refl
  | inl y ↦ elim (Bool-cases r.decoded) [
    | inr n ↦ rw (y, n) refl
    | inl d ↦ elim (Bool-cases (allow now now (key_of o r) l).2) [
      | inr n ↦ rw (y, d, n) refl
      | inl e ↦ rw (y, d, e) (ap some e, refl)
    ]
  ]
]

-- What the second step does with it.
abbrev pub Finishing : ℕ → Text → Limiter → LoginAnswer → Limiter → Type 0
Finishing now key l wrong_credentials l' = l' ≡ (perform op_failure now key l).0
Finishing now key l (logged_in a) l' = l' ≡ (perform op_success now key l).0
Finishing now key l no_token l' = l' ≡ (perform op_success now key l).0
Finishing now key l failed l' = l' ≡ l
Finishing now key l bad_method l' = ⊥
Finishing now key l bad_body l' = ⊥
Finishing now key l (too_many wait) l' = ⊥

after_authenticate-Finishing :
    (o : Outside) (now : ℕ) (key : Text) (l : Limiter)
    (x : Result LoginError AdminUser × World AdminTables (Unit {0}))
    → let y = after_authenticate o now key l x in Finishing now key l y.0 y.1.0
unfolding perform
after_authenticate-Finishing o now key l (ok a, w) = elim (Bool-cases (o.issue a)) [
  | inl y ↦ rw y refl
  | inr n ↦ rw n refl
]
after_authenticate-Finishing o now key l (err invalid_credentials, w) = refl
after_authenticate-Finishing o now key l (fault, w) = refl

pub finish_login-Finishing :
    (o : Outside) (now : ℕ) (r : LoginRequest) (l : Limiter) (w : World AdminTables (Unit {0}))
    → let y = finish_login o now r l w in Finishing now (key_of o r) l y.0 y.1.0
unfolding finish_login
finish_login-Finishing o now r l w = after_authenticate-Finishing o now (key_of o r) l _
