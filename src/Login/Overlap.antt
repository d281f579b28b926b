-- ===== src/Login/Overlap.antt =====
-- Logins that overlap: the requests of backend/internal/httpapi/handler.go as the server takes them,
-- and which of them wait for their answer.
use hsgram_admin.Prelude.{
  ℕ, zero, suc, ◌≤◌, ◌≡◌, refl, true, false, Option, none, some, List, [], ◌∷◌, inl, inr, arith, ap,
  Bool, Option-cases, if◌then◌else◌,
}
use mathlib.Core.Path.{subst}
use mathlib.Core.Option.{some_inj}
use hsgram_admin.Prelude.Text.{Text, text_eq}
use hsgram_admin.Sql.{World}
use hsgram_admin.LoginLimiter.{Limiter}
use hsgram_admin.Login.{
  AdminTables, Outside, LoginRequest, LoginAnswer, bad_method, bad_body, wrong_credentials, failed,
  no_token, too_many, logged_in, Backend,
}
use hsgram_admin.Login.Steps.{key_of, Entered, answered, let_in, enter_login, finish_login}

-- A request arrives, or one of those that were let in gets its answer, by its place in the list.
pub data Turn : Type 0 where
  arrives : LoginRequest → Turn
  leaves : ℕ → Turn

pub record Event : Type 0 where
  pub now : ℕ
  pub turn : Turn

-- The requests that were let in and have no answer yet, the limiter and the store.
abbrev pub Server : Type 0
Server = List LoginRequest × Backend

abbrev pub Answers : Type 0
Answers = Option (LoginRequest × LoginAnswer)

abbrev pub pull : ℕ → List LoginRequest → Option (LoginRequest × List LoginRequest)
pull i [] = none
pull zero (r ∷ rs) = some (r, rs)
pull (suc i) (r ∷ rs) = elim (pull i rs) [ none ↦ none | some (x, xs) ↦ some (x, r ∷ xs) ]

abbrev pub arrived :
    LoginRequest
    → List LoginRequest
    → Entered × Limiter
    → World AdminTables (Unit {0})
    → Answers × Server
arrived r rs (answered a, l) w = (some (r, a), (rs, (l, w)))
arrived r rs (let_in, l) w = (none, (r ∷ rs, (l, w)))

abbrev pub left :
    Outside → ℕ → Option (LoginRequest × List LoginRequest) → Server → Answers × Server
left o now none s = (none, s)
left o now (some (r, rest)) (rs, (l, w)) =
    let (a, b) = finish_login o now r l w in (some (r, a), (rest, b))

unfoldable pub take_turn : Outside → ℕ → Turn → Server → Answers × Server
take_turn o now (arrives r) (rs, (l, w)) = arrived r rs (enter_login o now r l) w
take_turn o now (leaves i) (rs, (l, w)) = left o now (pull i rs) (rs, (l, w))

abbrev pub serve : Outside → Event → Server → Answers × Server
serve o e s = take_turn o e.now e.turn s

-- An answer among the wrong passwords before a right one.
abbrev pub counted : LoginAnswer → ℕ → ℕ
counted wrong_credentials n = suc n
counted (logged_in a) n = 0
counted no_token n = 0
counted bad_method n = n
counted bad_body n = n
counted failed n = n
counted (too_many wait) n = n

abbrev pub tally : Outside → Text → Answers → ℕ → ℕ
tally o k none n = n
tally o k (some (r, a)) n = if text_eq k (key_of o r) then counted a n else n

-- How often a wrong password is answered under the key, before a right one.
unfoldable pub guesses : Outside → Text → List Event → Server → ℕ
guesses o k [] s = 0
guesses o k (e ∷ es) s =
    let (a, s') = serve o e s in let rest = guesses o k es s' in tally o k a rest

pub swap_waiting :
    (a b : Bool) (n : ℕ)
    → (if a then suc (if b then suc n else n) else (if b then suc n else n))
      ≡ (if b then suc (if a then suc n else n) else (if a then suc n else n))
swap_waiting true true n = refl
swap_waiting true false n = refl
swap_waiting false true n = refl
swap_waiting false false n = refl

-- How many requests under the key wait for their answer.
abbrev pub waiting : Outside → Text → List LoginRequest → ℕ
waiting o k [] = 0
waiting o k (r ∷ rs) =
    let rest = waiting o k rs in if text_eq k (key_of o r) then suc rest else rest

-- Never more than so many overlap.
abbrev pub AtMost : Outside → Text → ℕ → List Event → Server → Type 0
AtMost o k m [] s = Unit
AtMost o k m (e ∷ es) s = (waiting o k (serve o e s).1.0 ≤ m) × AtMost o k m es (serve o e s).1

-- The clock does not run backwards.
abbrev pub IsOrdered : ℕ → List Event → Type 0
IsOrdered t [] = Unit
IsOrdered t (c ∷ cs) = (t ≤ c.now) × IsOrdered c.now cs

module _ (o : Outside) (k : Text) where
  -- One request less waits.
  abbrev pub before_leave : LoginRequest → List LoginRequest → ℕ
  before_leave r rest = if text_eq k (key_of o r) then suc (waiting o k rest) else waiting o k rest

  pub fewer : (r : LoginRequest) (rest : List LoginRequest) → waiting o k rest ≤ before_leave r rest
  fewer r rest = ground arith

  pub waiting-pull :
      (i : ℕ) (rs rest : List LoginRequest) (r : LoginRequest)
      → pull i rs ≡ some (r, rest)
      → waiting o k rs ≡ before_leave r rest
  waiting-pull i [] rest r e = cc
  waiting-pull zero (x ∷ rs) rest r e =
      let pair = some_inj.0 e in
      let here : x ≡ r = ap (λ y. y.0) pair in
      let others : rs ≡ rest = ap (λ y. y.1) pair in rw (here, others) refl
  waiting-pull (suc i) (x ∷ rs) rest r e = elim (Option-cases (pull i rs)) [
    | inl n ↦ absurd (let no_more = rw n at e in cc)
    | inr ((y, ys), found) ↦
        let pair = some_inj.0 (rw found at e) in
        let here : y ≡ r = ap (λ z. z.0) pair in
        let others : x ∷ ys ≡ rest = ap (λ z. z.1) pair in
        let ih = waiting-pull i rs ys y found in
        subst (λ z. waiting o k (x ∷ rs) ≡ before_leave r z) others
          (subst (λ z. waiting o k (x ∷ rs) ≡ before_leave z (x ∷ ys)) here
            (rw ih
              (swap_waiting (text_eq k (key_of o x)) (text_eq k (key_of o y)) (waiting o k ys))))
  ]
