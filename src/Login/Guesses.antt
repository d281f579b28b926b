-- ===== src/Login/Guesses.antt =====
-- How many passwords can be tried: the requests of backend/internal/httpapi/handler.go, which may
-- overlap.
use hsgram_admin.Prelude.{
  ℕ, suc, ◌+◌, ◌<◌, ◌≤◌, ◌≡◌, ◌⊎◌, refl, sym, ◌∙◌, true, Option, none, some, List, [], ◌∷◌, inl,
  inr, arith, Bool-cases, Option-cases, if◌then◌else◌,
}
use hsgram_admin.Prelude.Lists.{All}
use hsgram_admin.Prelude.Text.{Text, text_eq, text_eq_iff}
use hsgram_admin.Sql.{World}
use hsgram_admin.LoginLimiter.{Attempt, Limiter, new_limiter, entry_or_zero, next_attempt}
use hsgram_admin.LoginLimiter.Step.{
  op_allow, op_failure, op_success, perform, slot_allow, slot_step, slot_answer,
}
use hsgram_admin.LoginLimiter.Refine.{
  Related, Related-later, perform-own, perform-other, new_limiter-Related,
}
use hsgram_admin.Login.{
  AdminTables, Outside, LoginRequest, LoginAnswer, bad_method, bad_body, wrong_credentials, failed,
  no_token, too_many, logged_in,
}
use hsgram_admin.Login.Steps.{
  key_of, Entered, answered, let_in, enter_login, finish_login, Entering, Finishing,
  enter_login-Entering, finish_login-Finishing,
}
use hsgram_admin.Login.Overlap.{
  Turn, arrives, leaves, Event, Server, pull, arrived, left, take_turn, serve, counted, tally,
  guesses, waiting, AtMost, IsOrdered, before_leave, fewer, waiting-pull,
}

module _ (limit window block_for first : ℕ) where
  -- An instant before the window that begins at `first` and a block from then on are over.
  abbrev pub Early : Event → Type 0
  Early c = (first ≤ c.now) × (c.now < first + window) × (c.now < first + block_for)

  -- The slot behind a number of failures.
  abbrev Failures : ℕ → Option Attempt → Type 0
  Failures n none = n ≡ 0
  Failures n (some e) =
      (e.count ≡ n)
      × (first ≤ e.window_start)
      × ((n < limit) ⊎ (first + block_for ≤ e.blocked_until))

  Failures-allowed :
      (n : ℕ) (c : Event) (s : Option Attempt)
      → 0 < limit
      → Early c
      → Failures n s
      → some (slot_allow c.now s) ≡ some true
      → n < limit
  unfolding slot_allow
  Failures-allowed n c none p e f h = omega arith
  Failures-allowed n c (some x) p e f h = ground arith

  Failures-next :
      (n : ℕ) (c : Event) (s : Option Attempt)
      → 0 < first
      → Early c
      → Failures n s
      → Failures (suc n) (some (next_attempt limit window block_for c.now (entry_or_zero s)))
  unfolding next_attempt
  Failures-next n c none p e f = ground arith
  Failures-next n c (some x) p e f = ground arith

  module _ (o : Outside) (k : Text) (m : ℕ) where
    abbrev R : ℕ → Limiter → Option Attempt → Type 0
    R = Related limit window block_for k

    -- What is left of the answers keeps to the limit, those that wait counted in.
    abbrev Bounded : List Event → ℕ → Server → Type 0
    Bounded es now s =
        (n : ℕ) (slot : Option Attempt)
        → n + waiting o k s.0 < limit + m
        → Failures n slot
        → R now s.1.0 slot
        → n + guesses o k es s < limit + m

    quiet_tally :
        (r : LoginRequest) (a : LoginAnswer) (x : ℕ)
        → counted a x ≡ x
        → tally o k (some (r, a)) x ≡ x
    quiet_tally r a x h = elim (Bool-cases (text_eq k (key_of o r))) [
      | inl y ↦ rw y h
      | inr n ↦ rw n refl
    ]

    allow-R :
        (c : Event) (r : LoginRequest) (l : Limiter) (slot : Option Attempt)
        → R c.now l slot
        → R c.now (perform op_allow c.now (key_of o r) l).0 slot
    unfolding slot_step
    allow-R c r l slot g = elim (Bool-cases (text_eq k (key_of o r))) [
      | inr d ↦ perform-other limit window block_for k op_allow c.now (key_of o r) l slot d g
      | inl y ↦
          let same : k ≡ key_of o r = (text_eq_iff k _).0 y in
          rw (← same) (perform-own limit window block_for k op_allow c.now l slot g).1
    ]

    arrived-Bounded :
        (c : Event) (es : List Event) (r : LoginRequest) (rs : List LoginRequest) (l : Limiter)
        (w : World AdminTables (Unit {0})) (x : Entered × Limiter) (n : ℕ) (slot : Option Attempt)
        → 0 < limit
        → Early c
        → Entering c.now (key_of o r) l x
        → (let y = arrived r rs x w in waiting o k y.1.0 ≤ m)
        → Bounded es c.now (arrived r rs x w).1
        → n + waiting o k rs < limit + m
        → Failures n slot
        → R c.now l slot
        → n + tally o k (arrived r rs x w).0 (guesses o k es (arrived r rs x w).1) < limit + m
    unfolding slot_answer slot_step
    arrived-Bounded c es r rs l w (let_in, l') n slot p q e most go b f g =
        elim (Bool-cases (text_eq k (key_of o r))) [
          | inr d ↦
              let h =
                perform-other limit window block_for k op_allow c.now (key_of o r) l slot d g in
              go n slot (rw d b) f (rw (e.1) h)
          | inl y ↦
              let same : k ≡ key_of o r = (text_eq_iff k _).0 y in
              let (said, h) = perform-own limit window block_for k op_allow c.now l slot g in
              let admitted = rw (← same) at e.0 in
              let under : n < limit = Failures-allowed n c slot p q f (sym said ∙ admitted) in
              let l_same = rw (← same) at e.1 in
              let few = rw y at most in go n slot (rw y (omega arith)) f (rw l_same h)
        ]
    arrived-Bounded c es r rs l w (answered bad_method, l') n slot p q e most go b f g =
        rw (quiet_tally r bad_method _ refl) (go n slot b f (rw e g))
    arrived-Bounded c es r rs l w (answered bad_body, l') n slot p q e most go b f g =
        rw (quiet_tally r bad_body _ refl) (go n slot b f (rw e g))
    arrived-Bounded c es r rs l w (answered (too_many wait), l') n slot p q e most go b f g =
        rw (quiet_tally r (too_many wait) _ refl) (go n slot b f (rw e (allow-R c r l slot g)))
    arrived-Bounded c es r rs l w (answered wrong_credentials, l') n slot p q e most go b f g =
        absurd e
    arrived-Bounded c es r rs l w (answered failed, l') n slot p q e most go b f g = absurd e
    arrived-Bounded c es r rs l w (answered no_token, l') n slot p q e most go b f g = absurd e
    arrived-Bounded c es r rs l w (answered (logged_in a), l') n slot p q e most go b f g = absurd e

    right_password :
        (c : Event) (es : List Event) (r : LoginRequest) (rest : List LoginRequest) (l l' : Limiter)
        (w : World AdminTables (Unit {0})) (n : ℕ) (slot : Option Attempt)
        → l' ≡ (perform op_success c.now (key_of o r) l).0
        → Bounded es c.now (rest, (l', w))
        → n + before_leave o k r rest < limit + m
        → Failures n slot
        → R c.now l slot
        → n + (if text_eq k (key_of o r) then 0 else guesses o k es (rest, (l', w))) < limit + m
    right_password c es r rest l l' w n slot e go b f g =
        elim (Bool-cases (text_eq k (key_of o r))) [
          | inl y ↦ rw y (let less = rw y at b in omega arith)
          | inr d ↦
              let h =
                perform-other limit window block_for k op_success c.now (key_of o r) l slot d g in
              rw d (go n slot (rw d at b) f (rw e h))
        ]

    answer-Bounded :
        (c : Event) (es : List Event) (r : LoginRequest) (rest : List LoginRequest) (l l' : Limiter)
        (w : World AdminTables (Unit {0})) (a : LoginAnswer) (n : ℕ) (slot : Option Attempt)
        → 0 < first
        → Early c
        → Finishing c.now (key_of o r) l a l'
        → Bounded es c.now (rest, (l', w))
        → n + before_leave o k r rest < limit + m
        → Failures n slot
        → R c.now l slot
        → n + tally o k (some (r, a)) (guesses o k es (rest, (l', w))) < limit + m
    unfolding slot_step
    answer-Bounded c es r rest l l' w wrong_credentials n slot p q e go b f g =
        elim (Bool-cases (text_eq k (key_of o r))) [
          | inr d ↦
              let h =
                perform-other limit window block_for k op_failure c.now (key_of o r) l slot d g in
              rw d (go n slot (rw d at b) f (rw e h))
          | inl y ↦
              let same : k ≡ key_of o r = (text_eq_iff k _).0 y in
              let h = (perform-own limit window block_for k op_failure c.now l slot g).1 in
              let less = rw y at b in
              let l_same = rw (← same) at e in
              let later =
                go (suc n) (some (next_attempt limit window block_for c.now (entry_or_zero slot)))
                  (omega arith) (Failures-next n c slot p q f) (rw l_same h) in
              rw y (omega arith)
        ]
    answer-Bounded c es r rest l l' w (logged_in a) n slot p q e go b f g =
        right_password c es r rest l l' w n slot e go b f g
    answer-Bounded c es r rest l l' w no_token n slot p q e go b f g =
        right_password c es r rest l l' w n slot e go b f g
    answer-Bounded c es r rest l l' w failed n slot p q e go b f g =
        rw (quiet_tally r failed _ refl)
          (go n slot (let less = fewer o k r rest in omega arith) f (rw e g))
    answer-Bounded c es r rest l l' w bad_method n slot p q e go b f g = absurd e
    answer-Bounded c es r rest l l' w bad_body n slot p q e go b f g = absurd e
    answer-Bounded c es r rest l l' w (too_many wait) n slot p q e go b f g = absurd e

    left-Bounded :
        (c : Event) (es : List Event) (i : ℕ) (rs : List LoginRequest) (l : Limiter)
        (w : World AdminTables (Unit {0})) (n : ℕ) (slot : Option Attempt)
        → 0 < first
        → Early c
        → (let y = left o c.now (pull i rs) (rs, (l, w)) in Bounded es c.now y.1)
        → n + waiting o k rs < limit + m
        → Failures n slot
        → R c.now l slot
        → let y = left o c.now (pull i rs) (rs, (l, w)) in
          n + tally o k y.0 (guesses o k es y.1) < limit + m
    left-Bounded c es i rs l w n slot p q go b f g = elim (Option-cases (pull i rs)) [
      | inl none_there ↦ rw none_there (let go' = rw none_there at go in go' n slot b f g)
      | inr ((r, rest), found) ↦
          let y = finish_login o c.now r l w in
          let go' = rw found at go in
          let count = waiting-pull o k i rs rest r found in
          rw found (
            answer-Bounded c es r rest l y.1.0 y.1.1 y.0 n slot p q
              (finish_login-Finishing o c.now r l w) go' (rw count at b) f g)
    ]

    take_turn-Bounded :
        (c : Event) (x : Turn) (es : List Event) (rs : List LoginRequest) (l : Limiter)
        (w : World AdminTables (Unit {0})) (n : ℕ) (slot : Option Attempt)
        → 0 < limit
        → 0 < first
        → Early c
        → waiting o k (take_turn o c.now x (rs, (l, w))).1.0 ≤ m
        → Bounded es c.now (take_turn o c.now x (rs, (l, w))).1
        → n + waiting o k rs < limit + m
        → Failures n slot
        → R c.now l slot
        → let y = take_turn o c.now x (rs, (l, w)) in
          n + tally o k y.0 (guesses o k es y.1) < limit + m
    unfolding take_turn
    take_turn-Bounded c (arrives r) es rs l w n slot p q early most go b f g =
        arrived-Bounded c es r rs l w (enter_login o c.now r l) n slot p early
          (enter_login-Entering o c.now r l) most go b f g
    take_turn-Bounded c (leaves i) es rs l w n slot p q early most go b f g =
        left-Bounded c es i rs l w n slot q early go b f g

    guesses-Bounded :
        (es : List Event) (now : ℕ) (s : Server)
        → 0 < limit
        → 0 < first
        → IsOrdered now es
        → All Early es
        → AtMost o k m es s
        → Bounded es now s
    unfolding guesses
    guesses-Bounded [] now s p q ordered early most n slot b f g = omega arith
    guesses-Bounded (c ∷ es) now (rs, (l, w)) p q ordered early most n slot b f g =
        let later = Related-later limit window block_for k now c.now l slot ordered.0 g in
        let go = guesses-Bounded es c.now (serve o c (rs, (l, w))).1 p q ordered.1 early.1 most.1 in
        take_turn-Bounded c c.turn es rs l w n slot p q early.0 most.0 go b f later

-- From an empty limiter with a limit of one failure at least, with a clock that does not run
-- backwards, and whichever statements fail and whatever logins there are under other keys: among
-- logins that arrive and are answered in any order, all earlier than a window and earlier than a block
-- behind the first instant, and of which never more than so many under the key are between `Allow` and
-- their answer, a wrong password is answered under the key, before a right one is, fewer times than
-- the limit and this number together.
pub guesses-new_limiter :
    (o : Outside) (limit window block_for first : ℕ) (k : Text) (m : ℕ) (es : List Event)
    (w : World AdminTables (Unit {0}))
    → 0 < limit
    → 0 < first
    → IsOrdered first es
    → All (Early limit window block_for first) es
    → AtMost o k m es ([], (new_limiter limit window block_for, w))
    → guesses o k es ([], (new_limiter limit window block_for, w)) < limit + m
guesses-new_limiter o limit window block_for first k m es w p q ordered early most =
    let bound =
      guesses-Bounded limit window block_for first o k m es first
        ([], (new_limiter limit window block_for, w)) p q ordered early most 0 none (omega arith)
        refl (new_limiter-Related limit window block_for k first) in
    omega arith
