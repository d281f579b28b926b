-- ===== src/Users/Banned.antt =====
-- What a ban that is answered with success has achieved (handleBan of handler.go).
use mathlib.Core.Path.{subst}
use hsgram_admin.Prelude.{
  ℕ, ◌≡◌, sym, ap, ◌∙◌, inl, inr, true, false, Bool-cases, Option, none, some, List, [],
}
use hsgram_admin.Prelude.Lists.{length}
use hsgram_admin.Prelude.Text.{Text, codes, trim, is_empty}
use hsgram_admin.Sql.{Result, ok, err, fault, World, run_sql, bind_run, ◌>>=◌}
use hsgram_admin.Sql.Cases.{statement-cases}
use hsgram_admin.Sql.Success.{Ends}
use hsgram_admin.Users.Types.{AdminUser, Tables, UserError, Database}
use hsgram_admin.Users.Store.{restrict_row, set_user_restricted, create_audit_log}
use hsgram_admin.Users.Sessions.{Event, Services, done, Request, of_ban, cut_off}
use hsgram_admin.Users.Moderation.{after_ban, handle_ban}
use hsgram_admin.Users.FullyOut.{FullyOut, cut_off-FullyOut}
use hsgram_admin.Users.Barred.{Barred, log_row, handle_ban-Ended}

module _ (d : Database) (v : Services) (now : ℕ) (admin : AdminUser) (user : ℕ)
    (reason : Text) where
  -- A ban that is done comes of a cut that is done.
  record FromCut (n : ℕ) (degraded : List Text) (u : World Tables Event)
      (r : Result UserError (Option (List ℕ × List Text)) × World Tables Event) : Type 0 where
    keys : List ℕ
    cut : r ≡ (ok (some (keys, degraded)), r.1)
    counted : n ≡ length keys
    sent : u.sent ≡ r.1.sent

  done-FromCut :
      (n : ℕ) (degraded : List Text) (u : World Tables Event)
      (r : Result UserError (Option (List ℕ × List Text)) × World Tables Event)
      → bind_run (after_ban d v now admin user reason) r ≡ (ok (done n degraded), u)
      → FromCut n degraded u r
  unfolding run_sql create_audit_log
  done-FromCut n degraded u (ok none, w) e = absurd (let k = ap (λ x. x.0) e in cc)
  done-FromCut n degraded u (ok (some (keys, dg)), w) e =
      let row = log_row v now admin (codes "user.ban") user (of_ban reason (length keys) dg) in
      elim (statement-cases {X = UserError} row w) [
        | inl f ↦
            let run = rw f at e in
            let counted : length keys ≡ n = cc in
            let same : dg ≡ degraded = cc in
            record {
              keys = keys;
              cut = ap (λ x. (ok (some (keys, x)), w)) same;
              counted = sym counted;
              sent = sym (ap (λ x. x.1.sent) run);
            }
        | inr f ↦
            let run = rw f at e in
            let counted : length keys ≡ n = cc in
            let same : dg ≡ degraded = cc in
            record {
              keys = keys;
              cut = ap (λ x. (ok (some (keys, x)), w)) same;
              counted = sym counted;
              sent = sym (ap (λ x. x.1.sent) run);
            }
      ]
  done-FromCut n degraded u (err x, w) e = absurd (let k = ap (λ x. x.0) e in cc)
  done-FromCut n degraded u (fault, w) e = absurd (let k = ap (λ x. x.0) e in cc)

module _ (d : Database) (v : Services) (now : ℕ) (admin : AdminUser) (user : ℕ) (message : Text)
    (q : Request) (filled : is_empty (trim message) ≡ false) where
  -- Where nothing is degraded.
  abbrev pub Full : ℕ → World Tables Event → World Tables Event → Type 0
  Full n w u =
      (keys : List ℕ) × (n ≡ length keys) × FullyOut v user message filled w.sent keys u.sent

  cut-Full :
      (n : ℕ) (w u : World Tables Event)
      → (cut_off v user message >>= after_ban d v now admin user q.reason) w ≡ (ok (done n []), u)
      → Full n w u
  unfolding run_sql
  cut-Full n w u e =
      let c = done-FromCut d v now admin user q.reason n [] u (cut_off v user message w) e in
      let out = cut_off-FullyOut v user message filled w _ c.keys c.cut in
      (c.keys, c.counted, subst (FullyOut v user message filled w.sent c.keys) (sym c.sent) out)

  handle_ban-Full :
      (n : ℕ) (w u : World Tables Event)
      → handle_ban d v now admin user message q w ≡ (ok (done n []), u)
      → Full n w u
  unfolding handle_ban run_sql set_user_restricted
  handle_ban-Full n w u e = elim (Bool-cases q.method_post) [
    | inr m ↦ absurd (let k = ap (λ x. x.0) (rw m at e) in cc)
    | inl y ↦ elim (Bool-cases q.decoded) [
      | inr m ↦ absurd (let k = ap (λ x. x.0) (rw (y, m) at e) in cc)
      | inl z ↦
          let row = restrict_row d user true (trim q.reason) in
          elim (statement-cases {X = UserError} row w) [
            | inl f ↦ absurd (let k = ap (λ x. x.0) (rw (y, z, f) at e) in cc)
            | inr f ↦ elim (Bool-cases (row w.tables).0) [
              | inr m ↦ absurd (let k = ap (λ x. x.0) (rw (y, z, f, m) at e) in cc)
              | inl m ↦ cut-Full n _ u (rw (y, z, f, m) at e)
            ]
          ]
    ]
  ]

-- Whichever statements fail, where the text of the popup is not blank: behind a ban that is answered
-- with success each row of the user is restricted for the trimmed reason, the rows of the others are
-- the same, and without a client of the session service the user has no live session in the table. If
-- moreover nothing is reported as degraded, then the user was told, all authorizations were reset, the
-- keys that are not 0 and were online or were reset, each once, if there are any, were pushed a reset
-- and were disconnected, in this order and without an error, nothing else was sent, and the number
-- that is answered is that of the keys.
pub handle_ban-Banned :
    (d : Database) (v : Services) (now : ℕ) (admin : AdminUser) (user : ℕ) (message : Text)
    (q : Request) (w u : World Tables Event) (n : ℕ) (degraded : List Text)
    (filled : is_empty (trim message) ≡ false)
    → handle_ban d v now admin user message q w ≡ (ok (done n degraded), u)
    → Barred d v now admin user q.reason w.tables u.tables
      × (degraded ≡ [] → Full d v now admin user message q filled n w u)
handle_ban-Banned d v now admin user message q w u n degraded filled e = (
  subst (Ends _) e (handle_ban-Ended d v now admin user message q w),
  λ nil.
      handle_ban-Full d v now admin user message q filled n w u
        (e ∙ ap (λ x. (ok (done n x), u)) nil),
)
