-- ===== src/Users/Barred.antt =====
-- What a ban that is answered with success leaves in the tables: handleBan of
-- backend/internal/httpapi/handler.go.
use mathlib.Core.Path.{subst}
use hsgram_admin.Prelude.{
  ℕ, suc, ◌≡◌, refl, sym, ap, ◌∙◌, inl, inr, Bool, true, false, Bool-cases, Option, none, some,
  List, ◌∷◌, if◌then◌else◌,
}
use hsgram_admin.Prelude.Lists.{All, any_where}
use hsgram_admin.Prelude.Text.{Text, trim}
use hsgram_admin.Sql.{Result, ok, err, fault, World, run_sql, attempt, ◌>>=◌}
use hsgram_admin.Sql.Cases.{statement-cases}
use hsgram_admin.Sql.Success.{Ends, Success, Success-pure, Success-bind, Success-attempt}
use hsgram_admin.Users.Types.{AdminUser, Tables, UserError, no_rows, Database}
use hsgram_admin.Users.Store.{
  restrict_row, set_user_restricted, is_live_of, kick_user_sessions, create_audit_log,
}
use hsgram_admin.Users.Sessions.{
  Event, Services, Answer, bad_method, bad_body, not_found, failed, done, Request, Metadata, tell,
  on_revoked, online_auth_key_ids, revoke_user_sessions, kicked, with_keys,
  reset_all_authorizations, cut_off,
}
use hsgram_admin.Users.Moderation.{log_action, after_ban, on_restricted, handle_ban}
use hsgram_admin.Users.Restricted.{
  IsBarred, others_of, barred, barred-IsBarred, barred-others, kick_rows, none_live,
}

-- The statement of CreateAuditLog.
abbrev pub log_row : Services → ℕ → AdminUser → Text → ℕ → Metadata → Tables → Unit {0} × Tables
log_row v now admin action user m t = (
  tt,
  record t {
    logs =
        record {
          id = t.next_log_id;
          actor = admin;
          action = action;
          target_user_id = user;
          metadata = some (v.encode m);
          created_at = now;
        }
        ∷ t.logs;
    next_log_id = suc t.next_log_id;
  },
)

module _ (d : Database) (v : Services) (now : ℕ) (admin : AdminUser) (user : ℕ) where
  -- A ban for the reason, from the tables `t` to the tables `u`.
  pub record Barred (reason : Text) (t u : Tables) : Type 0 where
    pub rows : All (IsBarred user (trim reason)) u.users
    pub others : others_of user u.users ≡ others_of user t.users
    pub sessions : v.has_authsessions ≡ false → any_where (is_live_of user) u.sessions ≡ false

  module _ (reason : Text) (t : Tables) where
    -- The users behind the update.
    abbrev Updated : Tables → Type 0
    Updated u = u.users ≡ barred d.stamp user (trim reason) t.users

    abbrev AfterUpdate : Result UserError (Unit {0}) → Tables → Type 0
    AfterUpdate (ok a) u = Updated u
    AfterUpdate (err e) u = Unit
    AfterUpdate fault u = Unit

    abbrev Revoked : Option (List ℕ × List Text) → Tables → Type 0
    Revoked none u = Unit
    Revoked (some x) u =
        Updated u × (v.has_authsessions ≡ false → any_where (is_live_of user) u.sessions ≡ false)

    abbrev Ended : Answer → Tables → Type 0
    Ended bad_method u = Unit
    Ended bad_body u = Unit
    Ended not_found u = Unit
    Ended failed u = Unit
    Ended (done n degraded) u = Barred reason t u

    update-Success :
        Success {E = Event}
          (λ u. u ≡ t)
          (attempt (set_user_restricted d user true reason))
          AfterUpdate
    unfolding run_sql set_user_restricted restrict_row
    update-Success = Success-attempt _ _ _ (λ w e.
        elim (statement-cases {X = UserError} (restrict_row d user true (trim reason)) w) [
          | inl f ↦ rw f tt
          | inr f ↦ rw f (elim (Bool-cases (restrict_row d user true (trim reason) w.tables).0) [
            | inl y ↦ rw y (ap (λ (x : Tables). barred d.stamp user (trim reason) x.users) e)
            | inr n ↦ rw n tt
          ])
        ])

    tell-Success :
        (P : Tables → Type 0) (configured : Bool) (e : Event) (label : Text)
        → Success P (tell v configured e label) (λ _ u. P u)
    unfolding run_sql tell
    tell-Success P true e label = record { run = λ w h. h }
    tell-Success P false e label = record { run = λ w h. h }

    AfterKick : Result UserError ℕ → Tables → Type 0
    AfterKick (ok n) u = Updated u × (any_where (is_live_of user) u.sessions ≡ false)
    AfterKick (err e) u = Unit
    AfterKick fault u = Unit

    kick-Success : Success {E = Event} Updated (attempt (kick_user_sessions user)) AfterKick
    unfolding run_sql kick_user_sessions AfterKick
    kick-Success = Success-attempt _ _ _ (λ w h.
        elim (statement-cases {X = UserError} (kick_rows user) w) [
          | inl f ↦ rw f tt
          | inr f ↦ rw f (h, none_live user w.tables.sessions)
        ])

    kicked-Success :
        v.has_authsessions ≡ false
        → (r : Result UserError ℕ) → Success (AfterKick r) (kicked v r) Revoked
    unfolding AfterKick
    kicked-Success e (ok n) = Success-pure _ _ _ (λ u h. (h.0, λ _. h.1))
    kicked-Success e (err x) = Success-pure _ _ none (λ u h. tt)
    kicked-Success e fault = Success-pure _ _ none (λ u h. tt)

    reset-Revoked :
        v.has_authsessions ≡ true
        → (o : Option (List ℕ)) (u : Tables) → Updated u
        → Revoked (with_keys v o) u
    reset-Revoked y none u h = tt
    reset-Revoked y (some ks) u h = (h, λ n. absurd (cc))

    revoke_by :
        (b : Bool)
        → v.has_authsessions ≡ b
        → Success Updated
            (if b
              then reset_all_authorizations v user
              else attempt (kick_user_sessions user) >>= kicked v)
            Revoked
    revoke_by true e = record { run = λ w h. reset-Revoked e (v.revoked w.sent user) w.tables h }
    revoke_by false e = Success-bind _ _ _ _ _ kick-Success (kicked-Success e)

    revoke-Success : Success Updated (revoke_user_sessions v user) Revoked
    unfolding revoke_user_sessions
    revoke-Success = revoke_by v.has_authsessions refl

    on_revoked-Success :
        (o : List ℕ × List Text) (popups : List Text) (r : Option (List ℕ × List Text))
        → Success (Revoked r) (on_revoked v user o popups r) Revoked
    on_revoked-Success o popups none = Success-pure _ _ none (λ u h. tt)
    on_revoked-Success (online, s) popups (some (reset, x)) =
        let P : Tables → Type 0 = Revoked (some (reset, x)) in
        Success-bind _ (λ _ u. P u) _ _ _ (tell-Success P _ _ _)
          (λ a.
            Success-bind _ (λ _ u. P u) _ _ _ (tell-Success P _ _ _)
              (λ b. Success-pure _ _ _ (λ u h. h)))

    cut_off-Success : (message : Text) → Success Updated (cut_off v user message) Revoked
    unfolding cut_off
    cut_off-Success message =
        Success-bind _ (λ _ u. Updated u) _ _ _ (tell-Success Updated _ _ _)
          (λ p.
            Success-bind _ Revoked _ _ _ revoke-Success
              (λ r. on_revoked-Success (online_auth_key_ids v user) p r))

    log-Success :
        (action : Text) (m : Metadata)
        → Success
            (λ u. Barred reason t u)
            (log_action v now admin action user m)
            (λ _ u. Barred reason t u)
    unfolding run_sql create_audit_log
    log-Success action m =
        Success-bind _ (λ _ u. Barred reason t u) _ _ _
          (Success-attempt _ (λ (r : Result UserError (Unit {0})) u. Barred reason t u)
            (create_audit_log now admin action user (some (v.encode m)))
            (λ w h. elim (statement-cases {X = UserError} (log_row v now admin action user m) w) [
              | inl f ↦ rw f h
              | inr f ↦ rw f (record { rows = h.rows; others = h.others; sessions = h.sessions })
            ]))
          (λ r. Success-pure _ _ tt (λ u h. h))

    updated-Barred : (x : List ℕ × List Text) (u : Tables) → Revoked (some x) u → Barred reason t u
    updated-Barred x u h = record {
      rows =
          subst (All (IsBarred user (trim reason))) (sym h.0)
            (barred-IsBarred d.stamp user (trim reason) t.users);
      others = ap (others_of user) h.0 ∙ barred-others d.stamp user (trim reason) t.users;
      sessions = h.1;
    }

    after_ban-Success :
        (r : Option (List ℕ × List Text))
        → Success (Revoked r) (after_ban d v now admin user reason r) Ended
    after_ban-Success none = Success-pure _ _ failed (λ u h. tt)
    after_ban-Success (some (keys, degraded)) =
        Success-bind _ (λ _ u. Barred reason t u) _ _ _
          (record {
            run = λ w h. (log-Success _ _).run w (updated-Barred (keys, degraded) w.tables h);
          })
          (λ _. Success-pure _ _ _ (λ u h. h))

    on_restricted-Success :
        (message : Text) (r : Result UserError (Unit {0}))
        → Success
            (AfterUpdate r)
            (on_restricted d v now admin user
              (cut_off v user message >>= after_ban d v now admin user reason)
              r)
            Ended
    on_restricted-Success message (ok a) =
        Success-bind _ Revoked _ _ _ (cut_off-Success message) after_ban-Success
    on_restricted-Success message (err no_rows) = Success-pure _ _ not_found (λ u h. tt)
    on_restricted-Success message fault = Success-pure _ _ failed (λ u h. tt)

  pub handle_ban-Ended :
      (message : Text) (q : Request) (w : World Tables Event)
      → Ends (Ended q.reason w.tables) (handle_ban d v now admin user message q w)
  unfolding handle_ban run_sql
  handle_ban-Ended message q w = elim (Bool-cases q.method_post) [
    | inr n ↦ rw n tt
    | inl y ↦ elim (Bool-cases q.decoded) [
      | inr n ↦ rw (y, n) tt
      | inl e ↦
          rw (y, e)
            ((Success-bind _ (AfterUpdate q.reason w.tables) _ _ _
                (update-Success q.reason w.tables)
                (on_restricted-Success q.reason w.tables message)).run
              w refl)
    ]
  ]
