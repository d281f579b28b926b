-- ===== src/Users/Moderation.antt =====
-- The handlers of a ban, its end, and a kick: handleBan, handleUnban and handleKickSessions of
-- backend/internal/httpapi/handler.go, with their helpers.
use hsgram_admin.Prelude.{ℕ, true, false, not, Option, none, some, List, [], ◌==◌, if◌then◌else◌}
use hsgram_admin.Prelude.Lists.{length}
use hsgram_admin.Prelude.Text.{Text, codes}
use hsgram_admin.Sql.{Result, ok, err, fault, pure, attempt, ◌>>=◌, ◌>>◌}
use hsgram_admin.Users.Types.{AdminUser, UserError, no_rows, Database}
use hsgram_admin.Users.Store.{set_user_restricted, create_audit_log}
use hsgram_admin.Users.Sessions.{
  block_login, clear_block, Metadata, of_ban, of_unban, of_kick, Services, Answer, bad_method,
  bad_body, not_found, failed, done, Request, Action, tell, push_admin_popup, cut_off,
  kick_popup_message,
}

module _ (v : Services) where
  abbrev pub nothing : {X : Type 0} → Result UserError X → Action (Unit {0})
  nothing r = pure tt

  abbrev pub log_action : ℕ → AdminUser → Text → ℕ → Metadata → Action (Unit {0})
  log_action now admin action user m =
      attempt (create_audit_log now admin action user (some (v.encode m))) >>= nothing

module _ (d : Database) (v : Services) (now : ℕ) (admin : AdminUser) (user : ℕ) where
  abbrev pub after_ban : Text → Option (List ℕ × List Text) → Action Answer
  after_ban reason none = pure failed
  after_ban reason (some (keys, degraded)) = do
    log_action v now admin (codes "user.ban") user (of_ban reason (length keys) degraded)
    pure (done (length keys) degraded)

  -- What follows the update of the row.
  abbrev pub on_restricted : Action Answer → Result UserError (Unit {0}) → Action Answer
  on_restricted go (ok a) = go
  on_restricted go (err no_rows) = pure not_found
  on_restricted go fault = pure failed

  -- `message` is `banPopupMessage`.
  unfoldable pub handle_ban : Text → Request → Action Answer
  unfolding cut_off
  handle_ban message q =
      if not q.method_post
      then pure bad_method
      else if not q.decoded
      then pure bad_body
      else attempt (set_user_restricted d user true q.reason)
        >>= on_restricted (cut_off v user message >>= after_ban q.reason)

  abbrev pub clear_kick_login_block : Action (Unit {0})
  clear_kick_login_block = do ignored ← tell v v.has_risk (clear_block user) []; pure tt

  unfoldable pub handle_unban : Text → Request → Action Answer
  handle_unban message q =
      if not q.method_post
      then pure bad_method
      else attempt (set_user_restricted d user false [])
        >>= on_restricted (do
          clear_kick_login_block
          degraded ← push_admin_popup v user message
          log_action v now admin (codes "user.unban") user (of_unban degraded)
          pure (done 0 degraded))

  abbrev pub after_kick : ℕ → Option (List ℕ × List Text) → Action Answer
  after_kick seconds none = pure failed
  after_kick seconds (some (keys, degraded)) = do
    log_action v now admin (codes "user.kick_sessions") user
        (of_kick (length keys) seconds degraded)
    pure (done (length keys) degraded)

  abbrev pub current_risk_seconds : ℕ
  current_risk_seconds =
      if v.has_risk
      then (elim v.risk_seconds [ none ↦ v.default_seconds | some n ↦ n ])
      else v.default_seconds

  -- `SetKickLoginBlock` of the risk service: the key expires, or is deleted at once.
  abbrev pub set_kick_login_block : ℕ → Action (Unit {0})
  set_kick_login_block seconds = do
    ignored ←
        tell v v.has_risk (if seconds == 0 then clear_block user else block_login user seconds) []
    pure tt

  -- The two texts of `kickPopupMessage`.
  unfoldable pub handle_kick : Text → (ℕ → Text) → Request → Action Answer
  unfolding cut_off
  handle_kick plain with_minutes q =
      let seconds = current_risk_seconds in
      if not q.method_post then pure bad_method else (do
        set_kick_login_block seconds
        x ← cut_off v user (kick_popup_message seconds plain with_minutes)
        after_kick seconds x)
