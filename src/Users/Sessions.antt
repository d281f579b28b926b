-- ===== src/Users/Sessions.antt =====
-- The calls of other services that end the sessions of a user: the helpers of handleBan and
-- handleKickSessions of backend/internal/httpapi/handler.go.
use hsgram_admin.Prelude.{
  ℕ, ◌+◌, ◌/◌, Bool, true, false, not, ◌&&◌, Option, none, some, List, [], ◌∷◌, ◌++◌, ◌==◌,
  if◌then◌else◌,
}
use hsgram_admin.Prelude.Text.{Text, codes, trim, is_empty}
use hsgram_admin.Sql.{Result, ok, err, fault, Sql, pure, attempt, ◌>>=◌}
use hsgram_admin.Broadcast.Targets.{unique_values}
use hsgram_admin.Settings.{fresh_ids}
use hsgram_admin.Users.Types.{Tables, UserError}
use hsgram_admin.Users.Store.{kick_user_sessions}

-- The calls of other services that change something.
pub data Event : Type 0 where
  popup : ℕ → Text → Event
  reset_all : ℕ → Event
  push_reset : ℕ → List ℕ → Event
  disconnect : List ℕ → Event
  block_login : ℕ → ℕ → Event
  clear_block : ℕ → Event

pub data Metadata : Type 0 where
  of_ban : Text → ℕ → List Text → Metadata
  of_unban : List Text → Metadata
  of_kick : ℕ → ℕ → List Text → Metadata

-- Which clients are configured, and what they answer: the keys that are online, or an error; the keys
-- of ResetAllAuthorizations behind the calls before, or an error; whether any other call returns no
-- error. A duration that is not positive is 0 seconds.
pub record Services : Type 0 where
  pub has_status : Bool
  pub has_sync : Bool
  pub has_gateway : Bool
  pub has_authsessions : Bool
  pub has_risk : Bool
  pub online : ℕ → Option (List ℕ)
  pub revoked : List Event → ℕ → Option (List ℕ)
  pub answers : List Event → Event → Bool
  pub risk_seconds : Option ℕ
  pub default_seconds : ℕ
  pub encode : Metadata → Text

-- Status 405, 400, 404 and 500, and what is answered with 200: the number of keys and what is degraded.
pub data Answer : Type 0 where
  bad_method bad_body not_found failed : Answer
  done : ℕ → List Text → Answer

pub record Request : Type 0 where
  pub method_post : Bool
  pub decoded : Bool
  pub reason : Text

abbrev pub Action : Type 0 → Type 0
Action A = Sql Tables Event UserError A

-- The text is appended where the test fails.
abbrev pub unless : Bool → Text → List Text
unless true label = []
unless false label = label ∷ []

abbrev pub unique_strings : List Text → List Text
unique_strings items = unique_values items []

-- `mergeAuthKeyIDs` of two groups.
unfoldable pub merge_auth_key_ids : List ℕ → List ℕ → List ℕ
merge_auth_key_ids a b = fresh_ids [] (a ++ b)

abbrev pub is_nil : List ℕ → Bool
is_nil [] = true
is_nil (k ∷ ks) = false

abbrev pub is_some : Option (List ℕ) → Bool
is_some none = false
is_some (some ks) = true

abbrev pub keys_or_nil : Option (List ℕ) → List ℕ
keys_or_nil none = []
keys_or_nil (some ks) = ks

unfoldable pub kick_popup_message : ℕ → Text → (ℕ → Text) → Text
kick_popup_message seconds plain with_minutes =
    if seconds == 0 then plain else with_minutes ((seconds + 59) / 60)

module _ (v : Services) where
  abbrev pub call : Event → Action Bool
  call e w = (ok (v.answers w.sent e), record w { sent = w.sent ++ (e ∷ []) })

  -- A call that is made only under a condition, and what its error adds to the degraded list.
  unfoldable pub tell : Bool → Event → Text → Action (List Text)
  tell configured e label = if configured then (do b ← call e; pure (unless b label)) else pure []

  abbrev pub online_auth_key_ids : ℕ → List ℕ × List Text
  online_auth_key_ids user =
      if v.has_status
      then (
        merge_auth_key_ids (keys_or_nil (v.online user)) [],
        unless (is_some (v.online user)) (codes "status_rpc_failed"),
      )
      else ([], [])

  abbrev pub session_operation_degraded : List Text
  session_operation_degraded =
      unless v.has_status (codes "status_rpc_unavailable")
      ++ (unless v.has_sync (codes "sync_rpc_unavailable")
          ++ (unless v.has_gateway (codes "gateway_rpc_unavailable")
              ++ unless v.has_authsessions (codes "authsession_rpc_unavailable")))

  abbrev pub push_admin_popup : ℕ → Text → Action (List Text)
  push_admin_popup user message =
      tell (v.has_sync && not (is_empty (trim message))) (popup user message)
        (codes "sync_rpc_popup_failed")

  abbrev pub push_reset_authorization : ℕ → List ℕ → Action (List Text)
  push_reset_authorization user keys =
      tell (v.has_sync && not (is_nil keys)) (push_reset user keys) (codes "sync_rpc_reset_failed")

  abbrev pub force_disconnect : List ℕ → Action (List Text)
  force_disconnect keys =
      tell (v.has_gateway && not (is_nil keys)) (disconnect keys) (codes "gateway_rpc_failed")

  -- A handler always has a store here. `none` is an error.
  abbrev pub kicked : Result UserError ℕ → Action (Option (List ℕ × List Text))
  kicked (ok n) = pure (some ([], codes "authsession_rpc_unavailable" ∷ []))
  kicked (err e) = pure none
  kicked fault = pure none

  abbrev pub with_keys : Option (List ℕ) → Option (List ℕ × List Text)
  with_keys none = none
  with_keys (some ks) = some (ks, [])

  abbrev pub reset_all_authorizations : ℕ → Action (Option (List ℕ × List Text))
  reset_all_authorizations user w =
      (ok (with_keys (v.revoked w.sent user)), record w { sent = w.sent ++ (reset_all user ∷ []) })

  unfoldable pub revoke_user_sessions : ℕ → Action (Option (List ℕ × List Text))
  revoke_user_sessions user =
      if v.has_authsessions
      then reset_all_authorizations user
      else attempt (kick_user_sessions user) >>= kicked

  -- What a ban and a kick do once the sessions are revoked: the keys, and what is degraded.
  abbrev pub on_revoked :
      ℕ
      → List ℕ × List Text
      → List Text
      → Option (List ℕ × List Text)
      → Action (Option (List ℕ × List Text))
  on_revoked user (online, status_degraded) popup_degraded none = pure none
  on_revoked user (online, status_degraded) popup_degraded (some (reset, revoke_degraded)) =
      let keys = merge_auth_key_ids online reset in
      do
        reset_degraded ← push_reset_authorization user keys
        disconnect_degraded ← force_disconnect keys
        pure (
            some (
              keys,
              unique_strings (
                  session_operation_degraded
                  ++ (status_degraded
                      ++ (popup_degraded
                          ++ (revoke_degraded ++ (reset_degraded ++ disconnect_degraded))))),
            ))

  unfoldable pub cut_off : ℕ → Text → Action (Option (List ℕ × List Text))
  unfolding revoke_user_sessions
  cut_off user message = do
    popup_degraded ← push_admin_popup user message
    revoked ← revoke_user_sessions user
    on_revoked user (online_auth_key_ids user) popup_degraded revoked
