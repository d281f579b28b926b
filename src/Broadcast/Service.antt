-- ===== src/Broadcast/Service.antt =====
-- backend/internal/broadcast/service.go: what is checked when a broadcast is queued, and the loop
-- that delivers it.
use hsgram_admin.Prelude.{ℕ, Bool, Option, none, List, [], ◌∷◌, map, ◌==◌, if◌then◌else◌, ◌⊎◌}
use hsgram_admin.Prelude.Text.{Text, codes, is_empty, trim, text_eq}
use hsgram_admin.Sql.{ok, pure, raise, send_out, ◌>>=◌}
use hsgram_admin.Broadcast.Types.{
  BroadcastError, message_text_required, no_broadcast_recipients, no_valid_users,
  unsupported_target_type, BroadcastFilters, TargetSpec, Recipient, Preview, BroadcastRecord,
  AdminUser, UserMessage, Db,
}
use hsgram_admin.Broadcast.Targets.{fields, resolve_selected, preview_targets}
use hsgram_admin.Broadcast.Queue.{system_user_id, create_broadcast}

pub record Request : Type 0 where
  pub message_text : Text
  pub target_type : Text
  pub identifiers : Text
  pub filters : BroadcastFilters

-- What the code takes from outside the repository: `json.Marshal` and `json.Unmarshal` of a target
-- (an error is its text), the equality of the users' text columns, the gRPC
-- call that delivers a message, which may answer according to what was delivered before, and the
-- texts of the errors.
pub record Outside : Type 0 where
  pub marshal : TargetSpec → Option Text
  pub unmarshal : Text → Text ⊎ TargetSpec
  pub same_text : Text → Text → Bool
  pub deliver : List UserMessage → UserMessage → Option Text
  pub error_text : BroadcastError → Text
  pub driver_text : Text

abbrev pub no_filters : BroadcastFilters
no_filters = record { restricted = none; deleted = none; is_bot = none; country_code = [] }

abbrev pub spec_of : Text → List ℕ → List Text → BroadcastFilters → TargetSpec
spec_of type ids values filters = record {
  target_type = type;
  resolved_user_ids = ids;
  source_values = values;
  filters = filters;
}

abbrev pub user_id_of : Recipient → ℕ
user_id_of r = r.user_id

abbrev pub message_to : BroadcastRecord → Recipient → UserMessage
message_to b r = record {
  sender_user_id = system_user_id;
  target_user_id = r.user_id;
  text = b.message_text;
}

module _ (o : Outside) where
  abbrev pub selected_spec : Request → List Recipient × List Text → Db (TargetSpec × List Text)
  selected_spec req ([], unresolved) = raise no_valid_users
  selected_spec req (r ∷ rs, unresolved) = pure (
    spec_of (codes "selected") (map user_id_of (r ∷ rs)) (fields req.identifiers) no_filters,
    unresolved,
  )

  unfoldable pub build_target_spec : Request → Db (TargetSpec × List Text)
  build_target_spec req =
      let type = trim req.target_type in
      if text_eq type (codes "all")
      then pure (spec_of type [] [] no_filters, [])
      else if text_eq type (codes "selected")
      then resolve_selected o.same_text req.identifiers >>= selected_spec req
      else if text_eq type (codes "filtered")
      then pure (spec_of type [] [] req.filters, [])
      else raise (unsupported_target_type [])

  unfoldable pub preview : Request → Db (Preview × TargetSpec)
  preview req = do
    (spec, missing) ← build_target_spec req
    p ← preview_targets o.same_text spec
    pure (record p { unresolved = missing }, spec)

  unfoldable pub enqueue : AdminUser → Request → ℕ → Db (BroadcastRecord × Preview)
  enqueue admin req now =
      let text = trim req.message_text in
      if is_empty text then raise message_text_required else (do
        (p, spec) ← preview req
        if p.count == 0
            then raise no_broadcast_recipients
            else (do r ← create_broadcast o.marshal admin text spec p.count now; pure (r, p)))

  -- `SendTextMessage`: `none` where it returns no error.
  unfoldable pub send_text : UserMessage → Db (Option Text)
  send_text m w = (ok (o.deliver w.sent m), (send_out {X = BroadcastError} m w).1)
