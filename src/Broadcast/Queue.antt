-- ===== src/Broadcast/Queue.antt =====
-- The tables of broadcasts and deliveries: the methods of backend/internal/store/broadcast.go that
-- read and write them.
use hsgram_admin.Prelude.{
  ℕ, ◌+◌, Bool, true, false, ◌&&◌, ◌||◌, Option, none, some, List, [], ◌∷◌, ◌++◌, ltb, leb, ◌==◌,
  if◌then◌else◌,
}
use hsgram_admin.Prelude.Lists.{take, rows_where, first_where, any_where, update_where, order_by}
use hsgram_admin.Prelude.Text.{Text, codes, trim}
use hsgram_admin.Sql.{pure, statement, query, exec, or_raise, ◌>>=◌}
use hsgram_admin.Broadcast.Types.{
  BroadcastStatus, pending, running, completed, failed, DeliveryStatus, no_rows, bad_payload,
  TargetSpec, Recipient, BroadcastRecord, Delivery, AdminUser, BroadcastTables, Db,
}
use hsgram_admin.Broadcast.Targets.{join_name}

abbrev pub system_user_id : ℕ
system_user_id = 778_000

abbrev pub is_pending : BroadcastStatus → Bool
is_pending pending = true
is_pending s = false

abbrev pub is_running : BroadcastStatus → Bool
is_running running = true
is_running s = false

abbrev pub has_id : ℕ → BroadcastRecord → Bool
has_id i r = r.id == i

-- `UPDATE admin_broadcasts … WHERE id = ?`.
abbrev pub edit_broadcast :
    ℕ → (BroadcastRecord → BroadcastRecord) → BroadcastTables → BroadcastTables
edit_broadcast i f t = record t { broadcasts = update_where (has_id i) f t.broadcasts }

abbrev pub requeue : BroadcastRecord → BroadcastRecord
requeue r = record r { status = pending; error_message = [] }

unfoldable pub reset_running : Db (Unit {0})
reset_running =
    exec
      (λ t. record t { broadcasts = update_where (λ r. is_running r.status) requeue t.broadcasts })

unfoldable pub get_broadcast : ℕ → Db BroadcastRecord
get_broadcast i = do
  found ← query (λ t. first_where (has_id i) t.broadcasts)
  or_raise no_rows found

abbrev pub new_broadcast : ℕ → AdminUser → Text → TargetSpec → Text → ℕ → ℕ → BroadcastRecord
new_broadcast i admin text spec payload total now = record {
  id = i;
  sender_user_id = system_user_id;
  sender_display_name = join_name (codes "HSgram") (codes "Notice");
  message_text = text;
  target_type = spec.target_type;
  target_spec = payload;
  status = pending;
  total_targets = total;
  success_count = 0;
  failure_count = 0;
  error_message = [];
  created_by_admin_id = admin.id;
  created_by_username = admin.username;
  created_by_role = admin.role;
  started_at = none;
  completed_at = none;
  created_at = now;
}

abbrev pub insert_broadcast :
    AdminUser → Text → TargetSpec → Text → ℕ → ℕ → BroadcastTables → ℕ × BroadcastTables
insert_broadcast admin text spec payload total now t = (
  t.next_broadcast_id,
  record t {
    broadcasts = new_broadcast t.next_broadcast_id admin text spec payload total now ∷ t.broadcasts;
    next_broadcast_id = t.next_broadcast_id + 1;
  },
)

-- `marshal` is `json.Marshal`.
unfoldable pub create_broadcast :
    (TargetSpec → Option Text) → AdminUser → Text → TargetSpec → ℕ → ℕ → Db BroadcastRecord
create_broadcast marshal admin text spec total now = do
  payload ← or_raise bad_payload (marshal spec)
  i ← statement (insert_broadcast admin text spec payload total now)
  get_broadcast i

-- `ORDER BY created_at ASC, id ASC`.
abbrev pub broadcast_before : BroadcastRecord → BroadcastRecord → Bool
broadcast_before a b =
    ltb a.created_at b.created_at || (a.created_at == b.created_at && leb a.id b.id)

abbrev pub id_of : Option BroadcastRecord → Option ℕ
id_of none = none
id_of (some r) = some r.id

unfoldable pub next_pending : BroadcastTables → Option ℕ
next_pending t = id_of (
    first_where (λ (r : BroadcastRecord). is_pending r.status)
      (order_by broadcast_before t.broadcasts))

abbrev pub can_claim : ℕ → BroadcastRecord → Bool
can_claim i r = has_id i r && is_pending r.status

abbrev pub start : ℕ → BroadcastRecord → BroadcastRecord
start now r = record r { status = running; error_message = []; started_at = some now }

-- Whether a row was affected, and the tables behind the update.
unfoldable pub claim_row : ℕ → ℕ → BroadcastTables → Bool × BroadcastTables
claim_row i now t = (
  any_where (can_claim i) t.broadcasts,
  record t { broadcasts = update_where (can_claim i) (start now) t.broadcasts },
)

abbrev pub some_broadcast : BroadcastRecord → Db (Option BroadcastRecord)
some_broadcast r = pure (some r)

unfoldable pub claim_next : ℕ → Db (Option BroadcastRecord)
claim_next now = do
  found ← query next_pending
  elim found [
    | none ↦ pure none
    | some i ↦ (do
      affected ← statement (claim_row i now)
      if affected then get_broadcast i >>= some_broadcast else pure none)
  ]

unfoldable pub update_progress : ℕ → ℕ → ℕ → Db (Unit {0})
update_progress i successes failures =
    exec (edit_broadcast i (λ r. record r { success_count = successes; failure_count = failures }))

abbrev pub complete : ℕ → ℕ → ℕ → BroadcastRecord → BroadcastRecord
complete successes failures now r = record r {
  status = completed;
  success_count = successes;
  failure_count = failures;
  completed_at = some now;
  error_message = [];
}

unfoldable pub mark_completed : ℕ → ℕ → ℕ → ℕ → Db (Unit {0})
mark_completed i successes failures now = exec (edit_broadcast i (complete successes failures now))

abbrev pub fail : ℕ → ℕ → Text → ℕ → BroadcastRecord → BroadcastRecord
fail successes failures message now r = record r {
  status = failed;
  success_count = successes;
  failure_count = failures;
  completed_at = some now;
  error_message = trim message;
}

unfoldable pub mark_failed : ℕ → ℕ → ℕ → Text → ℕ → Db (Unit {0})
mark_failed i successes failures message now =
    exec (edit_broadcast i (fail successes failures message now))

-- The unique key of a delivery.
abbrev pub is_delivery : ℕ → ℕ → Delivery → Bool
is_delivery i user d = d.broadcast_id == i && d.target_user_id == user

abbrev pub delivery_to : ℕ → ℕ → Recipient → DeliveryStatus → Text → Option ℕ → Delivery
delivery_to row i r status message sent_at = record {
  id = row;
  broadcast_id = i;
  target_user_id = r.user_id;
  target_display_name = r.display_name;
  status = status;
  error_message = trim message;
  sent_at = sent_at;
}

abbrev pub redeliver : Recipient → DeliveryStatus → Text → Option ℕ → Delivery → Delivery
redeliver r status message sent_at d = record d {
  target_display_name = r.display_name;
  status = status;
  error_message = trim message;
  sent_at = sent_at;
}

-- `INSERT … ON DUPLICATE KEY UPDATE`. A row that is there takes an id of the counter all the same.
unfoldable pub upsert_row :
    ℕ → Recipient → DeliveryStatus → Text → Option ℕ → BroadcastTables → BroadcastTables
upsert_row i r status message sent_at t =
    let row = delivery_to t.next_delivery_id i r status message sent_at in
    let found = any_where (is_delivery i r.user_id) t.deliveries in
    record t {
      deliveries =
          if found
          then update_where (is_delivery i r.user_id) (redeliver r status message sent_at)
              t.deliveries
          else t.deliveries ++ (row ∷ []);
      next_delivery_id = t.next_delivery_id + 1;
    }

unfoldable pub upsert_delivery : ℕ → Recipient → DeliveryStatus → Text → Option ℕ → Db (Unit {0})
upsert_delivery i r status message sent_at = exec (upsert_row i r status message sent_at)

-- `ORDER BY created_at DESC, id DESC`.
abbrev pub broadcast_behind : BroadcastRecord → BroadcastRecord → Bool
broadcast_behind a b =
    ltb b.created_at a.created_at || (a.created_at == b.created_at && leb b.id a.id)

-- A limit below 1 is the default, and one above the greatest is that.
abbrev pub limit_of : ℕ → ℕ → ℕ → ℕ
limit_of default greatest n =
    let m = if ltb n 1 then default else n in if ltb greatest m then greatest else m

unfoldable pub list_broadcasts : ℕ → Db (List BroadcastRecord)
list_broadcasts limit =
    query (λ t. take (limit_of 20 100 limit) (order_by broadcast_behind t.broadcasts))

abbrev pub delivery_before : Delivery → Delivery → Bool
delivery_before a b = leb a.id b.id

unfoldable pub list_deliveries : ℕ → ℕ → Db (List Delivery)
list_deliveries i limit = query (λ t.
    take (limit_of 100 500 limit)
      (order_by delivery_before (rows_where (λ (d : Delivery). d.broadcast_id == i) t.deliveries)))
