-- ===== src/AutoMessage/Queries.antt =====
-- The logs, the state of the group, the permissions and the configs that are due, as the methods of
-- backend/internal/store/auto_messages.go read and write them.
use hsgram_admin.Prelude.{
  ℕ, ◌+◌, ◌%◌, Bool, true, false, not, ◌&&◌, ◌||◌, Option, none, some, List, [], ◌∷◌, map, ltb, leb,
  ◌==◌, if◌then◌else◌,
}
use mathlib.Core.Option
use hsgram_admin.Prelude.Lists.{take, drop, rows_where, first_where, order_by}
use hsgram_admin.Prelude.Text.{Text, is_empty, trim}
use hsgram_admin.AutoMessage.Types.{Config, LogRow, Log, GroupPermission}
use hsgram_admin.AutoMessage.Tables.{ConfigRow, Chat, Participant, Tables, is_live, config_by_group}

abbrev pub null_if_zero : ℕ → Option ℕ
null_if_zero n = if n == 0 then none else some n

-- `nullableString`.
unfoldable pub nullable_string : Text → Option Text
nullable_string s = if is_empty (trim s) then none else some s

-- `insertAutoMessageLogTx`.
unfoldable pub insert_log : Log → Tables → Tables
insert_log l t = record t {
  logs =
      record {
        id = t.next_log_id;
        group_id = l.group_id;
        config_id = l.config_id;
        item_id = null_if_zero l.item_id;
        content_snapshot = nullable_string l.content_snapshot;
        send_index = null_if_zero l.send_index;
        sent_at = l.sent_at;
        status = l.status;
        error_code = l.error_code;
        error_message = l.error_message;
        message_id = null_if_zero l.message_id;
      }
      ∷ t.logs;
  next_log_id = t.next_log_id + 1;
}

-- SELECT deactivated FROM chats WHERE id = ?, read as `isAutoMessageGroupActiveTx` reads it.
unfoldable pub is_group_active : ℕ → Tables → Bool
is_group_active g t = elim (first_where (λ (c : Chat). c.id == g) t.chats) [
  | none ↦ false
  | some c ↦ not c.deactivated
]

-- The join of `GetAutoMessagePermission`; `none` is `sql.ErrNoRows`.
unfoldable pub group_permission : ℕ → ℕ → Tables → Option GroupPermission
group_permission g actor t =
    let p =
      first_where (λ (r : Participant). r.chat_id == g && r.user_id == actor) t.participants in
    Option.map
      (λ (c : Chat). record {
        group_id = c.id;
        creator_user_id = c.creator_user_id;
        deactivated = c.deactivated;
        participant_type = Option.map (λ (r : Participant). r.participant_type) p;
        participant_state = Option.map (λ (r : Participant). r.state) p;
        admins_can_manage = elim (config_by_group g t) [
          | none ↦ true
          | some cfg ↦ cfg.admins_can_manage
        ];
      })
      (first_where (λ (c : Chat). c.id == g) t.chats)

-- ORDER BY sent_at DESC, id DESC.
abbrev pub log_before : LogRow → LogRow → Bool
log_before a b = ltb b.sent_at a.sent_at || (a.sent_at == b.sent_at && leb b.id a.id)

-- COALESCE(…, 0) and COALESCE(…, '').
abbrev pub or_zero : Option ℕ → ℕ
or_zero none = 0
or_zero (some n) = n

abbrev pub or_blank : Option Text → Text
or_blank none = []
or_blank (some s) = s

unfoldable pub scan_log : LogRow → Log
scan_log r = record {
  id = r.id;
  group_id = r.group_id;
  config_id = r.config_id;
  item_id = or_zero r.item_id;
  content_snapshot = or_blank r.content_snapshot;
  send_index = or_zero r.send_index;
  sent_at = r.sent_at;
  status = r.status;
  error_code = r.error_code;
  error_message = r.error_message;
  message_id = or_zero r.message_id;
}

unfoldable pub logs_of : ℕ → Tables → List LogRow
logs_of g t = rows_where (λ (r : LogRow). r.group_id == g) t.logs

unfoldable pub log_page : ℕ → ℕ → ℕ → Tables → List Log
unfolding logs_of scan_log
log_page g limit offset t =
    map scan_log (take limit (drop offset (order_by log_before (logs_of g t))))

-- WHERE enabled = 1 AND deleted_at IS NULL AND next_send_at IS NOT NULL AND next_send_at <= ?.
unfoldable pub is_due_row : ℕ → ConfigRow → Bool
is_due_row now r =
    r.enabled && is_live r && elim (r.next_send_at) [ none ↦ false | some at ↦ leb at now ]

-- AND MOD(group_id, ?) = ?, which is there only for several shards.
unfoldable pub in_shard : ℕ → ℕ → ConfigRow → Bool
in_shard total index r = if ltb 1 total then r.group_id % total == index else true

-- ORDER BY next_send_at ASC, id ASC.
abbrev pub due_before : Config → Config → Bool
due_before a b =
    let s = or_zero a.next_send_at in
    let u = or_zero b.next_send_at in ltb s u || (s == u && leb a.id b.id)

unfoldable pub due_configs : ℕ → ℕ → ℕ → ℕ → Tables → List Config
unfolding is_due_row in_shard
due_configs now limit total index t = take limit (
    order_by due_before (
      map (λ (r : ConfigRow). r.config)
        (rows_where (λ r. is_due_row now r && in_shard total index r) t.configs)))
