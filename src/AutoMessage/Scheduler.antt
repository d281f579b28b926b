-- ===== src/AutoMessage/Scheduler.antt =====
-- The scheduler of backend/internal/automessage/service.go: `New`, `ProcessDue` and `processOne`.
-- Redis answers for the lock of each group, and the messenger for each message.
use hsgram_admin.Prelude.{
  ℕ, ◌-◌, ◌%◌, true, false, Option, none, some, List, [], ◌∷◌, leb, ◌==◌, if◌then◌else◌, ◌⊎◌, inl,
  inr,
}
use hsgram_admin.Prelude.Text.{Text}
use hsgram_admin.Sql.{Result, ok, err, fault, World}
use hsgram_admin.AutoMessage.Types.{StoreError, Config, SendResult, GroupMessage, lock_failed}
use hsgram_admin.AutoMessage.Tables.{Tables}
use hsgram_admin.AutoMessage.Process.{Send, list_due, process_due_config}
use hsgram_admin.AutoMessage.Service.{coded, raw, Service, call_store}
use hsgram_admin.AutoMessage.Validate.{truncate, send_error_code}
use hsgram_admin.Sql.{pure, raise}

-- Durations are whole seconds.
pub record Options : Type 0 where
  pub sender_user_id : ℕ
  pub batch_size : ℕ
  pub shard_total : ℕ
  pub shard_index : ℕ
  pub lock_ttl : ℕ
  pub tick_interval : ℕ

-- `store.BroadcastSystemUserID`.
abbrev pub broadcast_system_user_id : ℕ
broadcast_system_user_id = 778000

-- `New`.
unfoldable pub normalize_options : Options → Options
normalize_options o =
    let total = if leb o.shard_total 0 then 1 else o.shard_total in
    record {
      sender_user_id = if o.sender_user_id == 0 then broadcast_system_user_id else o.sender_user_id;
      batch_size = if leb o.batch_size 0 then 500 else o.batch_size;
      shard_total = total;
      shard_index = if leb total o.shard_index then 0 else o.shard_index;
      lock_ttl = if leb o.lock_ttl 0 then 120 else o.lock_ttl;
      tick_interval = if leb o.tick_interval 0 then 60 else o.tick_interval;
    }

-- What `SetnxExCtx` answers for the key of a group.
pub data LockAnswer : Type 0 where
  acquired held broken : LockAnswer

-- What `SendGroupTextMessage` answers: the id of the message, or the text of an error.
abbrev pub Sender : Type 0
Sender = GroupMessage → ℕ ⊎ Text

module _ (lower : Text → Text) (sender_user_id : ℕ) (sender : Sender) where
  unfoldable pub report : ℕ ⊎ Text → SendResult
  report (inl message_id) = record {
    is_success = true;
    message_id = message_id;
    error_code = none;
    error_message = [];
  }
  report (inr message) = record {
    is_success = false;
    message_id = 0;
    error_code = some (send_error_code lower message);
    error_message = truncate message 512;
  }

  -- The callback that `processOne` hands to the store.
  unfoldable pub send_group_message : Send
  unfolding report
  send_group_message c =
      let m : GroupMessage = record {
        sender_user_id = sender_user_id;
        group_id = c.config.group_id;
        text = c.item.content;
        biz_id = c.biz_id;
      } in
      (m, report (sender m))

  -- The deferred release deletes the lock's key in Redis, and touches no table.
  unfoldable pub process_one : (Config → LockAnswer) → ℕ → Config → Service (Unit {0})
  unfolding send_group_message
  process_one lock now cfg = elim (lock cfg) [
    | broken ↦ raise (coded lock_failed)
    | held ↦ pure tt
    | acquired ↦ call_store raw (process_due_config send_group_message cfg.id now)
  ]

  -- The loop of `ProcessDue`: an error is logged, and the next config is processed.
  unfoldable pub process_all :
      (Config → LockAnswer)
      → ℕ
      → List Config
      → World Tables GroupMessage
      → World Tables GroupMessage
  unfolding process_one
  process_all lock now [] w = w
  process_all lock now (cfg ∷ cfgs) w = process_all lock now cfgs (process_one lock now cfg w).1

  -- What `ProcessDue` does with the list of due configs, or with the error of reading it.
  unfoldable pub process_listed :
      (Config → LockAnswer)
      → ℕ
      → Result StoreError (List Config)
      → World Tables GroupMessage
      → World Tables GroupMessage
  unfolding process_all
  process_listed lock now (ok cfgs) w = process_all lock now cfgs w
  process_listed lock now (err x) w = w
  process_listed lock now fault w = w

-- `ProcessDue`; without a sender it does nothing.
unfoldable pub process_due :
    (Text → Text)
    → Option Sender
    → Options
    → (Config → LockAnswer)
    → ℕ
    → World Tables GroupMessage
    → World Tables GroupMessage
unfolding process_listed
process_due lower none o lock now w = w
process_due lower (some sender) o lock now w =
    let (r, w') = list_due now o.batch_size o.shard_total o.shard_index w in
    process_listed lower o.sender_user_id sender lock now r w'

-- `StableRandomID`, an int64 as its bit pattern: `sum` is the first eight bytes of the SHA-1 sum,
-- and `-value` of a negative value is the two's complement.
unfoldable pub stable_random_id : (Text → ℕ) → Text → ℕ → ℕ
stable_random_id sum biz_id now_nanos =
    let v = sum biz_id % 18446744073709551616 in
    let a =
      if leb 9223372036854775808 v then (18446744073709551616 - v) % 18446744073709551616 else v in
    if a == 0 then now_nanos else a
