-- ===== src/AutoMessage/History.antt =====
-- Everything that can happen to the tables: calls of the service's methods by any users, and ticks
-- of the scheduler, in any order and with any statements failing.
use hsgram_admin.Prelude.{ℕ, Bool, Option, none, some, List, [], ◌∷◌}
use hsgram_admin.Prelude.Text.{Text}
use hsgram_admin.Sql.{Result, ok, err, fault, World, raise, pure}
use hsgram_admin.Sql.Triple.{Triple-pure, Triple-raise}
use hsgram_admin.AutoMessage.Types.{
  StoreError, lock_failed, Config, ItemInput, ConfigParams, GroupMessage, Mtproto,
}
use hsgram_admin.AutoMessage.Tables.{Tables}
use hsgram_admin.AutoMessage.Process.{list_due, process_due_config}
use hsgram_admin.AutoMessage.Service.{
  get_config, save, enable, disable, add, update, delete, sort, logs, raw, coded, call_store,
}
use hsgram_admin.AutoMessage.Scheduler.{
  Options, LockAnswer, acquired, held, broken, Sender, send_group_message, process_one, process_all,
  process_listed, process_due,
}
use hsgram_admin.AutoMessage.Invariant.{Inv}
use hsgram_admin.AutoMessage.Preserve.{Any}
use hsgram_admin.AutoMessage.Preserve.Process.{list_due-Safe, process_due_config-Safe}
use hsgram_admin.AutoMessage.Preserve.Service.{
  Serves, Serves-call_store, get_config-Serves, save-Serves, enable-Serves, disable-Serves,
  add-Serves, update-Serves, delete-Serves, sort-Serves, logs-Serves,
}

-- What one user asks of one group.
pub data Request : Type 0 where
  ask_config ask_disable : Request
  ask_save : ConfigParams → ℕ → Request
  ask_enable : ℕ → ℕ → Request
  ask_add : ItemInput → Request
  ask_update : ℕ → ItemInput → Request
  ask_delete : ℕ → Request
  ask_sort : List ℕ → Request
  ask_logs : ℕ → ℕ → Request

pub data Event : Type 0 where
  request : ℕ → ℕ → Request → Event
  tick : Option Sender → Options → (Config → LockAnswer) → ℕ → Event

abbrev pub Live : Type 0
Live = World Tables GroupMessage

module _ (k : Mtproto) (found_rows : Bool) (lower : Text → Text) where
  unfoldable pub answer : ℕ → ℕ → Request → Live → Live
  answer actor g ask_config w = (get_config k actor g w).1
  answer actor g ask_disable w = (disable k actor g w).1
  answer actor g (ask_save params now) w = (save k actor g params now w).1
  answer actor g (ask_enable minutes now) w = (enable k actor g minutes now w).1
  answer actor g (ask_add input) w = (add k actor g input w).1
  answer actor g (ask_update i input) w = (update k found_rows actor g i input w).1
  answer actor g (ask_delete i) w = (delete k actor g i w).1
  answer actor g (ask_sort ids) w = (sort k actor g ids w).1
  answer actor g (ask_logs page size) w = (logs k actor g page size w).1

  happen : Event → Live → Live
  unfolding answer
  happen (request actor g r) w = answer actor g r w
  happen (tick sender o lock now) w = process_due lower sender o lock now w

  unfoldable pub history : List Event → Live → Live
  unfolding happen
  history [] w = w
  history (e ∷ es) w = history es (happen e w)

  answer-Inv :
      (actor g : ℕ) (r : Request) (w : Live) → Inv w.tables → Inv (answer actor g r w).tables
  unfolding answer
  answer-Inv actor g ask_config w h = ((get_config-Serves k actor g).run w h).0
  answer-Inv actor g ask_disable w h = ((disable-Serves k actor g).run w h).0
  answer-Inv actor g (ask_save params now) w h = ((save-Serves k actor g params now).run w h).0
  answer-Inv actor g (ask_enable minutes now) w h =
      ((enable-Serves k actor g minutes now).run w h).0
  answer-Inv actor g (ask_add input) w h = ((add-Serves k actor g input).run w h).0
  answer-Inv actor g (ask_update i input) w h =
      ((update-Serves k actor g found_rows i input).run w h).0
  answer-Inv actor g (ask_delete i) w h = ((delete-Serves k actor g i).run w h).0
  answer-Inv actor g (ask_sort ids) w h = ((sort-Serves k actor g ids).run w h).0
  answer-Inv actor g (ask_logs page size) w h = ((logs-Serves k actor g page size).run w h).0

  module _ (sender_user_id : ℕ) (sender : Sender) (lock : Config → LockAnswer) (now : ℕ) where
    process_one-Serves :
        (cfg : Config) → Serves (process_one lower sender_user_id sender lock now cfg) Any
    unfolding process_one
    process_one-Serves cfg = by_answer (lock cfg)
      where
        by_answer :
            (a : LockAnswer)
            → Serves
                (elim a [
                  | broken ↦ raise (coded lock_failed)
                  | held ↦ pure tt
                  | acquired ↦ call_store raw (
                      process_due_config
                        (send_group_message lower sender_user_id sender)
                        cfg.id
                        now)
                ])
                Any
        by_answer broken = Triple-raise _
        by_answer held = Triple-pure tt tt
        by_answer acquired = Serves-call_store raw (process_due_config-Safe _ cfg.id now)

    process_all-Inv :
        (cfgs : List Config) (w : Live)
        → Inv w.tables
        → Inv (process_all lower sender_user_id sender lock now cfgs w).tables
    unfolding process_all
    process_all-Inv [] w h = h
    process_all-Inv (cfg ∷ cfgs) w h = process_all-Inv cfgs _ ((process_one-Serves cfg).run w h).0

    process_listed-Inv :
        (r : Result StoreError (List Config)) (w : Live)
        → Inv w.tables
        → Inv (process_listed lower sender_user_id sender lock now r w).tables
    unfolding process_listed
    process_listed-Inv (ok cfgs) w h = process_all-Inv cfgs w h
    process_listed-Inv (err x) w h = h
    process_listed-Inv fault w h = h

  process_due-Inv :
      (sender : Option Sender) (o : Options) (lock : Config → LockAnswer) (now : ℕ) (w : Live)
      → Inv w.tables
      → Inv (process_due lower sender o lock now w).tables
  unfolding process_due
  process_due-Inv none o lock now w h = h
  process_due-Inv (some sender) o lock now w h =
      let (r, w') = list_due now o.batch_size o.shard_total o.shard_index w in
      process_listed-Inv o.sender_user_id sender lock now r w'
        ((list_due-Safe now o.batch_size o.shard_total o.shard_index).run w h).0

  happen-Inv : (e : Event) (w : Live) → Inv w.tables → Inv (happen e w).tables
  unfolding happen
  happen-Inv (request actor g r) w h = answer-Inv actor g r w h
  happen-Inv (tick sender o lock now) w h = process_due-Inv sender o lock now w h

  -- Whatever happens to the tables, in whatever order and whichever statements fail: if at the
  -- start every config that is enabled has a time to send at, every interval is one of 5 to 1440
  -- minutes, the ids of the configs are below the next id, and no two configs share an id or a
  -- group, then so it is at the end.
  pub history-Inv : (es : List Event) (w : Live) → Inv w.tables → Inv (history es w).tables
  unfolding history
  history-Inv [] w h = h
  history-Inv (e ∷ es) w h = history-Inv es (happen e w) (happen-Inv e w h)
