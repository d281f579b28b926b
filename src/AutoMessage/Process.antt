-- ===== src/AutoMessage/Process.antt =====
-- The scheduler's side of backend/internal/store/auto_messages.go, and the list of the logs.
use hsgram_admin.Prelude.{
  ℕ, ◌+◌, ◌-◌, ◌*◌, ◌%◌, false, Option, none, some, List, [], ◌∷◌, ◌++◌, ltb, leb, if◌then◌else◌,
}
use hsgram_admin.Prelude.Lists.{length, get_elem?}
use hsgram_admin.Prelude.Text.{Text, codes}
use hsgram_admin.Prelude.Decimal.{show}
use hsgram_admin.Sql.{pure, query, exec, or_raise, send_out, transaction, ◌>>=◌, ◌>>◌}
use hsgram_admin.AutoMessage.Types.{
  success, failed, group_dissolved, no_enabled_items, err_config_not_found, Status, Code, Config,
  Item, Log, LogList, SendCandidate, SendResult, GroupMessage,
}
use hsgram_admin.AutoMessage.Tables.{config_by_id, update_config_any, list_items}
use hsgram_admin.AutoMessage.Queries.{insert_log, is_group_active, logs_of, log_page, due_configs}
use hsgram_admin.AutoMessage.Store.{Store, enabled_items, wrap_index}
use hsgram_admin.AutoMessage.Edit.{after_minutes}

abbrev pub page_size_of : ℕ → ℕ
page_size_of n = let m = if ltb n 1 then 20 else n in if ltb 100 m then 100 else m

unfoldable pub list_logs : ℕ → ℕ → ℕ → Store LogList
list_logs g page page_size = do
  let page' = if ltb page 1 then 1 else page
  let size = page_size_of page_size
  total ← query (λ t. length (logs_of g t))
  items ← query (log_page g size ((page' - 1) * size))
  pure (record { items = items; total = total; page = page'; page_size = size })

unfoldable pub list_due : ℕ → ℕ → ℕ → ℕ → Store (List Config)
list_due now limit total index =
    query (due_configs now (if leb limit 0 then 500 else limit) total index)

-- The callback: the message that it sends for a candidate, and what it reports.
abbrev pub Send : Type 0
Send = SendCandidate → GroupMessage × SendResult

-- `fmt.Sprintf("auto_message:%d:%d:%d:%d", …)`.
unfoldable pub biz_id_of : ℕ → ℕ → ℕ → ℕ → Text
biz_id_of config_id at index item_id =
    codes "auto_message:"
    ++ (show config_id
        ++ (codes ":" ++ (show at ++ (codes ":" ++ (show index ++ (codes ":" ++ show item_id))))))

unfoldable pub candidate_of : Config → ℕ → ℕ → Item → SendCandidate
candidate_of cfg at index item = record {
  config = cfg;
  item = item;
  send_index = index + 1;
  biz_id = biz_id_of cfg.id at index item.id;
}

abbrev pub failure_log : Config → ℕ → Code → Text → Log
failure_log cfg now code message = record {
  id = 0;
  group_id = cfg.group_id;
  config_id = cfg.id;
  item_id = 0;
  content_snapshot = [];
  send_index = 0;
  sent_at = now;
  status = failed;
  error_code = some code;
  error_message = message;
  message_id = 0;
}

abbrev pub dissolve_row : ℕ → Config → Config
dissolve_row now c = record c {
  enabled = false;
  next_send_at = none;
  last_send_at = some now;
  last_send_status = some failed;
  last_error_code = some group_dissolved;
  last_error_message = codes "group is dissolved";
  version = c.version + 1;
}

abbrev pub idle_row : ℕ → ℕ → Config → Config
idle_row now minutes c = record c {
  next_send_at = some (after_minutes now minutes);
  last_send_at = some now;
  last_send_status = some failed;
  last_error_code = some no_enabled_items;
  last_error_message = codes "no enabled auto message items";
  version = c.version + 1;
}

abbrev pub status_of : SendResult → Status
status_of r = if r.is_success then success else failed

abbrev pub sent_log : Config → ℕ → SendCandidate → SendResult → Log
sent_log cfg now candidate r = record {
  id = 0;
  group_id = cfg.group_id;
  config_id = cfg.id;
  item_id = candidate.item.id;
  content_snapshot = candidate.item.content;
  send_index = candidate.send_index;
  sent_at = now;
  status = status_of r;
  error_code = r.error_code;
  error_message = r.error_message;
  message_id = r.message_id;
}

abbrev pub next_index : SendResult → ℕ → ℕ → ℕ
next_index r index n = if r.is_success then (index + 1) % n else index

abbrev pub advance_row : ℕ → ℕ → ℕ → ℕ → SendResult → Config → Config
advance_row now minutes index n r c = record c {
  current_index = next_index r index n;
  next_send_at = some (after_minutes now minutes);
  last_send_at = some now;
  last_send_status = some (status_of r);
  last_error_code = r.error_code;
  last_error_message = r.error_message;
  version = c.version + 1;
}

-- From `result := send(candidate)` on.
unfoldable pub send_candidate : Send → Config → ℕ → ℕ → ℕ → SendCandidate → Store (Unit {0})
send_candidate send cfg now index n candidate = do
  let (message, result) = send candidate
  send_out message
  exec (insert_log (sent_log cfg now candidate result))
  exec (update_config_any cfg.id (advance_row now cfg.interval_minutes index n result))

-- From `enabled := enabledItems(items)` on. An index inside the slice always has an item, so the
-- last case is never taken.
unfoldable pub process_enabled : Send → Config → ℕ → ℕ → List Item → Store (Unit {0})
unfolding send_candidate candidate_of
process_enabled send cfg now at [] = do
  exec (insert_log (failure_log cfg now no_enabled_items (codes "no enabled auto message items")))
  exec (update_config_any cfg.id (idle_row now cfg.interval_minutes))
process_enabled send cfg now at (x ∷ xs) =
    let n = length (x ∷ xs) in
    let index = wrap_index cfg.current_index n in
    elim (get_elem? (x ∷ xs) index) [
      | some item ↦ send_candidate send cfg now index n (candidate_of cfg at index item)
      | none ↦ pure tt
    ]

-- From `isAutoMessageGroupActiveTx` on.
unfoldable pub process_due_row : Send → Config → ℕ → ℕ → Store (Unit {0})
unfolding process_enabled enabled_items
process_due_row send cfg now at = do
  active ← query (is_group_active cfg.group_id)
  if active
      then (do
        items ← query (list_items cfg.id false)
        process_enabled send cfg now at (enabled_items items))
      else (do
        exec (insert_log (failure_log cfg now group_dissolved (codes "group is dissolved")))
        exec (update_config_any cfg.id (dissolve_row now)))

-- `cfg.Enabled`, with the `NextSendAt` that is there and not after `now`.
unfoldable pub due_at : Config → ℕ → Option ℕ
due_at cfg now =
    if cfg.enabled
    then elim (cfg.next_send_at) [ none ↦ none | some at ↦ if ltb now at then none else some at ]
    else none

unfoldable pub process_body : Send → ℕ → ℕ → Store (Unit {0})
process_body send config_id now = do
  found ← query (config_by_id config_id)
  cfg ← or_raise err_config_not_found found
  elim (due_at cfg now) [ none ↦ pure tt | some at ↦ process_due_row send cfg now at ]

-- `ProcessDueAutoMessageConfig`: every path that returns no error ends in `tx.Commit()`.
unfoldable pub process_due_config : Send → ℕ → ℕ → Store (Unit {0})
unfolding process_body
process_due_config send config_id now = transaction (process_body send config_id now)
