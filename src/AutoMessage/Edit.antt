-- ===== src/AutoMessage/Edit.antt =====
-- The methods of backend/internal/store/auto_messages.go that the members of a group call.
use hsgram_admin.Prelude.{
  ℕ, ◌+◌, ◌*◌, Bool, true, false, some, List, [], ◌∷◌, ltb, ◌==◌, not, ◌&&◌, ◌||◌, if◌then◌else◌,
}
use hsgram_admin.Prelude.Lists.{length, contains}
use hsgram_admin.Sql.{pure, raise, query, exec, statement, or_raise, transaction, ◌>>=◌, ◌>>◌}
use hsgram_admin.AutoMessage.Types.{
  err_item_not_found, err_conflict, err_no_rows, Config, Item, ConfigDetail, ItemInput,
  ConfigParams,
}
use hsgram_admin.AutoMessage.Tables.{
  config_row_index, update_config, update_config_any, list_items, count_items, insert_item,
  update_item, delete_item, update_group_item, delete_group_item,
}
use hsgram_admin.AutoMessage.Store.{
  Store, get_config_detail, ensure_config, ensure_config_tx, count_enabled, or_default,
  content_type_of, item_belongs_to, save_items,
}

-- `now.Add(time.Duration(minutes) * time.Minute)`.
abbrev pub after_minutes : ℕ → ℕ → ℕ
after_minutes now minutes = now + 60 * minutes

-- The second loop of `SaveAutoMessageConfig`: what the request does not list is deleted.
unfoldable pub delete_unseen : ℕ → ℕ → List ℕ → List Item → Store (Unit {0})
delete_unseen config_id actor seen [] = pure tt
delete_unseen config_id actor seen (x ∷ xs) =
    if contains x.id seen
    then delete_unseen config_id actor seen xs
    else (do exec (delete_item x.id config_id actor); delete_unseen config_id actor seen xs)

abbrev pub save_row : ConfigParams → ℕ → ℕ → Config → Config → Config
save_row params actor now cfg c = record c {
  enabled = params.enabled;
  interval_minutes = params.interval_minutes;
  send_mode = params.send_mode;
  first_send_mode = params.first_send_mode;
  current_index = if params.enabled then 0 else cfg.current_index;
  next_send_at =
      if params.enabled then some (after_minutes now params.interval_minutes) else cfg.next_send_at;
  admins_can_manage = params.admins_can_manage;
  updated_by = actor;
  version = c.version + 1;
}

unfoldable pub save_body : ℕ → ℕ → ConfigParams → ℕ → Store (Unit {0})
unfolding ensure_config_tx save_items delete_unseen
save_body g actor params now = do
  cfg ← ensure_config_tx g actor
  if ltb 0 params.version && not (params.version == cfg.version) then raise err_conflict else (do
    existing ← query (list_items cfg.id true)
    seen ← save_items cfg.id g actor existing 0 params.items []
    delete_unseen cfg.id actor seen existing
    exec (update_config cfg.id (save_row params actor now cfg)))

unfoldable pub save_config : ℕ → ℕ → ConfigParams → ℕ → Store ConfigDetail
unfolding save_body get_config_detail
save_config g actor params now = do transaction (save_body g actor params now); get_config_detail g

abbrev pub enable_row : ℕ → ℕ → ℕ → Config → Config
enable_row minutes actor now c = record c {
  enabled = true;
  interval_minutes = minutes;
  current_index = 0;
  next_send_at = some (after_minutes now minutes);
  updated_by = actor;
  version = c.version + 1;
}

unfoldable pub enable_body : ℕ → ℕ → ℕ → ℕ → Store (Unit {0})
unfolding ensure_config_tx count_enabled
enable_body g actor minutes now = do
  cfg ← ensure_config_tx g actor
  items ← query (list_items cfg.id false)
  if count_enabled items == 0
      then raise err_item_not_found
      else exec
          (update_config cfg.id (enable_row (or_default minutes cfg.interval_minutes) actor now))

unfoldable pub enable_config : ℕ → ℕ → ℕ → ℕ → Store ConfigDetail
unfolding enable_body get_config_detail
enable_config g actor minutes now = do
  transaction (enable_body g actor minutes now)
  get_config_detail g

abbrev pub disable_row : ℕ → Config → Config
disable_row actor c = record c { enabled = false; updated_by = actor; version = c.version + 1 }

unfoldable pub disable_config : ℕ → ℕ → Store ConfigDetail
unfolding ensure_config get_config_detail
disable_config g actor = do
  cfg ← ensure_config g actor
  exec (update_config cfg.id (disable_row actor))
  get_config_detail g

unfoldable pub add_item : ℕ → ℕ → ItemInput → Store ConfigDetail
unfolding ensure_config get_config_detail content_type_of
add_item g actor input = do
  cfg ← ensure_config g actor
  count ← query (count_items cfg.id)
  exec (
      insert_item cfg.id g (or_default input.sort_order (count + 1)) (content_type_of input) input
        actor)
  get_config_detail g

abbrev pub reset_index : Config → Config
reset_index c = record c { current_index = 0; version = c.version + 1 }

-- `normalizeAutoMessageCurrentIndex`.
unfoldable pub normalize_current_index : ℕ → Store (Unit {0})
unfolding count_enabled
normalize_current_index config_id = do
  row ← query (config_row_index config_id)
  index ← or_raise err_no_rows row
  items ← query (list_items config_id false)
  if count_enabled items == 0 || ltb index (count_enabled items)
      then pure tt
      else exec (update_config_any config_id reset_index)

unfoldable pub update_item_of : Bool → ℕ → ℕ → ℕ → ItemInput → Store ConfigDetail
unfolding ensure_config get_config_detail content_type_of normalize_current_index
update_item_of found_rows g actor i input = do
  cfg ← ensure_config g actor
  affected ← statement (update_group_item found_rows i cfg.id g input (content_type_of input) actor)
  if affected
      then (do normalize_current_index cfg.id; get_config_detail g)
      else raise err_item_not_found

unfoldable pub delete_item_of : ℕ → ℕ → ℕ → Store ConfigDetail
unfolding ensure_config get_config_detail normalize_current_index
delete_item_of g actor i = do
  cfg ← ensure_config g actor
  affected ← statement (delete_group_item i cfg.id g actor)
  if affected
      then (do normalize_current_index cfg.id; get_config_detail g)
      else raise err_item_not_found

abbrev pub sort_row : ℕ → ℕ → Item → Item
sort_row order actor it = record it { sort_order = order; updated_by = actor }

-- The loop of `SortAutoMessageItems`, from the position `order` on.
unfoldable pub sort_loop : ℕ → ℕ → List Item → ℕ → List ℕ → List ℕ → Store (Unit {0})
unfolding item_belongs_to
sort_loop config_id actor existing order [] seen = pure tt
sort_loop config_id actor existing order (i ∷ is) seen =
    if not (item_belongs_to existing i) || contains i seen then raise err_item_not_found else (do
      exec (update_item i config_id (sort_row (order + 1) actor))
      sort_loop config_id actor existing (order + 1) is (i ∷ seen))

unfoldable pub sort_body : ℕ → ℕ → List ℕ → Store (Unit {0})
unfolding sort_loop
sort_body config_id actor ids = do
  existing ← query (list_items config_id true)
  if length ids == length existing
      then (do
        sort_loop config_id actor existing 0 ids []
        exec (
            update_config_any config_id
              (λ c. record c { version = c.version + 1; updated_by = actor })))
      else raise err_item_not_found

unfoldable pub sort_items : ℕ → ℕ → List ℕ → Store ConfigDetail
unfolding ensure_config sort_body normalize_current_index get_config_detail
sort_items g actor ids = do
  cfg ← ensure_config g actor
  transaction (sort_body cfg.id actor ids)
  normalize_current_index cfg.id
  get_config_detail g
