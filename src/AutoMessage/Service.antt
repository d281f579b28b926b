-- ===== src/AutoMessage/Service.antt =====
-- The methods of backend/internal/automessage/service.go. Redis is reached through the answers of
-- the lock, the messenger through the answers of the sender.
use hsgram_admin.Prelude.{
  ℕ, Bool, not, ◌&&◌, Option, none, some, List, ltb, leb, ◌==◌, if◌then◌else◌,
}
use hsgram_admin.Prelude.Lists.{length}
use hsgram_admin.Sql.{Result, ok, err, fault, Sql, pure, raise, ◌>>=◌, ◌>>◌}
use hsgram_admin.AutoMessage.Types.{
  Code, no_permission, no_enabled_items, invalid_interval, item_limit_exceeded, group_dissolved,
  config_not_found, item_not_found, version_conflict, StoreError, err_config_not_found,
  err_item_not_found, err_conflict, err_group_dissolved, err_no_rows, err_duplicate_key,
  ConfigDetail, LogList, ItemInput, ConfigParams, GroupMessage, Mtproto,
}
use hsgram_admin.AutoMessage.Tables.{Tables}
use hsgram_admin.AutoMessage.Store.{
  Store, can_manage, get_permission, get_config_detail, ensure_config,
}
use hsgram_admin.AutoMessage.Edit.{
  save_config, enable_config, disable_config, add_item, update_item_of, delete_item_of, sort_items,
}
use hsgram_admin.AutoMessage.Process.{list_logs}
use hsgram_admin.AutoMessage.Validate.{
  max_items, valid_interval, validate_item_input, validate_config_params, normalize_item_input,
  normalize_config_params,
}

-- `*Error`, by its code, or an error that the service passes on.
pub data ServiceError : Type 0 where
  coded : Code → ServiceError
  raw : StoreError → ServiceError

abbrev pub Service : Type 0 → Type 0
Service A = Sql Tables GroupMessage ServiceError A

abbrev pub map_store_error : StoreError → ServiceError
map_store_error err_config_not_found = coded config_not_found
map_store_error err_item_not_found = coded item_not_found
map_store_error err_conflict = coded version_conflict
map_store_error err_group_dissolved = coded group_dissolved
map_store_error err_no_rows = raw err_no_rows
map_store_error err_duplicate_key = raw err_duplicate_key

-- `Enable` gives its own code to a group with no enabled item.
abbrev pub map_enable_error : StoreError → ServiceError
map_enable_error err_item_not_found = coded no_enabled_items
map_enable_error err_config_not_found = coded config_not_found
map_enable_error err_conflict = coded version_conflict
map_enable_error err_group_dissolved = coded group_dissolved
map_enable_error err_no_rows = raw err_no_rows
map_enable_error err_duplicate_key = raw err_duplicate_key

abbrev pub relabel :
    {A : Type 0} → (StoreError → ServiceError) → Result StoreError A → Result ServiceError A
relabel f (ok a) = ok a
relabel f (err x) = err (f x)
relabel f fault = fault

-- A call of the store, whose errors come back as `f` says.
abbrev pub call_store : {A : Type 0} → (StoreError → ServiceError) → Store A → Service A
call_store f m w = let (r, w') = m w in (relabel f r, w')

abbrev pub reject : Option Code → Service (Unit {0})
reject none = pure tt
reject (some c) = raise (coded c)

-- The items that `AddItem` counts: none if the group has no config yet.
abbrev pub count_or_zero : Result StoreError ConfigDetail → Result ServiceError ℕ
count_or_zero (ok d) = ok (length d.items)
count_or_zero (err err_config_not_found) = ok 0
count_or_zero (err x) = err (raw x)
count_or_zero fault = fault

unfoldable pub current_item_count : ℕ → Service ℕ
current_item_count g w = let (r, w') = get_config_detail g w in (count_or_zero r, w')

module _ (k : Mtproto) where
  unfoldable pub require_manage_permission : ℕ → ℕ → Service (Unit {0})
  unfolding can_manage
  require_manage_permission actor g = if actor == 0 then raise (coded no_permission) else (do
    p ← call_store map_store_error (get_permission g actor)
    if p.deactivated
        then raise (coded group_dissolved)
        else if can_manage k p actor
        then pure tt
        else raise (coded no_permission))

  unfoldable pub get_config : ℕ → ℕ → Service ConfigDetail
  get_config actor g = do
    require_manage_permission actor g
    _ ← call_store raw (ensure_config g actor)
    call_store raw (get_config_detail g)

  unfoldable pub save : ℕ → ℕ → ConfigParams → ℕ → Service ConfigDetail
  save actor g params now = do
    require_manage_permission actor g
    reject (validate_config_params params)
    call_store raw (save_config g actor (normalize_config_params params) now)

  unfoldable pub enable : ℕ → ℕ → ℕ → ℕ → Service ConfigDetail
  enable actor g minutes now = do
    require_manage_permission actor g
    reject (if ltb 0 minutes && not (valid_interval minutes) then some invalid_interval else none)
    call_store map_enable_error (enable_config g actor minutes now)

  unfoldable pub disable : ℕ → ℕ → Service ConfigDetail
  disable actor g = do require_manage_permission actor g; call_store raw (disable_config g actor)

  unfoldable pub add : ℕ → ℕ → ItemInput → Service ConfigDetail
  unfolding current_item_count
  add actor g input = do
    require_manage_permission actor g
    count ← current_item_count g
    reject (if leb max_items count then some item_limit_exceeded else none)
    reject (validate_item_input input)
    call_store raw (add_item g actor (normalize_item_input input))

  unfoldable pub update : Bool → ℕ → ℕ → ℕ → ItemInput → Service ConfigDetail
  update found_rows actor g i input = do
    require_manage_permission actor g
    reject (validate_item_input input)
    call_store map_store_error (update_item_of found_rows g actor i (normalize_item_input input))

  unfoldable pub delete : ℕ → ℕ → ℕ → Service ConfigDetail
  delete actor g i = do
    require_manage_permission actor g
    call_store map_store_error (delete_item_of g actor i)

  unfoldable pub sort : ℕ → ℕ → List ℕ → Service ConfigDetail
  sort actor g ids = do
    require_manage_permission actor g
    reject (if length ids == 0 then some item_not_found else none)
    call_store map_store_error (sort_items g actor ids)

  unfoldable pub logs : ℕ → ℕ → ℕ → ℕ → Service LogList
  logs actor g page page_size = do
    require_manage_permission actor g
    call_store raw (list_logs g page page_size)
