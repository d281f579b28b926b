-- ===== src/AutoMessage/Store.antt =====
-- The methods of backend/internal/store/auto_messages.go, over the statements of `Tables`.
use hsgram_admin.Prelude.{
  ℕ, suc, ◌+◌, Bool, false, ◌&&◌, ◌||◌, Option, none, some, List, [], ◌∷◌, ltb, leb, ◌==◌,
  if◌then◌else◌,
}
use hsgram_admin.Prelude.Lists.{length, get_elem?, any_where}
use hsgram_admin.Prelude.Text.{Text, codes, is_empty, trim}
use hsgram_admin.Sql.{Sql, pure, raise, query, exec, statement, or_raise, ◌>>=◌, ◌>>◌}
use hsgram_admin.AutoMessage.Types.{
  StoreError, err_config_not_found, err_item_not_found, err_no_rows, err_duplicate_key, Config,
  Item, ConfigDetail, ItemInput, GroupPermission, GroupMessage, Mtproto,
}
use hsgram_admin.AutoMessage.Tables.{
  Tables, config_by_group, config_by_id, insert_config, list_items, insert_item, update_item,
}
use hsgram_admin.AutoMessage.Queries.{group_permission}

-- What a method of the store is: it may write the tables, and its callback sends group messages.
abbrev pub Store : Type 0 → Type 0
Store A = Sql Tables GroupMessage StoreError A

abbrev pub is_at : Option ℕ → ℕ → Bool
is_at none n = false
is_at (some m) n = m == n

-- `AutoMessageGroupPermission.CanManage`.
unfoldable pub can_manage : Mtproto → GroupPermission → ℕ → Bool
can_manage k p actor =
    if actor == 0 || p.deactivated
    then false
    else if p.creator_user_id == actor || is_at p.participant_type k.chat_member_creator
    then is_at p.participant_state k.chat_member_state_normal
    else if is_at p.participant_type k.chat_member_admin
    then is_at p.participant_state k.chat_member_state_normal && p.admins_can_manage
    else false

unfoldable pub get_permission : ℕ → ℕ → Store GroupPermission
get_permission g actor = do p ← query (group_permission g actor); or_raise err_no_rows p

unfoldable pub enabled_items : List Item → List Item
enabled_items [] = []
enabled_items (x ∷ xs) = let rest = enabled_items xs in if x.enabled then x ∷ rest else rest

unfoldable pub count_enabled : List Item → ℕ
count_enabled [] = 0
count_enabled (x ∷ xs) = let rest = count_enabled xs in if x.enabled then suc rest else rest

abbrev pub wrap_index : ℕ → ℕ → ℕ
wrap_index i n = if leb n i then 0 else i

unfoldable pub make_detail : Config → List Item → ConfigDetail
unfolding enabled_items count_enabled
make_detail cfg items = record {
  config = cfg;
  items = items;
  enabled_item_count = count_enabled items;
  next_item =
      if ltb 0 (count_enabled items)
      then get_elem? (enabled_items items)
          (wrap_index cfg.current_index (length (enabled_items items)))
      else none;
}

unfoldable pub get_config_detail : ℕ → Store ConfigDetail
unfolding make_detail
get_config_detail g = do
  found ← query (config_by_group g)
  cfg ← or_raise err_config_not_found found
  items ← query (list_items cfg.id false)
  pure (make_detail cfg items)

-- `EnsureAutoMessageConfig` reads the new row by its group, and `ensureAutoMessageConfigTx` by its
-- id.
unfoldable pub ensure_config : ℕ → ℕ → Store Config
ensure_config g actor = do
  found ← query (config_by_group g)
  elim found [
    | some cfg ↦ pure cfg
    | none ↦ do
      made ← statement (insert_config g actor)
      _ ← or_raise err_duplicate_key made
      found' ← query (config_by_group g)
      or_raise err_config_not_found found'
  ]

unfoldable pub ensure_config_tx : ℕ → ℕ → Store Config
ensure_config_tx g actor = do
  found ← query (config_by_group g)
  elim found [
    | some cfg ↦ pure cfg
    | none ↦ do
      made ← statement (insert_config g actor)
      i ← or_raise err_duplicate_key made
      found' ← query (config_by_id i)
      or_raise err_config_not_found found'
  ]

abbrev pub or_default : ℕ → ℕ → ℕ
or_default n d = if leb n 0 then d else n

unfoldable pub content_type_of : ItemInput → Text
content_type_of input = let s = trim input.content_type in if is_empty s then codes "text" else s

unfoldable pub item_belongs_to : List Item → ℕ → Bool
item_belongs_to items i = any_where (λ (x : Item). x.id == i) items

-- The first loop of `SaveAutoMessageConfig`: the inputs from index `i` on. It returns `seen`.
unfoldable pub save_items : ℕ → ℕ → ℕ → List Item → ℕ → List ItemInput → List ℕ → Store (List ℕ)
unfolding content_type_of item_belongs_to
save_items config_id g actor existing i [] seen = pure seen
save_items config_id g actor existing i (input ∷ inputs) seen =
    if ltb 0 input.id
    then (if item_belongs_to existing input.id
        then (do
          exec (
              update_item input.id config_id (λ it. record it {
                sort_order = or_default input.sort_order (i + 1);
                content = input.content;
                content_type = content_type_of input;
                enabled = input.enabled;
                updated_by = actor;
              }))
          save_items config_id g actor existing (i + 1) inputs (input.id ∷ seen))
        else raise err_item_not_found)
    else (do
      exec (
          insert_item config_id g (or_default input.sort_order (i + 1)) (content_type_of input)
            input actor)
      save_items config_id g actor existing (i + 1) inputs seen)
