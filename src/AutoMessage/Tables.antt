-- ===== src/AutoMessage/Tables.antt =====
-- The tables of the automatic messages and the SQL statements of
-- backend/internal/store/auto_messages.go, each as a function of the tables. A table is the list
-- of its rows, newest first.
use hsgram_admin.Prelude.{
  ℕ, ◌+◌, Bool, true, false, not, ◌&&◌, ◌||◌, Option, none, some, List, [], ◌∷◌, map, ltb, leb,
  ◌==◌, if◌then◌else◌,
}
use mathlib.Core.Option
use hsgram_admin.Prelude.Lists.{length, rows_where, first_where, any_where, update_where, order_by}
use hsgram_admin.Prelude.Text.{Text, codes, text_eq}
use hsgram_admin.AutoMessage.Types.{Config, Item, ItemInput, LogRow}

-- A row of group_auto_message_config; `deleted` is `deleted_at IS NOT NULL`.
pub record ConfigRow : Type 0 where
  pub config : Config
  pub open config use *
  pub deleted : Bool

pub record ItemRow : Type 0 where
  pub item : Item
  pub open item use *
  pub deleted : Bool

-- The columns that are read of `chats` and `chat_participants`, the server's own tables.
pub record Chat : Type 0 where
  pub id : ℕ
  pub creator_user_id : ℕ
  pub deactivated : Bool

pub record Participant : Type 0 where
  pub chat_id : ℕ
  pub user_id : ℕ
  pub participant_type : ℕ
  pub state : ℕ

pub record Tables : Type 0 where
  pub configs : List ConfigRow
  pub items : List ItemRow
  pub logs : List LogRow
  pub next_config_id : ℕ
  pub next_item_id : ℕ
  pub next_log_id : ℕ
  pub chats : List Chat
  pub participants : List Participant

abbrev pub is_live : ConfigRow → Bool
is_live r = not r.deleted

-- SELECT … WHERE group_id = ? AND deleted_at IS NULL.
unfoldable pub config_by_group : ℕ → Tables → Option Config
config_by_group g t =
    Option.map (λ (r : ConfigRow). r.config)
      (first_where (λ r. r.group_id == g && is_live r) t.configs)

-- SELECT … WHERE id = ? AND deleted_at IS NULL.
unfoldable pub config_by_id : ℕ → Tables → Option Config
config_by_id i t =
    Option.map (λ (r : ConfigRow). r.config) (first_where (λ r. r.id == i && is_live r) t.configs)

-- The row that the INSERT of `EnsureAutoMessageConfig` makes.
unfoldable pub new_config : ℕ → ℕ → ℕ → Config
new_config i g actor = record {
  id = i;
  group_id = g;
  enabled = false;
  interval_minutes = 30;
  send_mode = codes "sequence";
  first_send_mode = codes "delay";
  current_index = 0;
  next_send_at = none;
  last_send_at = none;
  last_send_status = none;
  last_error_code = none;
  last_error_message = [];
  admins_can_manage = true;
  version = 0;
  created_by = actor;
  updated_by = actor;
}

-- The INSERT, which the unique key of group_id refuses where the group has a row, deleted or not.
unfoldable pub insert_config : ℕ → ℕ → Tables → Option ℕ × Tables
insert_config g actor t =
    if any_where (λ (r : ConfigRow). r.group_id == g) t.configs then (none, t) else (
      some t.next_config_id,
      record t {
        configs =
            record { config = new_config t.next_config_id g actor; deleted = false } ∷ t.configs;
        next_config_id = t.next_config_id + 1;
      },
    )

abbrev pub edit_config : (Config → Config) → ConfigRow → ConfigRow
edit_config f r = record { config = f r.config; deleted = r.deleted }

-- UPDATE … WHERE id = ? AND deleted_at IS NULL.
unfoldable pub update_config : ℕ → (Config → Config) → Tables → Tables
update_config i f t = record t {
  configs = update_where (λ r. r.id == i && is_live r) (edit_config f) t.configs;
}

-- UPDATE … WHERE id = ?, deleted or not.
unfoldable pub update_config_any : ℕ → (Config → Config) → Tables → Tables
update_config_any i f t = record t {
  configs = update_where (λ r. r.id == i) (edit_config f) t.configs;
}

-- ORDER BY sort_order ASC, id ASC.
abbrev pub item_before : Item → Item → Bool
item_before a b = ltb a.sort_order b.sort_order || (a.sort_order == b.sort_order && leb a.id b.id)

-- `listAutoMessageItemsWithDB`.
unfoldable pub list_items : ℕ → Bool → Tables → List Item
list_items config_id include_deleted t = order_by item_before (
    map (λ (r : ItemRow). r.item)
      (rows_where (λ r. r.config_id == config_id && (include_deleted || not r.deleted)) t.items))

-- `countAutoMessageItems`.
unfoldable pub count_items : ℕ → Tables → ℕ
count_items config_id t =
    length (rows_where (λ (r : ItemRow). r.config_id == config_id && not r.deleted) t.items)

unfoldable pub insert_item : ℕ → ℕ → ℕ → Text → ItemInput → ℕ → Tables → Tables
insert_item config_id group_id sort_order content_type input actor t = record t {
  items =
      record {
        item = record {
          id = t.next_item_id;
          config_id = config_id;
          group_id = group_id;
          sort_order = sort_order;
          content = input.content;
          content_type = content_type;
          enabled = input.enabled;
          created_by = actor;
          updated_by = actor;
        };
        deleted = false;
      }
      ∷ t.items;
  next_item_id = t.next_item_id + 1;
}

-- SELECT current_index … WHERE id = ?, of `normalizeAutoMessageCurrentIndex`.
unfoldable pub config_row_index : ℕ → Tables → Option ℕ
config_row_index i t =
    Option.map (λ (r : ConfigRow). r.current_index) (first_where (λ r. r.id == i) t.configs)

abbrev pub edit_item : (Item → Item) → ItemRow → ItemRow
edit_item f r = record { item = f r.item; deleted = r.deleted }

-- UPDATE … WHERE id = ? AND config_id = ? AND deleted_at IS NULL.
abbrev pub is_item_of : ℕ → ℕ → ItemRow → Bool
is_item_of i config_id r = r.id == i && r.config_id == config_id && not r.deleted

unfoldable pub update_item : ℕ → ℕ → (Item → Item) → Tables → Tables
update_item i config_id f t = record t {
  items = update_where (is_item_of i config_id) (edit_item f) t.items;
}

-- SET deleted_at = CURRENT_TIMESTAMP, updated_by = ?.
abbrev pub retire : ℕ → ItemRow → ItemRow
retire actor r = record { item = record r.item { updated_by = actor }; deleted = true }

unfoldable pub delete_item : ℕ → ℕ → ℕ → Tables → Tables
delete_item i config_id actor t = record t {
  items = update_where (is_item_of i config_id) (retire actor) t.items;
}

-- WHERE id = ? AND config_id = ? AND group_id = ? AND deleted_at IS NULL.
abbrev pub is_group_item : ℕ → ℕ → ℕ → ItemRow → Bool
is_group_item i config_id g r =
    r.id == i && r.config_id == config_id && r.group_id == g && not r.deleted

abbrev pub rewrite_item : ItemInput → Text → ℕ → Item → Item
rewrite_item input content_type actor it = record it {
  content = input.content;
  content_type = content_type;
  enabled = input.enabled;
  updated_by = actor;
}

abbrev bool_eq : Bool → Bool → Bool
bool_eq true b = b
bool_eq false b = not b

-- Whether the UPDATE of `UpdateAutoMessageItem` changes a column of the row.
unfoldable pub is_changed : ItemInput → Text → ℕ → ItemRow → Bool
is_changed input content_type actor r = not (
    text_eq r.content input.content
    && text_eq r.content_type content_type
    && bool_eq r.enabled input.enabled
    && r.updated_by == actor)

-- The UPDATE of `UpdateAutoMessageItem`, with `RowsAffected() != 0`. MySQL counts the rows that
-- the WHERE finds if the connection sets clientFoundRows, and else those that change.
unfoldable pub update_group_item : Bool → ℕ → ℕ → ℕ → ItemInput → Text → ℕ → Tables → Bool × Tables
unfolding is_changed
update_group_item found_rows i config_id g input content_type actor t = (
  any_where
      (λ r. is_group_item i config_id g r && (found_rows || is_changed input content_type actor r))
      t.items,
  record t {
    items =
        update_where (is_group_item i config_id g)
          (edit_item (rewrite_item input content_type actor)) t.items;
  },
)

-- The UPDATE of `DeleteAutoMessageItem`, which changes every row that it finds.
unfoldable pub delete_group_item : ℕ → ℕ → ℕ → ℕ → Tables → Bool × Tables
delete_group_item i config_id g actor t = (
  any_where (is_group_item i config_id g) t.items,
  record t { items = update_where (is_group_item i config_id g) (retire actor) t.items },
)
