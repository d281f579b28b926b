-- ===== src/AutoMessage/Types.antt =====
-- The types of backend/internal/store/auto_messages.go. Instants are whole seconds, as the
-- TIMESTAMP columns hold them; the columns created_at and updated_at, which MySQL fills and the
-- code never reads, are left out.
use hsgram_admin.Prelude.{ℕ, Bool, Option, List}
use hsgram_admin.Prelude.Text.{Text}

pub data Status : Type 0 where
  success failed : Status

-- The constants `Code…` of automessage/service.go.
pub data Code : Type 0 where
  no_permission no_enabled_items invalid_interval content_empty content_too_long : Code
  item_limit_exceeded group_dissolved system_muted no_send_permission send_failed : Code
  lock_failed config_not_found item_not_found version_conflict : Code

-- `ErrAutoMessage…`, `sql.ErrNoRows`, and the driver's error on the unique key of group_id.
pub data StoreError : Type 0 where
  err_config_not_found err_item_not_found err_conflict err_group_dissolved : StoreError
  err_no_rows err_duplicate_key : StoreError

-- An empty last_send_status or last_error_code is `none`.
pub record Config : Type 0 where
  pub id : ℕ
  pub group_id : ℕ
  pub enabled : Bool
  pub interval_minutes : ℕ
  pub send_mode : Text
  pub first_send_mode : Text
  pub current_index : ℕ
  pub next_send_at : Option ℕ
  pub last_send_at : Option ℕ
  pub last_send_status : Option Status
  pub last_error_code : Option Code
  pub last_error_message : Text
  pub admins_can_manage : Bool
  pub version : ℕ
  pub created_by : ℕ
  pub updated_by : ℕ

pub record Item : Type 0 where
  pub id : ℕ
  pub config_id : ℕ
  pub group_id : ℕ
  pub sort_order : ℕ
  pub content : Text
  pub content_type : Text
  pub enabled : Bool
  pub created_by : ℕ
  pub updated_by : ℕ

-- A row of group_auto_message_logs: a zero number and a blank text are stored as NULL.
pub record LogRow : Type 0 where
  pub id : ℕ
  pub group_id : ℕ
  pub config_id : ℕ
  pub item_id : Option ℕ
  pub content_snapshot : Option Text
  pub send_index : Option ℕ
  pub sent_at : ℕ
  pub status : Status
  pub error_code : Option Code
  pub error_message : Text
  pub message_id : Option ℕ

-- `AutoMessageLog`, with the zero values of a Go struct.
pub record Log : Type 0 where
  pub id : ℕ
  pub group_id : ℕ
  pub config_id : ℕ
  pub item_id : ℕ
  pub content_snapshot : Text
  pub send_index : ℕ
  pub sent_at : ℕ
  pub status : Status
  pub error_code : Option Code
  pub error_message : Text
  pub message_id : ℕ

pub record ConfigDetail : Type 0 where
  pub config : Config
  pub items : List Item
  pub enabled_item_count : ℕ
  pub next_item : Option Item

pub record LogList : Type 0 where
  pub items : List Log
  pub total : ℕ
  pub page : ℕ
  pub page_size : ℕ

pub record ItemInput : Type 0 where
  pub id : ℕ
  pub sort_order : ℕ
  pub content : Text
  pub content_type : Text
  pub enabled : Bool

pub record ConfigParams : Type 0 where
  pub enabled : Bool
  pub interval_minutes : ℕ
  pub send_mode : Text
  pub first_send_mode : Text
  pub admins_can_manage : Bool
  pub version : ℕ
  pub items : List ItemInput

-- What COALESCE(…, -1) gives for a user who is not in the group is `none`.
pub record GroupPermission : Type 0 where
  pub group_id : ℕ
  pub creator_user_id : ℕ
  pub deactivated : Bool
  pub participant_type : Option ℕ
  pub participant_state : Option ℕ
  pub admins_can_manage : Bool

pub record SendCandidate : Type 0 where
  pub config : Config
  pub item : Item
  pub send_index : ℕ
  pub biz_id : Text

pub record SendResult : Type 0 where
  pub is_success : Bool
  pub message_id : ℕ
  pub error_code : Option Code
  pub error_message : Text

-- The arguments of `Sender.SendGroupTextMessage`: what leaves the process.
pub record GroupMessage : Type 0 where
  pub sender_user_id : ℕ
  pub group_id : ℕ
  pub text : Text
  pub biz_id : Text

-- The constants of github.com/teamgram/proto/mtproto that the code compares with.
pub record Mtproto : Type 0 where
  pub chat_member_creator : ℕ
  pub chat_member_admin : ℕ
  pub chat_member_state_normal : ℕ
