-- ===== src/Broadcast/Types.antt =====
-- The structs of backend/internal/store/broadcast.go and the rows of the tables that it reads.
use hsgram_admin.Prelude.{ℕ, Bool, Option, List}
use hsgram_admin.Prelude.Text.{Text}
use hsgram_admin.Sql.{Sql}

pub data BroadcastStatus : Type 0 where
  pending : BroadcastStatus
  running : BroadcastStatus
  completed : BroadcastStatus
  failed : BroadcastStatus

pub data DeliveryStatus : Type 0 where
  delivery_sent : DeliveryStatus
  delivery_failed : DeliveryStatus

-- The errors that the code makes itself, and `sql.ErrNoRows`.
pub data BroadcastError : Type 0 where
  no_rows : BroadcastError
  no_selected_recipients : BroadcastError
  unsupported_target_type : Text → BroadcastError
  bad_payload : BroadcastError
  message_text_required : BroadcastError
  no_broadcast_recipients : BroadcastError
  no_valid_users : BroadcastError

pub record BroadcastFilters : Type 0 where
  pub restricted : Option Bool
  pub deleted : Option Bool
  pub is_bot : Option Bool
  pub country_code : Text

pub record TargetSpec : Type 0 where
  pub target_type : Text
  pub resolved_user_ids : List ℕ
  pub source_values : List Text
  pub filters : BroadcastFilters

-- A row of `users`, with the columns that are read here.
pub record User : Type 0 where
  pub id : ℕ
  pub first_name : Text
  pub last_name : Text
  pub username : Text
  pub phone : Text
  pub country_code : Text
  pub restricted : Bool
  pub deleted : Bool
  pub is_bot : Bool

pub record Recipient : Type 0 where
  pub user_id : ℕ
  pub display_name : Text
  pub username : Text
  pub phone : Text
  pub country_code : Text
  pub restricted : Bool
  pub deleted : Bool
  pub is_bot : Bool

pub record Preview : Type 0 where
  pub count : ℕ
  pub sample_users : List Recipient
  pub unresolved : List Text

-- `target_spec` is the JSON of the column.
pub record BroadcastRecord : Type 0 where
  pub id : ℕ
  pub sender_user_id : ℕ
  pub sender_display_name : Text
  pub message_text : Text
  pub target_type : Text
  pub target_spec : Text
  pub status : BroadcastStatus
  pub total_targets : ℕ
  pub success_count : ℕ
  pub failure_count : ℕ
  pub error_message : Text
  pub created_by_admin_id : ℕ
  pub created_by_username : Text
  pub created_by_role : Text
  pub started_at : Option ℕ
  pub completed_at : Option ℕ
  pub created_at : ℕ

pub record Delivery : Type 0 where
  pub id : ℕ
  pub broadcast_id : ℕ
  pub target_user_id : ℕ
  pub target_display_name : Text
  pub status : DeliveryStatus
  pub error_message : Text
  pub sent_at : Option ℕ

pub record AdminUser : Type 0 where
  pub id : ℕ
  pub username : Text
  pub role : Text

pub record BroadcastTables : Type 0 where
  pub users : List User
  pub broadcasts : List BroadcastRecord
  pub deliveries : List Delivery
  pub next_broadcast_id : ℕ
  pub next_delivery_id : ℕ

-- What `SendTextMessage` is called with.
pub record UserMessage : Type 0 where
  pub sender_user_id : ℕ
  pub target_user_id : ℕ
  pub text : Text

abbrev pub Db : Type 0 → Type 0
Db = Sql BroadcastTables UserMessage BroadcastError
