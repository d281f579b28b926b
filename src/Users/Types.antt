-- ===== src/Users/Types.antt =====
-- The rows that the user methods of backend/internal/store/store.go read and write, and their structs.
use hsgram_admin.Prelude.{ℕ, Bool, Option, List}
use hsgram_admin.Prelude.Text.{Text}

-- What the list and the detail have of a user.
pub record Profile : Type 0 where
  pub id : ℕ
  pub first_name : Text
  pub last_name : Text
  pub username : Text
  pub phone : Text
  pub country_code : Text
  pub verified : Bool
  pub support : Bool
  pub scam : Bool
  pub fake : Bool
  pub is_bot : Bool
  pub state : ℕ
  pub restricted : Bool
  pub restriction_reason : Text
  pub deleted : Bool
  pub delete_reason : Text
  pub created_at : ℕ
  pub updated_at : ℕ

-- A row of users.
pub record UserRow : Type 0 where
  pub profile : Profile
  pub about : Text
  pub account_days_ttl : ℕ
  pub photo_id : ℕ

-- UserSummary.
pub record Summary : Type 0 where
  pub profile : Profile
  pub display_name : Text

-- The columns of a session that only an older schema has.
pub record Device : Type 0 where
  pub device_model : Text
  pub platform : Text
  pub system_version : Text
  pub api_id : ℕ
  pub app_name : Text
  pub app_version : Text
  pub ip : Text
  pub country : Text
  pub region : Text

-- A row of auth_users. The column `date_active` has another name in an older schema.
pub record SessionRow : Type 0 where
  pub id : ℕ
  pub user_id : ℕ
  pub auth_key_id : ℕ
  pub hash : ℕ
  pub device : Device
  pub date_created : ℕ
  pub date_active : ℕ
  pub deleted : Bool

pub record Session : Type 0 where
  pub id : ℕ
  pub auth_key_id : ℕ
  pub hash : ℕ
  pub device : Device
  pub date_created : ℕ
  pub date_active : ℕ
  pub deleted : Bool

pub record AdminUser : Type 0 where
  pub id : ℕ
  pub username : Text
  pub role : Text

-- A row of admin_audit_logs; the metadata is JSON.
pub record AuditLog : Type 0 where
  pub id : ℕ
  pub actor : AdminUser
  pub action : Text
  pub target_user_id : ℕ
  pub metadata : Option Text
  pub created_at : ℕ

pub record Detail : Type 0 where
  pub summary : Summary
  pub about : Text
  pub account_days_ttl : ℕ
  pub photo_id : ℕ
  pub sessions : List Session
  pub audit_logs : List AuditLog

pub record Tables : Type 0 where
  pub users : List UserRow
  pub sessions : List SessionRow
  pub logs : List AuditLog
  pub next_log_id : ℕ

-- UserListFilter. A page or size that is not positive is 0.
pub record Filter : Type 0 where
  pub query : Text
  pub page : ℕ
  pub page_size : ℕ
  pub restricted : Option Bool
  pub deleted : Option Bool

pub record ListResult : Type 0 where
  pub items : List Summary
  pub total : ℕ
  pub page : ℕ
  pub page_size : ℕ

-- `sql.ErrNoRows`.
pub data UserError : Type 0 where
  no_rows : UserError

-- The database: a column LIKE a text between two `%`, whether an UPDATE counts the rows that
-- it finds or those that it changes, what the table makes of `updated_at` when it changes a row, and
-- whether auth_users has the columns of the device.
pub record Database : Type 0 where
  pub like : Text → Text → Bool
  pub found_rows : Bool
  pub stamp : ℕ → ℕ
  pub has_device : Bool
