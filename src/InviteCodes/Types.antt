-- ===== src/InviteCodes/Types.antt =====
-- The structs of backend/internal/invitecodes/service.go, and the keys of the store that it uses.
use hsgram_admin.Prelude.{ℕ, Bool, Option, List}
use hsgram_admin.Prelude.Integer.{ℤ}
use hsgram_admin.Prelude.Text.{Text}
use hsgram_admin.Sql.{Sql}

pub record Code : Type 0 where
  pub code : Text
  pub note : Text
  pub max_uses : ℕ
  pub used_count : ℕ
  pub enabled : Bool
  pub created_by : Text
  pub created_at : ℕ
  pub updated_at : ℕ

pub record Usage : Type 0 where
  pub usage_id : Text
  pub phone : Text
  pub user_id : ℕ
  pub status : Text
  pub used_at : ℕ

pub record Detail : Type 0 where
  pub code : Code
  pub usages : List Usage

pub record CreateRequest : Type 0 where
  pub code : Text
  pub note : Text
  pub max_uses : ℤ

pub record Settings : Type 0 where
  pub enabled : Bool
  pub updated_at : ℕ

-- A field of a hash with its value.
pub record Field : Type 0 where
  pub name : Text
  pub value : Text

-- `codes` is the hash under codesHashKey, `uses` the hash for the key of a code, `settings` the value
-- under settingsCacheKey.
pub record Store : Type 0 where
  pub codes : List Field
  pub uses : Text → List Field
  pub settings : Option Text

pub data InviteError : Type 0 where
  code_exists code_not_found code_invalid bad_json : InviteError

-- Upper case, and JSON.
pub record Outside : Type 0 where
  pub upper : Text → Text
  pub encode_code : Code → Text
  pub decode_code : Text → Option Code
  pub decode_usage : Text → Option Usage
  pub encode_settings : Settings → Text
  pub decode_settings : Text → Option Settings

abbrev pub Action : Type 0 → Type 0
Action A = Sql Store (Unit {0}) InviteError A
