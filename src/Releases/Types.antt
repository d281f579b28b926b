-- ===== src/Releases/Types.antt =====
-- The rows of the release tables and what the methods of backend/internal/store/releases.go take and
-- return. `updated_at` is left out: no operation reads it.
use hsgram_admin.Prelude.{ℕ, Bool, Option, List, ◌&&◌}
use hsgram_admin.Prelude.Integer.{ℤ}
use hsgram_admin.Prelude.Text.{Text, text_eq}
use hsgram_admin.Sql.{Sql}

pub data Status : Type 0 where
  draft : Status
  published : Status

-- Platform, channel and architecture, all of them normalised words.
pub record Place : Type 0 where
  pub platform : Text
  pub channel : Text
  pub arch : Text

unfoldable pub same_place : Place → Place → Bool
same_place a b =
    text_eq a.platform b.platform && text_eq a.channel b.channel && text_eq a.arch b.arch

-- A row of admin_app_releases.
pub record Release : Type 0 where
  pub id : ℕ
  pub place : Place
  pub version : Text
  pub version_code : ℕ
  pub min_supported_version_code : ℕ
  pub update_level : Text
  pub title : Text
  pub filename : Text
  pub storage_path : Text
  pub storage_key : Text
  pub file_size : ℕ
  pub sha256 : Text
  pub mime_type : Text
  pub download_url : Text
  pub public_download_url : Text
  pub changelog : Text
  pub status : Status
  pub created_by_admin_id : ℕ
  pub created_by_username : Text
  pub created_by_role : Text
  pub published_at : Option ℕ
  pub created_at : ℕ

-- What is read of a release: its row, and whether admin_app_latest names it.
pub record AppRelease : Type 0 where
  pub release : Release
  pub is_latest : Bool

-- A row of admin_app_latest, with `place` its primary key.
pub record Latest : Type 0 where
  pub place : Place
  pub release_id : ℕ

pub record Tables : Type 0 where
  pub releases : List Release
  pub latest : List Latest
  pub next_id : ℕ

pub record AdminUser : Type 0 where
  pub id : ℕ
  pub username : Text
  pub role : Text

pub record CreateParams : Type 0 where
  pub platform : Text
  pub channel : Text
  pub arch : Text
  pub version : Text
  pub version_code : ℕ
  pub min_supported_version_code : ℤ
  pub update_level : Text
  pub title : Text
  pub filename : Text
  pub storage_path : Text
  pub storage_key : Text
  pub file_size : ℕ
  pub sha256 : Text
  pub mime_type : Text
  pub download_url : Text
  pub public_download_url : Text
  pub changelog : Text

-- `duplicate_path` is the error of the unique key on the storage path.
pub data ReleaseError : Type 0 where
  unsupported_platform unsupported_channel unsupported_arch unsupported_level : ReleaseError
  no_version no_version_code negative_min_supported no_file empty_file no_sha256 : ReleaseError
  duplicate_path no_rows : ReleaseError

-- `lower` is `strings.ToLower`, `same_text` the collation of the text columns.
pub record Outside : Type 0 where
  pub lower : Text → Text
  pub same_text : Text → Text → Bool

-- Nothing is sent over the network here.
abbrev pub Action : Type 0 → Type 0
Action A = Sql Tables (Unit {0}) ReleaseError A
