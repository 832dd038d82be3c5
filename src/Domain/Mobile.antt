-- ===== src/Domain/Mobile.antt =====
-- Mobile sessions and uploads: native_core/src/domain.rs.
use photo_organizer.Prelude.{ℕ, Option, Text}
use photo_organizer.Domain.Media.{MediaKind}

pub record MobileSession : Type 0 where
  pub id : ℕ
  pub device_id : ℕ
  pub vault_id : ℕ
  pub token_hash : Text
  pub display_name : Text
  pub platform : Text
  pub created_at : ℕ
  pub expires_at : ℕ
  pub last_seen_at : Option ℕ
  pub revoked_at : Option ℕ

pub data MobileUploadStatus : Type 0 where
  pending running completed failed canceled : MobileUploadStatus

pub record MobileUpload : Type 0 where
  pub id : ℕ
  pub session_id : ℕ
  pub device_id : ℕ
  pub vault_id : ℕ
  pub asset_id : Option ℕ
  pub original_filename : Text
  pub media_kind : MediaKind
  pub mime_type : Text
  pub bytes_total : ℕ
  pub bytes_received : ℕ
  pub content_hash : Option Text
  pub captured_at : Option ℕ
  pub place_hint : Option Text
  pub status : MobileUploadStatus
  pub error_detail : Option Text
  pub created_at : ℕ
  pub updated_at : ℕ

pub record MobileUploadRequest : Type 0 where
  pub original_filename : Text
  pub mime_type : Text
  pub media_kind : MediaKind
  pub bytes : ℕ
  pub captured_at : Option ℕ
  pub place_hint : Option Text
  pub content_hash : Option Text
