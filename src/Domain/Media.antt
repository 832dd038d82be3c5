-- ===== src/Domain/Media.antt =====
-- Assets, their metadata and what is derived from them: native_core/src/domain.rs.
use photo_organizer.Prelude.{ℕ, Bool, Option, List, Text}

pub data MediaKind : Type 0 where
  photo video document audio archive text other : MediaKind

pub data VaultFileKind : Type 0 where
  folder file : VaultFileKind

pub data ImportMode : Type 0 where
  copy reference move : ImportMode

pub data VariantKind : Type 0 where
  original preview thumbnail face_crop : VariantKind

pub data EventTitleSource : Type 0 where
  generated user : EventTitleSource

pub data MetadataSource : Type 0 where
  manual takeout_sidecar embedded filesystem unknown : MetadataSource

pub record FileOrganizationHints : Type 0 where
  pub source_folder : Option Text
  pub workspace : Option Text
  pub client : Option Text
  pub project : Option Text
  pub topic : Option Text
  pub path_segments : List Text

pub record BoundingBox : Type 0 where
  pub x : ℕ
  pub y : ℕ
  pub width : ℕ
  pub height : ℕ

pub record ModelProvenance : Type 0 where
  pub model_name : Text
  pub model_version : Text
  pub model_hash : Option Text
  pub created_at : ℕ
  pub rebuildable : Bool

pub record AssetVariant : Type 0 where
  pub id : ℕ
  pub kind : VariantKind
  pub relative_path : Text
  pub mime_type : Text
  pub bytes : ℕ
  pub width : Option ℕ
  pub height : Option ℕ
  pub derived : ModelProvenance

pub record GeoTag : Type 0 where
  pub latitude : ℕ
  pub longitude : ℕ
  pub altitude_meters : Option ℕ
  pub source : MetadataSource
  pub exact_hidden : Bool

pub record CameraInfo : Type 0 where
  pub make : Option Text
  pub model : Option Text
  pub lens_model : Option Text

-- `timezone_offset_minutes`, an `i32`, is its bit pattern.
pub record AssetMetadata : Type 0 where
  pub asset_id : ℕ
  pub captured_at : ℕ
  pub captured_at_source : MetadataSource
  pub timezone_offset_minutes : Option ℕ
  pub width : Option ℕ
  pub height : Option ℕ
  pub camera : Option CameraInfo
  pub geo : Option GeoTag
  pub sidecar_title : Option Text
  pub sidecar_description : Option Text
  pub folder_hint : Option Text
  pub organization : FileOrganizationHints
  pub derived : ModelProvenance

pub record Asset : Type 0 where
  pub id : ℕ
  pub vault_id : Option ℕ
  pub original_filename : Text
  pub relative_original_path : Text
  pub source_path : Text
  pub content_hash : Text
  pub media_kind : MediaKind
  pub import_mode : ImportMode
  pub bytes : ℕ
  pub mime_type : Text
  pub captured_at : ℕ
  pub imported_at : ℕ
  pub archived : Bool
  pub favorite : Bool
  pub is_available : Bool
  pub place_hint : Option Text
  pub manual_tags : List Text
  pub metadata : Option AssetMetadata
  pub variants : List AssetVariant

pub record VaultFileEntry : Type 0 where
  pub id : ℕ
  pub vault_id : ℕ
  pub parent_id : Option ℕ
  pub asset_id : Option ℕ
  pub name : Text
  pub kind : VaultFileKind
  pub media_kind : Option MediaKind
  pub mime_type : Option Text
  pub bytes : ℕ
  pub content_hash : Option Text
  pub origin_device_id : Option ℕ
  pub created_at : ℕ
  pub updated_at : ℕ
  pub trashed_at : Option ℕ
  pub organization : FileOrganizationHints

pub record PersonCluster : Type 0 where
  pub id : ℕ
  pub display_name : Text
  pub asset_ids : List ℕ
  pub face_template_ids : List ℕ
  pub representative_asset_id : Option ℕ
  pub hidden : Bool
  pub derived : ModelProvenance

pub record PlaceCluster : Type 0 where
  pub id : ℕ
  pub label : Text
  pub country_code : Option Text
  pub region : Option Text
  pub asset_ids : List ℕ
  pub centroid_latitude : Option ℕ
  pub centroid_longitude : Option ℕ
  pub derived : ModelProvenance

pub record EventCluster : Type 0 where
  pub id : ℕ
  pub title : Text
  pub title_source : EventTitleSource
  pub asset_ids : List ℕ
  pub start_at : ℕ
  pub end_at : ℕ
  pub place_id : Option ℕ
  pub people_ids : List ℕ
  pub derived : ModelProvenance

pub record OcrBlock : Type 0 where
  pub id : ℕ
  pub asset_id : ℕ
  pub text : Text
  pub bounding_box : Option BoundingBox
  pub derived : ModelProvenance

pub record SceneTag : Type 0 where
  pub id : ℕ
  pub asset_id : ℕ
  pub label : Text
  pub confidence : ℕ
  pub derived : ModelProvenance
