-- ===== src/Transport/Messages.antt =====
-- internal/transport/grpc/mappers.go: the messages, and the entities in them.
use strato.Prelude.{
  ℕ, ◌^◌, ◌%◌, Bool, List, [], ◌∷◌, Option, none, some, map, ltb, ◌==◌, if◌then◌else◌, length,
}
use strato.Entity.Account.{Text, is_set}
use strato.Entity.Access.{Permission, viewer, editor, owner, other, Share}
use strato.Entity.Storage.{File, Version, Folder}
use strato.Pagination.{
  Cursor, zero_cursor, default_page_size, clamp_page_size, Json, encode_cursor, decode_cursor,
}

-- What the messages are written and read with: the text of a UUID and its parser, encoding/hex of a
-- checksum, and encoding/json of a cursor.
pub record Wire : Type 0 where
  pub uuid_text : ℕ → Text
  pub parse_uuid : Text → Option ℕ
  pub hex : ℕ → Text
  pub json : Json

-- int32 of a number, by its bits.
abbrev pub int32 : ℕ → ℕ
int32 n = n % 2 ^ 32

-- Ids that are missing are empty texts.
pub record FileMetadata : Type 0 where
  pub id : Text
  pub folder_id : Text
  pub name : Text
  pub mime_type : Text
  pub size_bytes : ℕ
  pub checksum_sha256 : Text
  pub version_number : ℕ
  pub is_deleted : Bool
  pub is_locked : Bool
  pub locked_by_user_id : Text
  pub created_at : ℕ
  pub updated_at : ℕ
  pub deleted_at : Option ℕ

pub record FolderMetadata : Type 0 where
  pub id : Text
  pub parent_id : Text
  pub name : Text
  pub created_at : ℕ

pub record FileVersion : Type 0 where
  pub id : Text
  pub file_id : Text
  pub version_number : ℕ
  pub size_bytes : ℕ
  pub checksum_sha256 : Text
  pub created_by_user_id : Text
  pub created_at : ℕ

pub data WirePermission : Type 0 where
  unspecified viewer_wire editor_wire owner_wire : WirePermission

pub record ShareMessage : Type 0 where
  pub id : Text
  pub file_id : Text
  pub owner_id : Text
  pub grantee_email : Text
  pub public_url : Text
  pub permission : WirePermission
  pub created_at : ℕ
  pub expires_at : Option ℕ

-- `PageRequest`: the size by its 32 bits.
pub record PageRequest : Type 0 where
  pub page_token : Text
  pub page_size : ℕ

-- `permissionToProto`.
unfoldable pub permission_to_proto : Permission → WirePermission
permission_to_proto viewer = viewer_wire
permission_to_proto editor = editor_wire
permission_to_proto owner = owner_wire
permission_to_proto other = unspecified

-- `permissionFromProto`.
unfoldable pub permission_from_proto : WirePermission → Permission
permission_from_proto viewer_wire = viewer
permission_from_proto editor_wire = editor
permission_from_proto owner_wire = owner
permission_from_proto unspecified = other

module _ (wire : Wire) where
  optional_text : Option ℕ → Text
  optional_text none = []
  optional_text (some id) = wire.uuid_text id

  -- `fileToProto`.
  unfoldable pub file_to_proto : File → FileMetadata
  unfolding optional_text
  file_to_proto f = record {
    id = wire.uuid_text f.id;
    folder_id = optional_text f.folder_id;
    name = f.name;
    mime_type = f.mime_type;
    size_bytes = f.size_bytes;
    checksum_sha256 = wire.hex f.checksum;
    version_number = int32 f.version_number;
    is_deleted = f.is_deleted;
    is_locked = is_set f.locked_by;
    locked_by_user_id = optional_text f.locked_by;
    created_at = f.created_at;
    updated_at = f.updated_at;
    deleted_at = f.deleted_at;
  }

  -- `filesToProto`.
  unfoldable pub files_to_proto : List File → List FileMetadata
  files_to_proto files = map (λ f. file_to_proto f) files

  -- `folderToProto`.
  unfoldable pub folder_to_proto : Folder → FolderMetadata
  unfolding optional_text
  folder_to_proto f = record {
    id = wire.uuid_text f.id;
    parent_id = optional_text f.parent_id;
    name = f.name;
    created_at = f.created_at;
  }

  -- `versionToProto`.
  unfoldable pub version_to_proto : Version → FileVersion
  version_to_proto v = record {
    id = wire.uuid_text v.id;
    file_id = wire.uuid_text v.file_id;
    version_number = int32 v.version_number;
    size_bytes = v.size_bytes;
    checksum_sha256 = wire.hex v.checksum;
    created_by_user_id = wire.uuid_text v.created_by;
    created_at = v.created_at;
  }

  -- `shareToProto`.
  unfoldable pub share_to_proto : Share → Text → Text → ShareMessage
  unfolding permission_to_proto
  share_to_proto s grantee_email public_url = record {
    id = wire.uuid_text s.id;
    file_id = wire.uuid_text s.file_id;
    owner_id = wire.uuid_text s.owner_id;
    grantee_email = grantee_email;
    public_url = public_url;
    permission = permission_to_proto s.permission;
    created_at = s.created_at;
    expires_at = s.expires_at;
  }

  sized : ℕ → Option Cursor → Option (Cursor × ℕ)
  sized size none = none
  sized size (some cur) = some (cur, clamp_page_size size)

  -- `pageFromProto`: none is `ErrInvalidCursor`.
  unfoldable pub page_from_proto : Option PageRequest → Option (Cursor × ℕ)
  unfolding sized
  page_from_proto none = some (zero_cursor, default_page_size)
  page_from_proto (some p) = sized p.page_size (decode_cursor wire.json p.page_token)

  abbrev pub token_of : ℕ → Option ℕ → Text
  token_of last_created none = []
  token_of last_created (some id) =
      encode_cursor wire.json (record { created_at = last_created; id = id })

  -- `nextPageToken`.
  unfoldable pub next_page_token : ℕ → ℕ → ℕ → Text → Text
  next_page_token count limit last_created last_id =
      if ltb count limit then [] else token_of last_created (wire.parse_uuid last_id)

  abbrev pub last_row {ℓ} : {A : Type ℓ} → A → List A → A
  last_row x [] = x
  last_row x (y ∷ ys) = last_row y ys

  -- The token that a handler puts behind a page: a full page has a last row.
  unfoldable pub page_token {ℓ} : {A : Type ℓ} → (A → Cursor) → ℕ → List A → Text
  page_token key limit [] = []
  page_token key limit (x ∷ xs) =
      let last = key (last_row x xs) in
      if length (x ∷ xs) == limit
      then next_page_token (length (x ∷ xs)) limit last.created_at (wire.uuid_text last.id)
      else []
