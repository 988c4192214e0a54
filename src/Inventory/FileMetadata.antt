-- ===== src/Inventory/FileMetadata.antt =====
-- inventory/db/file_metadata.rs, with `MetadataEntry` and `FileMetadata` of inventory/models.rs: the
-- table `file_metadata` as the list of its rows, of which no two have one `local_path` (a UNIQUE
-- column). The identifier of a new row, which SQLite makes, is an argument.
pub mod Upsert
pub mod Deletion
pub mod Subtree
use cloudreve_desktop.Inventory.Tasks.{traverse_option, or_else}
use cloudreve_desktop.Prelude.Int.{ℤ}
use cloudreve_desktop.Prelude.{
  if◌then◌else◌, ◌>>=◌, any, String, Bool, Option, none, some, option_map, List, [], ◌∷◌, map,
  str_eq,
}
use cloudreve_desktop.Drive.Files.{ConflictState}

unfoldable pub conflict_as_str : ConflictState → String
conflict_as_str ConflictState.pending = "pending"
conflict_as_str ConflictState.override = "override"

unfoldable pub conflict_from_str : String → Option ConflictState
conflict_from_str value =
    if str_eq value "pending"
    then some ConflictState.pending
    else if str_eq value "override"
    then some ConflictState.override
    else none

-- `Uuid`, the metadata map and the JSON value of `props`, with the printers and parsers of the uuid
-- and serde_json crates.
pub record Codec : Type 1 where
  pub Uuid : Type 0
  pub uuid_to_string : Uuid → String
  pub uuid_parse_str : String → Option Uuid
  pub Metadata : Type 0
  pub metadata_to_string : Metadata → Option String
  pub metadata_from_str : String → Option Metadata
  pub Props : Type 0
  pub props_to_string : Props → Option String
  pub props_from_str : String → Option Props

pub record FileMetadata (c : Codec) : Type 0 where
  pub id : ℤ
  pub drive_id : c.Uuid
  pub is_folder : Bool
  pub local_path : String
  pub created_at : ℤ
  pub updated_at : ℤ
  pub etag : String
  pub metadata : c.Metadata
  pub props : Option c.Props
  pub permissions : String
  pub shared : Bool
  pub size : ℤ
  pub conflict_state : Option ConflictState
  pub local_updated_at : Option ℤ
  pub local_size : Option ℤ

pub record MetadataEntry (c : Codec) : Type 0 where
  pub drive_id : c.Uuid
  pub is_folder : Bool
  pub created_at : ℤ
  pub updated_at : ℤ
  pub local_path : String
  pub etag : String
  pub permissions : String
  pub shared : Bool
  pub size : ℤ
  pub metadata : c.Metadata
  pub props : Option c.Props
  pub conflict_state : Option ConflictState
  pub local_updated_at : Option ℤ
  pub local_size : Option ℤ

pub record FileMetadataRow : Type 0 where
  pub id : ℤ
  pub drive_id : String
  pub is_folder : Bool
  pub local_path : String
  pub created_at : ℤ
  pub updated_at : ℤ
  pub etag : String
  pub metadata : String
  pub props : Option String
  pub permissions : String
  pub shared : Bool
  pub size : ℤ
  pub conflict_state : Option String
  pub local_updated_at : Option ℤ
  pub local_size : Option ℤ

pub record FileMetadataChangeset : Type 0 where
  pub drive_id : String
  pub is_folder : Bool
  pub updated_at : ℤ
  pub etag : String
  pub metadata : String
  pub props : Option (Option String)
  pub permissions : String
  pub shared : Bool
  pub size : ℤ
  pub conflict_state : Option (Option String)
  pub local_updated_at : Option (Option ℤ)
  pub local_size : Option (Option ℤ)

unfoldable pub conflict_column : Option String → Option ConflictState
conflict_column none = none
conflict_column (some value) = conflict_from_str value

unfoldable pub apply_changeset : FileMetadataChangeset → FileMetadataRow → FileMetadataRow
apply_changeset c row = record row {
  drive_id = c.drive_id;
  is_folder = c.is_folder;
  updated_at = c.updated_at;
  etag = c.etag;
  metadata = c.metadata;
  props = or_else c.props row.props;
  permissions = c.permissions;
  shared = c.shared;
  size = c.size;
  conflict_state = or_else c.conflict_state row.conflict_state;
  local_updated_at = or_else c.local_updated_at row.local_updated_at;
  local_size = or_else c.local_size row.local_size;
}

-- `WHERE local_path = ?` with `first` and `optional`.
unfoldable pub find_row : String → List FileMetadataRow → Option FileMetadataRow
find_row path [] = none
find_row path (row ∷ rows) =
    let rest = find_row path rows in if str_eq row.local_path path then some row else rest

-- `INSERT ... ON CONFLICT (local_path) DO UPDATE`.
unfoldable pub insert_or_update :
    FileMetadataRow → FileMetadataChangeset → List FileMetadataRow → List FileMetadataRow
insert_or_update new c [] = new ∷ []
insert_or_update new c (row ∷ rows) =
    let rest = insert_or_update new c rows in
    if str_eq row.local_path new.local_path then apply_changeset c row ∷ rows else row ∷ rest

module _ (c : Codec) where
  unfoldable pub metadata_from_row : FileMetadataRow → Option (FileMetadata c)
  metadata_from_row row = do
    metadata ← c.metadata_from_str row.metadata
    props ← traverse_option c.props_from_str row.props
    drive_id ← c.uuid_parse_str row.drive_id
    some (record {
      id = row.id;
      drive_id = drive_id;
      is_folder = row.is_folder;
      local_path = row.local_path;
      created_at = row.created_at;
      updated_at = row.updated_at;
      etag = row.etag;
      metadata = metadata;
      props = props;
      permissions = row.permissions;
      shared = row.shared;
      size = row.size;
      conflict_state = conflict_column row.conflict_state;
      local_updated_at = row.local_updated_at;
      local_size = row.local_size;
    })

  -- `NewFileMetadata::try_from` with its texts, and the identifier.
  unfoldable pub new_file_metadata : ℤ → MetadataEntry c → String → Option String → FileMetadataRow
  new_file_metadata id e metadata props = record {
    id = id;
    drive_id = c.uuid_to_string e.drive_id;
    is_folder = e.is_folder;
    local_path = e.local_path;
    created_at = e.created_at;
    updated_at = e.updated_at;
    etag = e.etag;
    metadata = metadata;
    props = props;
    permissions = e.permissions;
    shared = e.shared;
    size = e.size;
    conflict_state = option_map conflict_as_str e.conflict_state;
    local_updated_at = e.local_updated_at;
    local_size = e.local_size;
  }

  -- `FileMetadataChangeset::from_entry` with its texts.
  unfoldable pub changeset_from_entry :
      MetadataEntry c → String → Option String → FileMetadataChangeset
  changeset_from_entry e metadata props = record {
    drive_id = c.uuid_to_string e.drive_id;
    is_folder = e.is_folder;
    updated_at = e.updated_at;
    etag = e.etag;
    metadata = metadata;
    props = some props;
    permissions = e.permissions;
    shared = e.shared;
    size = e.size;
    conflict_state = some (option_map conflict_as_str e.conflict_state);
    local_updated_at = option_map some e.local_updated_at;
    local_size = option_map some e.local_size;
  }

  unfoldable pub upsert : ℤ → MetadataEntry c → List FileMetadataRow → Option (List FileMetadataRow)
  upsert id e rows = do
    metadata ← c.metadata_to_string e.metadata
    props ← traverse_option c.props_to_string e.props
    some (
        insert_or_update (new_file_metadata id e metadata props)
          (changeset_from_entry e metadata props) rows)

  -- The entries of `batch_insert`, each with the identifier of its row; serde_json fails before
  -- anything is written.
  unfoldable pub batch_insert :
      List (ℤ × MetadataEntry c) → List FileMetadataRow → Option (List FileMetadataRow)
  batch_insert [] rows = some rows
  batch_insert ((id, e) ∷ entries) rows = do after ← upsert id e rows; batch_insert entries after

  unfoldable pub query_by_path : String → List FileMetadataRow → Option (Option (FileMetadata c))
  query_by_path path rows = traverse_option metadata_from_row (find_row path rows)

unfoldable pub set_conflict : Option ConflictState → FileMetadataRow → FileMetadataRow
set_conflict state row = record row { conflict_state = option_map conflict_as_str state }

-- The rows after, and whether a row was updated.
unfoldable pub mark_as_conflicted :
    String → Option ConflictState → List FileMetadataRow → Bool × List FileMetadataRow
mark_as_conflicted path state rows = (
  any (λ (row : FileMetadataRow). str_eq row.local_path path) rows,
  map
      (λ (row : FileMetadataRow).
        if str_eq row.local_path path then set_conflict state row else row)
      rows,
)
