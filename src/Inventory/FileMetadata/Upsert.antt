-- ===== src/Inventory/FileMetadata/Upsert.antt =====
-- inventory/db/file_metadata.rs: what is read back of an entry that was upserted.
use cloudreve_desktop.Inventory.Tasks.{traverse_option-read}
use cloudreve_desktop.Prelude.Int.{ℤ}
use cloudreve_desktop.Prelude.{
  String, ◌≡◌, refl, false, Option, none, some, option_map, List, [], ◌∷◌, str_eq, if◌then◌else◌,
  Bool-cases, sym, ap, subst, ◌∙◌, inl, inr, some_inj, eq_iff, ◌>>=◌,
}
use cloudreve_desktop.Inventory.FileMetadata.{
  upsert, query_by_path, or_else, metadata_from_row, changeset_from_entry, traverse_option,
  new_file_metadata, ConflictState, conflict_from_str, insert_or_update, conflict_as_str, find_row,
  conflict_column, apply_changeset, Codec, FileMetadata, FileMetadataRow, FileMetadataChangeset,
  MetadataEntry,
}

-- The crates read back what they wrote.
pub record Reads (c : Codec) : Type 0 where
  pub uuid : (u : c.Uuid) → c.uuid_parse_str (c.uuid_to_string u) ≡ some u
  pub metadata :
      (m : c.Metadata) (s : String)
      → c.metadata_to_string m ≡ some s
      → c.metadata_from_str s ≡ some m
  pub props :
      (v : c.Props) (s : String) → c.props_to_string v ≡ some s → c.props_from_str s ≡ some v

-- The identifier and the creation time are those of the row that was there, if any, and so is each
-- part of the local snapshot that the entry lacks.
unfoldable pub id_after : ℤ → Option FileMetadataRow → ℤ
id_after id none = id
id_after id (some row) = row.id

unfoldable pub created_after : ℤ → Option FileMetadataRow → ℤ
created_after created none = created
created_after created (some row) = row.created_at

unfoldable pub snapshot_after :
    Option ℤ → (FileMetadataRow → Option ℤ) → Option FileMetadataRow → Option ℤ
snapshot_after (some n) part old = some n
snapshot_after none part none = none
snapshot_after none part (some row) = part row

unfoldable pub stored : {c : Codec} → ℤ → MetadataEntry c → Option FileMetadataRow → FileMetadata c
stored id e old = record {
  id = id_after id old;
  drive_id = e.drive_id;
  is_folder = e.is_folder;
  local_path = e.local_path;
  created_at = created_after e.created_at old;
  updated_at = e.updated_at;
  etag = e.etag;
  metadata = e.metadata;
  props = e.props;
  permissions = e.permissions;
  shared = e.shared;
  size = e.size;
  conflict_state = e.conflict_state;
  local_updated_at = snapshot_after e.local_updated_at (λ r. r.local_updated_at) old;
  local_size = snapshot_after e.local_size (λ r. r.local_size) old;
}

-- The row of a path after an upsert.
row_after : FileMetadataRow → FileMetadataChangeset → Option FileMetadataRow → FileMetadataRow
row_after new change none = new
row_after new change (some row) = apply_changeset change row

find_row-path :
    (path : String) (rows : List FileMetadataRow) (row : FileMetadataRow)
    → find_row path rows ≡ some row
    → row.local_path ≡ path
unfolding find_row
find_row-path path [] row e = absurd cc
find_row-path path (r ∷ rows) row e = elim (Bool-cases (str_eq r.local_path path)) [
  | inl h ↦
      ap (λ (x : FileMetadataRow). x.local_path)
        (sym (some_inj.0 (subst (λ b. (if b then some r else find_row path rows) ≡ some row) h e)))
      ∙ (eq_iff r.local_path path).0 h
  | inr h ↦
      find_row-path path rows row
        (subst (λ b. (if b then some r else find_row path rows) ≡ some row) h e)
]

find_row-insert :
    (new : FileMetadataRow) (change : FileMetadataChangeset) (rows : List FileMetadataRow)
    → find_row new.local_path (insert_or_update new change rows)
      ≡ some (row_after new change (find_row new.local_path rows))
unfolding find_row insert_or_update row_after apply_changeset
find_row-insert new change [] = rw ((eq_iff new.local_path new.local_path).1 refl) refl
find_row-insert new change (row ∷ rows) = elim (Bool-cases (str_eq row.local_path new.local_path)) [
  | inl h ↦ rw h (rw h refl)
  | inr h ↦ rw h (rw h (find_row-insert new change rows))
]

find_row-insert_other :
    (new : FileMetadataRow) (change : FileMetadataChangeset) (path : String)
    (rows : List FileMetadataRow)
    → str_eq new.local_path path ≡ false
    → find_row path (insert_or_update new change rows) ≡ find_row path rows
unfolding find_row insert_or_update apply_changeset
find_row-insert_other new change path [] other = rw other refl
find_row-insert_other new change path (row ∷ rows) other =
    elim (Bool-cases (str_eq row.local_path new.local_path)) [
      | inl h ↦
          rw (h, ap (λ s. str_eq s path) ((eq_iff row.local_path new.local_path).0 h) ∙ other) refl
      | inr h ↦ rw h (
          ap (λ o. if str_eq row.local_path path then some row else o)
            (find_row-insert_other new change path rows other))
    ]

conflict_column-str :
    (state : Option ConflictState) → conflict_column (option_map conflict_as_str state) ≡ state
unfolding conflict_column conflict_as_str conflict_from_str
conflict_column-str none = refl
conflict_column-str (some ConflictState.pending) = refl
conflict_column-str (some ConflictState.override) = refl

snapshot_after-none :
    (new : Option ℤ) (part : FileMetadataRow → Option ℤ) → snapshot_after new part none ≡ new
unfolding snapshot_after
snapshot_after-none none part = refl
snapshot_after-none (some n) part = refl

snapshot_after-some :
    (new : Option ℤ) (part : FileMetadataRow → Option ℤ) (row : FileMetadataRow)
    → or_else (option_map some new) (part row) ≡ snapshot_after new part (some row)
unfolding snapshot_after
snapshot_after-some none part row = refl
snapshot_after-some (some n) part row = refl

module _ (c : Codec) (reads : Reads c) where
  row_after-read :
      (id : ℤ) (e : MetadataEntry c) (metadata : String) (props : Option String)
      (old : Option FileMetadataRow)
      → c.metadata_from_str metadata ≡ some e.metadata
      → traverse_option c.props_from_str props ≡ some e.props
      → ((row : FileMetadataRow) → old ≡ some row → row.local_path ≡ e.local_path)
      → metadata_from_row c (
          row_after
            (new_file_metadata c id e metadata props)
            (changeset_from_entry c e metadata props)
            old)
        ≡ some (stored id e old)
  unfolding row_after new_file_metadata changeset_from_entry metadata_from_row stored
      apply_changeset id_after created_after
  row_after-read id e metadata props none m v p =
      rw
        (
          m,
          v,
          reads.uuid e.drive_id,
          conflict_column-str e.conflict_state,
          snapshot_after-none e.local_updated_at (λ r. r.local_updated_at),
          snapshot_after-none e.local_size (λ r. r.local_size),
        )
        refl
  row_after-read id e metadata props (some row) m v p =
      rw
        (
          m,
          v,
          reads.uuid e.drive_id,
          conflict_column-str e.conflict_state,
          snapshot_after-some e.local_updated_at (λ r. r.local_updated_at) row,
          snapshot_after-some e.local_size (λ r. r.local_size) row,
        )
        (λ i. some (record (stored id e (some row)) { local_path = p row refl i }))

  query-stored :
      (id : ℤ) (e : MetadataEntry c) (rows after : List FileMetadataRow) (path : String)
      (metadata : Option String) (props : Option (Option String))
      → c.metadata_to_string e.metadata ≡ metadata
      → traverse_option c.props_to_string e.props ≡ props
      → (metadata >>= λ m. props >>= λ v.
          some
            (insert_or_update (new_file_metadata c id e m v) (changeset_from_entry c e m v) rows))
        ≡ some after
      → query_by_path c path after ≡ (
          if str_eq e.local_path path
          then some (some (stored id e (find_row e.local_path rows)))
          else query_by_path c path rows)
  unfolding query_by_path new_file_metadata
  query-stored id e rows after path none props m v h = absurd cc
  query-stored id e rows after path (some metadata) none m v h = absurd cc
  query-stored id e rows after path (some metadata) (some props) m v h =
      let new = new_file_metadata c id e metadata props in
      let change = changeset_from_entry c e metadata props in
      let rows_after = sym (some_inj.0 h) in
      elim (Bool-cases (str_eq e.local_path path)) [
        | inl same ↦
            let found =
              ap (λ s. find_row s after) (sym ((eq_iff e.local_path path).0 same))
              ∙ ap (find_row e.local_path) rows_after
              ∙ find_row-insert new change rows in
            let read =
              row_after-read id e metadata props (find_row e.local_path rows)
                (reads.metadata e.metadata metadata m)
                (traverse_option-read c.props_to_string c.props_from_str reads.props e.props props
                  v)
                (find_row-path e.local_path rows) in
            rw (same, found, read) refl
        | inr other ↦ rw other (
            ap (traverse_option (metadata_from_row c))
              (ap (find_row path) rows_after ∙ find_row-insert_other new change path rows other))
      ]

  -- After an upsert a query by path gives the entry under its own path, with the identifier and
  -- creation time of the row that was there, if any, and with that row's parts of the local snapshot
  -- where the entry has none, and gives what it gave before under every other path; provided that the
  -- crates read back what they wrote.
  pub query_by_path-upsert :
      (id : ℤ) (e : MetadataEntry c) (rows after : List FileMetadataRow) (path : String)
      → upsert c id e rows ≡ some after
      → query_by_path c path after ≡ (
          if str_eq e.local_path path
          then some (some (stored id e (find_row e.local_path rows)))
          else query_by_path c path rows)
  unfolding upsert
  query_by_path-upsert id e rows after path h = query-stored id e rows after path _ _ refl refl h
