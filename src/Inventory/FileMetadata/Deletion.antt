-- ===== src/Inventory/FileMetadata/Deletion.antt =====
-- inventory/db/file_metadata.rs: deletion of whole subtrees, with the upload sessions of their roots,
-- and renaming.
use cloudreve_desktop.Inventory.Tasks.Queries.{main_separator}
use cloudreve_desktop.Inventory.Tasks.{eq_any}
use cloudreve_desktop.Prelude.{
  ltb, if◌then◌else◌, length, filter_by, ℕ, ◌+◌, String, ◌<>◌, Bool, true, false, not, List, [],
  ◌∷◌, str_eq,
}
use cloudreve_desktop.Inventory.Paths.{escape_path}
use cloudreve_desktop.Inventory.FileMetadata.{FileMetadataRow}
use cloudreve_desktop.Uploader.Session.{UploadSession}
use cloudreve_desktop.Inventory.Paths

-- `DELETE ... WHERE`, with the number of rows deleted.
unfoldable pub delete_where :
    (FileMetadataRow → Bool) → List FileMetadataRow → ℕ × List FileMetadataRow
delete_where test rows = (length (filter_by test rows), filter_by (λ row. not (test row)) rows)

unfoldable pub descendant_pattern : String → String
descendant_pattern path = escape_path path <> (main_separator <> "%")

-- The transaction of `batch_delete_by_path`, with its total.
unfoldable pub delete_paths :
    Paths.Like → List String → ℕ × List FileMetadataRow → ℕ × List FileMetadataRow
delete_paths like [] (total, rows) = (total, rows)
delete_paths like (path ∷ paths) (total, rows) =
    let exact = delete_where (λ row. str_eq row.local_path path) rows in
    let below = delete_where (λ row. like (descendant_pattern path) row.local_path) exact.1 in
    delete_paths like paths (total + exact.0 + below.0, below.1)

-- `batch_delete_upload_session_by_path` of inventory/db/upload_sessions.rs.
unfoldable pub batch_delete_upload_session_by_path :
    List String → List UploadSession → List UploadSession
batch_delete_upload_session_by_path paths sessions =
    filter_by (λ (s : UploadSession). not (eq_any paths s.local_path)) sessions

unfoldable pub is_nil {ℓ} : {A : Type ℓ} → List A → Bool
is_nil [] = true
is_nil (a ∷ rest) = false

unfoldable pub batch_delete_by_path :
    Paths.Like
    → List String
    → List FileMetadataRow
    → List UploadSession
    → Bool × (List FileMetadataRow × List UploadSession)
batch_delete_by_path like paths rows sessions =
    if is_nil paths
    then (false, (rows, sessions))
    else let deleted = delete_paths like paths (0, rows) in
      (ltb 0 deleted.0, (deleted.1, batch_delete_upload_session_by_path paths sessions))
