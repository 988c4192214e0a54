-- ===== src/Inventory/FileMetadata/Subtree.antt =====
-- inventory/db/file_metadata.rs: which rows a batch deletion leaves.
use cloudreve_desktop.Inventory.Tasks.{eq_any}
use cloudreve_desktop.Inventory.Tasks.Queries.{main_separator}
use cloudreve_desktop.Inventory.FileMetadata.Deletion.{
  batch_delete_upload_session_by_path, is_nil, batch_delete_by_path, delete_where,
  descendant_pattern, delete_paths,
}
use cloudreve_desktop.Prelude.{
  filter_by, any, ℕ, String, ◌<>◌, ◌≡◌, refl, Bool, not, ◌&&◌, ◌||◌, List, [], ◌∷◌, str_eq, sym, ap,
  ◌∙◌, fun_ext, true, false, arith,
}
use Prim.Native.Char.{Char}
use cloudreve_desktop.Inventory.Paths.{
  literal-prefix, is_special, like-escape_path, has_prefix, LikeEscape,
}
use cloudreve_desktop.Inventory.FileMetadata.{FileMetadataRow}
use cloudreve_desktop.Uploader.Session.{UploadSession}
use cloudreve_desktop.Inventory.Paths

-- The path is the root or, up to the case folding, below it.
unfoldable pub covers : (Char → Char → Bool) → String → String → Bool
covers same path root = str_eq path root || has_prefix same (root <> "\\") path

filter_by-filter_by {ℓ} :
    {A : Type ℓ} (f g : A → Bool) (xs : List A)
    → filter_by f (filter_by g xs) ≡ filter_by (λ x. g x && f x) xs
filter_by-filter_by f g [] = refl
filter_by-filter_by f g (x ∷ xs) = ground (arith, filter_by-filter_by f g xs)

filter_by_all {ℓ} : {A : Type ℓ} (xs : List A) → filter_by (λ x. true) xs ≡ xs
filter_by_all [] = refl
filter_by_all (x ∷ xs) = ap (λ r. x ∷ r) (filter_by_all xs)

kept :
    (a b c : Bool) → (not a && (not b && not c)) ≡ not (elim (a || b) [ true ↦ true | false ↦ c ])
kept true b c = refl
kept false true c = refl
kept false false c = refl

module _ (same : Char → Char → Bool) (like : Paths.Like) (spec : LikeEscape same like) where
  pattern-below :
      (root path : String)
      → like (descendant_pattern root) path ≡ has_prefix same (root <> "\\") path
  unfolding descendant_pattern main_separator is_special has_prefix
  pattern-below root path = like-escape_path same like spec root ("\\" <> "%") "\\" path (λ t.
      spec.ordinary "\\" "%" t refl ∙ literal-prefix same like spec "\\" "%" "" t spec.percent)

  delete_paths-rows :
      (roots : List String) (total : ℕ) (rows : List FileMetadataRow)
      → (delete_paths like roots (total, rows)).1
        ≡ filter_by (λ (row : FileMetadataRow). not (any (covers same row.local_path) roots)) rows
  unfolding delete_paths delete_where covers
  delete_paths-rows [] total rows = sym (filter_by_all rows)
  delete_paths-rows (root ∷ roots) total rows =
      delete_paths-rows roots _ _
      ∙ filter_by-filter_by _ _
          (filter_by (λ (row : FileMetadataRow). not (str_eq row.local_path root)) rows)
      ∙ filter_by-filter_by _ _ rows
      ∙ ap (λ f. filter_by f rows)
          (fun_ext (λ (row : FileMetadataRow).
            kept (str_eq row.local_path root) (like (descendant_pattern root) row.local_path) _
            ∙ ap
                (λ b. not (elim (str_eq row.local_path root || b) [
                  | true ↦ true
                  | false ↦ any (covers same row.local_path) roots
                ]))
                (pattern-below root row.local_path)))

  -- `batch_delete_by_path` leaves exactly the rows of which the path is none of the given ones and does
  -- not begin, up to the case folding of LIKE, with one of them and a backslash, whatever `%`, `_` or
  -- `!` the paths contain; and it leaves the upload sessions of which the path is none of the given ones.
  pub batch_delete_by_path-left :
      (roots : List String) (rows : List FileMetadataRow) (sessions : List UploadSession)
      → (batch_delete_by_path like roots rows sessions).1 ≡ (
        filter_by (λ (row : FileMetadataRow). not (any (covers same row.local_path) roots)) rows,
        filter_by
            (λ (s : UploadSession). not (any (λ root. str_eq root s.local_path) roots))
            sessions,
      )
  unfolding batch_delete_by_path is_nil batch_delete_upload_session_by_path eq_any
  batch_delete_by_path-left [] rows sessions =
      λ i. (sym (filter_by_all rows) i, sym (filter_by_all sessions) i)
  batch_delete_by_path-left (root ∷ roots) rows sessions = λ i. (
    delete_paths-rows (root ∷ roots) 0 rows i,
    batch_delete_upload_session_by_path (root ∷ roots) sessions,
  )
