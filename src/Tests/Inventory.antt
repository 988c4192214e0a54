-- ===== src/Tests/Inventory.antt =====
-- The table of file metadata at concrete inputs, with a LIKE that tells upper from lower case.
use cloudreve_desktop.Uploader.Session.{UploadSession}
use cloudreve_desktop.Inventory.FileMetadata.Subtree.{batch_delete_by_path-left, covers}
use cloudreve_desktop.Inventory.FileMetadata.Deletion.{batch_delete_by_path}
use cloudreve_desktop.Prelude.{
  ◌==◌, if◌then◌else◌, String, ◌≡◌, refl, Bool, true, false, ◌&&◌, ◌||◌, [], ◌∷◌, filter_by, any,
  sym, ap, not, none, some, some_inj, List, arith, str_eq,
}
use Prim.Native.Char.{Char, code}
use cloudreve_desktop.Prelude.Int.{pos}
use cloudreve_desktop.Inventory.Paths.{has_prefix, literal, is_special, LikeEscape}
use cloudreve_desktop.Inventory.FileMetadata.{
  find_row, changeset_from_entry, query_by_path, new_file_metadata, upsert, insert_or_update,
  FileMetadataRow, MetadataEntry, Codec,
}
use cloudreve_desktop.Inventory.FileMetadata.Upsert.{query_by_path-upsert, stored, Reads}

abbrev same : Char → Char → Bool
same c d = code c == code d

after_first : Char → (String → Bool) → String → Bool
after_first c rest String.[] = false
after_first c rest (String.◌∷◌ d s) = same c d && rest s

after_any : (String → Bool) → String → Bool
after_any rest String.[] = false
after_any rest (String.◌∷◌ d s) = rest s

at_suffix : (String → Bool) → String → Bool
at_suffix rest String.[] = rest String.[]
at_suffix rest (String.◌∷◌ d s) = rest (String.◌∷◌ d s) || at_suffix rest s

is_empty_text : String → Bool
is_empty_text String.[] = true
is_empty_text (String.◌∷◌ d s) = false

-- The flag says that the last character was the escape character.
like_from : Bool → String → String → Bool
unfolding after_first after_any at_suffix is_empty_text
like_from true String.[] s = false
like_from false String.[] s = is_empty_text s
like_from true (String.◌∷◌ c p) s = after_first c (like_from false p) s
like_from false (String.◌∷◌ c p) s =
    let escaped = like_from true p in
    let rest = like_from false p in
    if code c == 33
    then escaped s
    else if code c == 37
    then at_suffix rest s
    else if code c == 95
    then after_any rest s
    else after_first c rest s

after_first-literal :
    (c : Char) (p s : String)
    → after_first c (like_from false p) s ≡ literal same (like_from false) c p s
unfolding after_first literal
after_first-literal c p String.[] = refl
after_first-literal c p (String.◌∷◌ d s) = refl

at_suffix-empty : (s : String) → at_suffix (like_from false String.[]) s ≡ true
unfolding at_suffix like_from is_empty_text
at_suffix-empty String.[] = refl
at_suffix-empty (String.◌∷◌ d s) = at_suffix-empty s

none_of : (a b c : Bool) → (a || b || c) ≡ false → (a ≡ false) × ((b ≡ false) × (c ≡ false))
none_of a b c e = ground arith

like_from-LikeEscape : LikeEscape same (like_from false)
unfolding like_from is_special
like_from-LikeEscape = record {
  percent = at_suffix-empty;
  ordinary = λ c p s e.
      let (n37, (n95, n33)) = none_of (code c == 37) (code c == 95) (code c == 33) e in
      rw (n33, n37, n95) (after_first-literal c p s);
  escaped = λ c p s e. after_first-literal c p s;
}

abbrev row : String → FileMetadataRow
row path = record {
  id = pos 1;
  drive_id = "d";
  is_folder = false;
  local_path = path;
  created_at = pos 1;
  updated_at = pos 1;
  etag = "e";
  metadata = "{}";
  props = none;
  permissions = "";
  shared = false;
  size = pos 3;
  conflict_state = some "pending";
  local_updated_at = some (pos 7);
  local_size = none;
}

abbrev rows : List FileMetadataRow
rows = row "C:\\a_b" ∷ row "C:\\a_b\\c" ∷ row "C:\\axb\\c" ∷ row "C:\\a_b2" ∷ []

batch_delete_by_path-left_example :
    (batch_delete_by_path (like_from false) ("C:\\a_b" ∷ []) rows []).1 ≡ (
      filter_by
          (λ (r : FileMetadataRow). not (any (covers same r.local_path) ("C:\\a_b" ∷ [])))
          rows,
      filter_by
          (λ (s : UploadSession). not (any (λ root. str_eq root s.local_path) ("C:\\a_b" ∷ [])))
          [],
    )
batch_delete_by_path-left_example =
    batch_delete_by_path-left same (like_from false) like_from-LikeEscape ("C:\\a_b" ∷ []) rows []

-- The root and its descendant go; `_` in the path is no wildcard.
siblings_stay :
    filter_by (λ (r : FileMetadataRow). not (any (covers same r.local_path) ("C:\\a_b" ∷ []))) rows
    ≡ row "C:\\axb\\c" ∷ row "C:\\a_b2" ∷ []
unfolding covers has_prefix
siblings_stay = refl

abbrev codec : Codec
codec = record {
  Uuid = String;
  uuid_to_string = λ s. s;
  uuid_parse_str = some;
  Metadata = String;
  metadata_to_string = some;
  metadata_from_str = some;
  Props = String;
  props_to_string = some;
  props_from_str = some;
}

codec-Reads : Reads codec
codec-Reads = record {
  uuid = λ u. refl;
  metadata = λ m s e. ap some (sym (some_inj.0 e));
  props = λ v s e. ap some (sym (some_inj.0 e));
}

abbrev entry : MetadataEntry codec
entry = record {
  drive_id = "d";
  is_folder = false;
  created_at = pos 9;
  updated_at = pos 9;
  local_path = "C:\\a_b";
  etag = "new";
  permissions = "";
  shared = true;
  size = pos 4;
  metadata = "{}";
  props = some "p";
  conflict_state = none;
  local_updated_at = none;
  local_size = some (pos 4);
}

abbrev upserted : List FileMetadataRow
upserted =
    insert_or_update (new_file_metadata codec (pos 5) entry "{}" (some "p"))
      (changeset_from_entry codec entry "{}" (some "p")) rows

query_by_path-upsert_example : query_by_path codec "C:\\a_b" upserted ≡ (
    if str_eq entry.local_path "C:\\a_b"
    then some (some (stored (pos 5) entry (find_row entry.local_path rows)))
    else query_by_path codec "C:\\a_b" rows)
unfolding upsert
query_by_path-upsert_example =
    query_by_path-upsert codec codec-Reads (pos 5) entry rows upserted "C:\\a_b" refl
