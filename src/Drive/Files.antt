-- ===== src/Drive/Files.antt =====
-- What the planning of a synchronisation reads of a file: the row of the inventory
-- (inventory/models.rs), the server's entry (crates/cloudreve-api/src/models/explorer.rs) and the
-- local state (`LocalFileInfo` of cfapi/placeholder.rs, the Windows build). Fields that it does not
-- read are left out. A `SystemTime` is its distance to the Unix epoch in milliseconds.
use cloudreve_desktop.Prelude.{
  ℕ, String, Bool, true, false, not, ◌&&◌, ◌||◌, Option, none, some, List,
}
use cloudreve_desktop.Prelude.Int.{ℤ, pos, negsuc, wrap_i64, eqb_ℤ}
use cloudreve_desktop.Dict.{lookup, string_eq}

pub data ConflictState : Type 0 where
  pending override : ConflictState

-- A value of `props` is what `Value::as_str` gives of it.
pub record FileMetadata : Type 0 where
  pub updated_at : ℤ
  pub etag : String
  pub metadata : List (String × String)
  pub props : Option (List (String × Option String))
  pub shared : Bool
  pub conflict_state : Option ConflictState
  pub local_updated_at : Option ℤ
  pub local_size : Option ℤ

pub record FileResponse : Type 0 where
  pub file_type : ℤ
  pub updated_at : String
  pub size : ℤ
  pub metadata : Option (List (String × String))
  pub shared : Option Bool
  pub primary_entity : Option String

pub data PinState : Type 0 where
  unspecified pinned unpinned excluded inherit : PinState

-- The flags that CfGetPlaceholderStateFromFindData gives.
pub record PlaceholderState : Type 0 where
  pub is_placeholder : Bool
  pub in_sync : Bool
  pub partial_on_disk : Bool

pub record LocalFileInfo : Type 0 where
  pub exists : Bool
  pub is_directory : Bool
  pub file_size : Option ℕ
  pub last_modified : Option ℤ
  pub placeholder_state : Option PlaceholderState
  pub pin_state : PinState

unfoldable pub missing : LocalFileInfo
missing = record {
  exists = false;
  is_directory = false;
  file_size = none;
  last_modified = none;
  placeholder_state = none;
  pin_state = PinState.unspecified;
}

flag : (PlaceholderState → Bool) → Option PlaceholderState → Bool
flag f none = false
flag f (some state) = f state

unfoldable pub in_sync : LocalFileInfo → Bool
unfolding flag
in_sync local = flag (λ s. s.in_sync) local.placeholder_state

unfoldable pub is_placeholder : LocalFileInfo → Bool
unfolding flag
is_placeholder local = flag (λ s. s.is_placeholder) local.placeholder_state

unfoldable pub partial_on_disk : LocalFileInfo → Bool
unfolding flag
partial_on_disk local = flag (λ s. s.partial_on_disk) local.placeholder_state

unfoldable pub is_folder_populated : LocalFileInfo → Bool
is_folder_populated local =
    is_placeholder local && (local.is_directory && not (partial_on_disk local))

abbrev folder : ℤ
folder = pos 1

-- `remote.file_type == file_type::FOLDER`
unfoldable pub is_folder : FileResponse → Bool
is_folder remote = eqb_ℤ remote.file_type folder

unfoldable pub is_some {ℓ} : {A : Type ℓ} → Option A → Bool
is_some none = false
is_some (some a) = true

-- `inventory_content_uri` of drive/share_shortcuts.rs.
inventory_content_uri : FileMetadata → Option String
inventory_content_uri file =
    or_else from_props (lookup "sys:cloudreve_desktop:presented_content_uri" file.metadata)
  where
    or_else : Option String → Option String → Option String
    or_else none b = b
    or_else (some a) b = some a

    as_str : Option (Option String) → Option String
    as_str none = none
    as_str (some value) = value

    from_props : Option String
    from_props = elim file.props [
      | none ↦ none
      | some props ↦ as_str (lookup "presented_content_uri" props)
    ]

unfoldable pub is_received_item : FileMetadata → Bool
unfolding inventory_content_uri is_some
is_received_item inventory =
    is_some (lookup "sys:shared_redirect" inventory.metadata)
    || is_some (inventory_content_uri inventory)

-- A time before the epoch has no Unix time; `as i64` wraps.
unfoldable pub system_time_to_unix_millis : ℤ → Option ℤ
system_time_to_unix_millis (pos n) = some (wrap_i64 (pos n))
system_time_to_unix_millis (negsuc n) = none
