-- ===== src/Drive/Changes.antt =====
-- How drive/sync.rs tells what changed since the last synchronisation: the local file, by the
-- placeholder's flags and the recorded snapshot, and the remote one, by ETag and time.
pub mod Detection
use cloudreve_desktop.Prelude.{
  if◌then◌else◌, ℕ, Bool, true, false, not, ◌&&◌, ◌||◌, Option, none, some, str_eq,
}
use cloudreve_desktop.Prelude.Int.{ℤ, pos, wrap_i64, eqb_ℤ, ltb_ℤ}
use cloudreve_desktop.Drive.Files.{
  FileMetadata, FileResponse, LocalFileInfo, in_sync, is_placeholder, is_some,
  system_time_to_unix_millis,
}
use cloudreve_desktop.Drive.Fingerprint.{Host, FileHashFingerprint}

size_differs : Option ℕ → ℤ → Bool
size_differs none snapshot_size = false
size_differs (some local_size) snapshot_size = not (eqb_ℤ (wrap_i64 (pos local_size)) snapshot_size)

mtime_differs : Option ℤ → ℤ → Bool
mtime_differs none snapshot_mtime = false
mtime_differs (some time) snapshot_mtime = elim (system_time_to_unix_millis time) [
  | none ↦ false
  | some mtime ↦ not (eqb_ℤ mtime snapshot_mtime)
]

snapshot_differs : Option ℤ → Option ℤ → LocalFileInfo → Bool
unfolding size_differs mtime_differs
snapshot_differs (some snapshot_mtime) (some snapshot_size) local =
    size_differs local.file_size snapshot_size || mtime_differs local.last_modified snapshot_mtime
snapshot_differs (some snapshot_mtime) none local = false
snapshot_differs none snapshot_size local = false

unfoldable pub local_snapshot_differs : FileMetadata → LocalFileInfo → Bool
unfolding snapshot_differs
local_snapshot_differs entry local = snapshot_differs entry.local_updated_at entry.local_size local

-- The Windows build.
unfoldable pub local_has_changes : LocalFileInfo → Option FileMetadata → Bool
unfolding local_snapshot_differs
local_has_changes local inventory =
    if not (is_placeholder local)
    then true
    else if not (in_sync local)
    then true
    else elim inventory [
      | none ↦ false
      | some entry ↦
          is_some entry.local_updated_at
          && (is_some entry.local_size && local_snapshot_differs entry local)
    ]

pub data RemoteChange : Type 0 where
  unchanged newer older : RemoteChange

unfoldable pub unwrap_or {ℓ} : {A : Type ℓ} → Option A → A → A
unwrap_or none d = d
unwrap_or (some a) d = a

abbrev pub bool_eq : Bool → Bool → Bool
bool_eq true b = b
bool_eq false b = not b

-- Two times that differ, with none for one that cannot be parsed.
by_time : Option ℤ → ℤ → RemoteChange
by_time none base = RemoteChange.newer
by_time (some remote_ts) base =
    if ltb_ℤ remote_ts base then RemoteChange.older else RemoteChange.newer

without_etag : Option ℤ → ℤ → RemoteChange
unfolding by_time
without_etag none base = RemoteChange.unchanged
without_etag (some remote_ts) base =
    if eqb_ℤ remote_ts base then RemoteChange.unchanged else by_time (some remote_ts) base

compare_to_base : Host → FileResponse → FileMetadata → RemoteChange
unfolding by_time without_etag unwrap_or
compare_to_base host remote entry =
    let remote_etag = unwrap_or remote.primary_entity "" in
    let remote_updated_at = host.parse_rfc3339_timestamp remote.updated_at in
    if not (bool_eq (unwrap_or remote.shared false) entry.shared)
    then RemoteChange.newer
    else if not (str_eq remote_etag entry.etag)
    then by_time remote_updated_at entry.updated_at
    else if str_eq remote_etag ""
    then without_etag remote_updated_at entry.updated_at
    else RemoteChange.unchanged

unfoldable pub remote_change : Host → FileResponse → Option FileMetadata → RemoteChange
unfolding compare_to_base
remote_change host remote none = RemoteChange.newer
remote_change host remote (some entry) = compare_to_base host remote entry

unfoldable pub fingerprints_equal : Option FileHashFingerprint → Option FileHashFingerprint → Bool
fingerprints_equal (some base) (some remote) = str_eq base.value remote.value
fingerprints_equal (some base) none = false
fingerprints_equal none remote = false
