-- ===== src/Tasks/Queue/Resume.antt =====
-- The way of a payload through the task table and back.
use cloudreve_desktop.Tasks.Queue.{
  payload_totals, payload_from_record, with_state, with_known_totals, record_for, payload_state,
}
use cloudreve_desktop.Prelude.Int.{ℤ, eqb_ℤ, pos}
use cloudreve_desktop.Prelude.{
  if◌then◌else◌, String, ◌≡◌, refl, Bool, false, not, ◌||◌, none, some, true, Option, ◌>>=◌, ap,
  ◌∙◌, sym, subst, some_inj,
}
use cloudreve_desktop.Inventory.Models.{
  NewTaskRecord, new_task_record, TaskStatus, status_as_str, status_from_str, Platform,
}
use cloudreve_desktop.Inventory.Tasks.{
  traverse_option-read, row_from_record, traverse_option, record_from_row, new_row, or_else,
  TaskRow,
}
use cloudreve_desktop.Tasks.Types.{new_payload, TaskKind, kind_as_str, kind_from_str, TaskPayload}
use cloudreve_desktop.Tasks.Types
use cloudreve_desktop.Inventory.Models

-- Some of the two numbers is known and not 0.
unfoldable pub has_totals : ℤ → ℤ → Bool
has_totals total processed = not (eqb_ℤ total (pos 0)) || not (eqb_ℤ processed (pos 0))

-- What a restart makes of a payload: an unknown number of bytes is 0, both are unknown if both are
-- 0, and the override flag is off.
unfoldable pub resumed : {p : Platform} → String → TaskPayload p → TaskPayload p
resumed id t =
    let total = or_else t.total_bytes (pos 0) in
    let processed = or_else t.processed_bytes (pos 0) in
    record t {
      task_id = some id;
      total_bytes = if has_totals total processed then some total else none;
      processed_bytes = if has_totals total processed then some processed else none;
      force_override = false;
    }

pub kind_from_str-kind_as_str : (kind : TaskKind) → kind_from_str (kind_as_str kind) ≡ some kind
unfolding kind_from_str kind_as_str
kind_from_str-kind_as_str TaskKind.upload = refl
kind_from_str-kind_as_str TaskKind.download = refl

pub status_from_str-status_as_str :
    (status : TaskStatus) → status_from_str (status_as_str status) ≡ some status
unfolding status_from_str status_as_str
status_from_str-status_as_str TaskStatus.pending = refl
status_from_str-status_as_str TaskStatus.running = refl
status_from_str-status_as_str TaskStatus.completed = refl
status_from_str-status_as_str TaskStatus.failed = refl
status_from_str-status_as_str TaskStatus.cancelled = refl

-- serde_json reads back what it wrote.
unfoldable pub Reads : Platform → Type 0
Reads p = (v : p.Value) (s : String) → p.to_string v ≡ some s → p.from_str s ≡ some v

module _ (p : Platform) where
  -- The payload that `payload_from_record` builds, with its totals and its state.
  rebuilt : String → TaskKind → String → ℤ → Option ℤ → Option ℤ → Option p.Value → TaskPayload p
  rebuilt id kind local_path priority total processed state = record {
    task_id = some id;
    kind = kind;
    local_path = local_path;
    priority = priority;
    total_bytes = total;
    processed_bytes = processed;
    custom_state = state;
    force_override = false;
  }

  totals-known :
      (id : String) (kind : TaskKind) (local_path : String) (priority total processed : ℤ)
      (b : Bool)
      → (if b
          then Types.with_totals p processed total (
              Types.with_task_id p id
                (Types.with_priority p priority (new_payload p kind local_path)))
          else (Types.with_task_id p id
              (Types.with_priority p priority (new_payload p kind local_path))))
        ≡ rebuilt id kind local_path priority
            (if b then some total else none)
            (if b then some processed else none)
            none
  unfolding rebuilt Types.with_totals Types.with_task_id Types.with_priority new_payload
  totals-known id kind local_path priority total processed true = refl
  totals-known id kind local_path priority total processed false = refl

  state-known :
      (id : String) (kind : TaskKind) (local_path : String) (priority : ℤ)
      (total processed : Option ℤ) (state : Option p.Value)
      → payload_state p state (rebuilt id kind local_path priority total processed none)
        ≡ rebuilt id kind local_path priority total processed state
  unfolding payload_state rebuilt Types.with_custom_state
  state-known id kind local_path priority total processed none = refl
  state-known id kind local_path priority total processed (some state) = refl

  stored : String → String → TaskPayload p → ℤ → NewTaskRecord p
  stored drive_id task_id t now =
      record (new_task_record p task_id drive_id (kind_as_str t.kind) t.local_path now) {
        priority = t.priority;
        total_bytes = or_else t.total_bytes (pos 0);
        processed_bytes = or_else t.processed_bytes (pos 0);
        custom_state = t.custom_state;
      }

  totals-stored :
      (base : NewTaskRecord p) (total processed : Option ℤ)
      → base.total_bytes ≡ pos 0
      → base.processed_bytes ≡ pos 0
      → with_known_totals p total processed base ≡ record base {
        total_bytes = or_else total (pos 0);
        processed_bytes = or_else processed (pos 0);
      }
  unfolding with_known_totals Models.with_totals
  totals-stored base (some total) (some processed) e f = refl
  totals-stored base (some total) none e f = refl
  totals-stored base none (some processed) e f = refl
  totals-stored base none none e f = λ i. record base { total_bytes = e i; processed_bytes = f i }

  state-stored :
      (base : NewTaskRecord p) (state : Option p.Value)
      → base.custom_state ≡ none
      → with_state p state base ≡ record base { custom_state = state }
  unfolding with_state Models.with_custom_state
  state-stored base none e = λ i. record base { custom_state = e i }
  state-stored base (some state) e = refl

  record_for-stored :
      (drive_id task_id : String) (t : TaskPayload p) (now : ℤ)
      → record_for p drive_id task_id t now ≡ stored drive_id task_id t now
  unfolding record_for stored Models.with_priority new_task_record
  record_for-stored drive_id task_id t now =
      ap (with_state p t.custom_state) (totals-stored _ t.total_bytes t.processed_bytes refl refl)
      ∙ state-stored _ t.custom_state refl

  payload-stored :
      (drive_id task_id : String) (t : TaskPayload p) (now : ℤ) (text : Option String)
      → traverse_option p.from_str text ≡ some t.custom_state
      → (record_from_row p (new_row p (stored drive_id task_id t now) text)
          >>= payload_from_record p)
        ≡ some (resumed task_id t)
  unfolding record_from_row new_row stored new_task_record payload_from_record payload_totals
      has_totals resumed rebuilt
  payload-stored drive_id task_id t now text e =
      rw (status_from_str-status_as_str TaskStatus.pending, e, kind_from_str-kind_as_str t.kind)
        (ap some (
          ap (payload_state p t.custom_state)
            (totals-known task_id t.kind t.local_path t.priority _ _ _)
          ∙ state-known task_id t.kind t.local_path t.priority _ _ t.custom_state))

  stored-read :
      (reads : Reads p) (drive_id task_id : String) (t : TaskPayload p) (now : ℤ) (row : TaskRow p)
      (printed : Option (Option String))
      → traverse_option p.to_string t.custom_state ≡ printed
      → (printed >>= λ text. some (new_row p (stored drive_id task_id t now) text)) ≡ some row
      → (record_from_row p row >>= payload_from_record p) ≡ some (resumed task_id t)
  unfolding Reads
  stored-read reads drive_id task_id t now row none e h = absurd cc
  stored-read reads drive_id task_id t now row (some text) e h =
      subst (λ r. (record_from_row p r >>= payload_from_record p) ≡ some (resumed task_id t))
        (some_inj.0 h)
        (payload-stored drive_id task_id t now text
          (traverse_option-read p.to_string p.from_str reads t.custom_state text e))

-- A payload whose record was stored and is read back after a restart is the payload as `enqueue`
-- sent it, except that unknown numbers of bytes are known to be 0 if the other is not 0, that numbers
-- of bytes that are both 0 are unknown, and that `force_override` is off; provided that serde_json
-- writes its custom state and reads back what it wrote.
pub payload_from_record-record_for :
    (p : Platform) (reads : Reads p) (drive_id task_id : String) (t : TaskPayload p) (now : ℤ)
    (row : TaskRow p)
    → row_from_record p (record_for p drive_id task_id t now) ≡ some row
    → (record_from_row p row >>= payload_from_record p) ≡ some (resumed task_id t)
unfolding row_from_record stored new_task_record
payload_from_record-record_for p reads drive_id task_id t now row h =
    stored-read p reads drive_id task_id t now row _ refl
      (ap (row_from_record p) (sym (record_for-stored p drive_id task_id t now)) ∙ h)
