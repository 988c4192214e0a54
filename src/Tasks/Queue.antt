-- ===== src/Tasks/Queue.antt =====
-- tasks/queue.rs: how `enqueue` builds the record that it stores, and how a record that a restart
-- finds becomes a payload again.
pub mod State
pub mod Operations
pub mod Step
pub mod Frame
pub mod Counters
pub mod Quiet
pub mod SettledRows
pub mod Settled
pub mod Cancelled
pub mod Resume
use cloudreve_desktop.Prelude.Int.{ℤ, eqb_ℤ, pos}
use cloudreve_desktop.Prelude.{if◌then◌else◌, ◌>>=◌, String, not, ◌||◌, Option, none, some}
use cloudreve_desktop.Inventory.Models.{new_task_record, TaskRecord, NewTaskRecord, Platform}
use cloudreve_desktop.Tasks.Types.{new_payload, kind_as_str, kind_from_str, TaskPayload}
use cloudreve_desktop.Tasks.Types
use cloudreve_desktop.Inventory.Models

module _ (p : Platform) where
  unfoldable pub with_known_totals : Option ℤ → Option ℤ → NewTaskRecord p → NewTaskRecord p
  with_known_totals (some total) (some processed) r = Models.with_totals p total processed r
  with_known_totals (some total) none r = Models.with_totals p total (pos 0) r
  with_known_totals none (some processed) r = Models.with_totals p (pos 0) processed r
  with_known_totals none none r = r

  unfoldable pub with_state : Option p.Value → NewTaskRecord p → NewTaskRecord p
  with_state none r = r
  with_state (some state) r = Models.with_custom_state p state r

  -- The record that `enqueue` stores for a payload.
  unfoldable pub record_for : String → String → TaskPayload p → ℤ → NewTaskRecord p
  record_for drive_id task_id payload now = with_state payload.custom_state (
      with_known_totals payload.total_bytes payload.processed_bytes (
        Models.with_priority p payload.priority
          (new_task_record p task_id drive_id (kind_as_str payload.kind) payload.local_path now)))

  unfoldable pub payload_totals : ℤ → ℤ → TaskPayload p → TaskPayload p
  payload_totals total_bytes processed_bytes t =
      if not (eqb_ℤ total_bytes (pos 0)) || not (eqb_ℤ processed_bytes (pos 0))
      then Types.with_totals p processed_bytes total_bytes t
      else t

  unfoldable pub payload_state : Option p.Value → TaskPayload p → TaskPayload p
  payload_state none t = t
  payload_state (some state) t = Types.with_custom_state p state t

  unfoldable pub payload_from_record : TaskRecord p → Option (TaskPayload p)
  payload_from_record r = do
    kind ← kind_from_str r.task_type
    some (
        payload_state r.custom_state (
          payload_totals r.total_bytes r.processed_bytes (
            Types.with_task_id p r.id
              (Types.with_priority p r.priority (new_payload p kind r.local_path)))))
