-- ===== src/Drive/SyncRun/Seen.antt =====
-- What a synchronisation has read when it plans: the local and the inventory state of each path as they
-- were answered earlier in the same run. The log tells which destructive calls had such a reason.
use cloudreve_desktop.Prelude.{
  String, ◌≡◌, refl, sym, ◌∙◌, ap, inl, inr, ◌⊎◌, true, false, [], ◌∷◌, ◌++◌, append_assoc, List,
  All,
}
use cloudreve_desktop.Dict.{string_eq}
use cloudreve_desktop.Drive.Files.{FileResponse}
use cloudreve_desktop.Drive.SyncPlan.Model.{SyncAction}
use cloudreve_desktop.Drive.SyncPlan.Content.{Keeps}
use cloudreve_desktop.Drive.SyncRun.Calls.{Log, Call, Environment, after}
use cloudreve_desktop.Drive.SyncRun.Actions.{not_empty}
use cloudreve_desktop.Drive.SyncRun.Gather.{Reading, ◌>>=◌}

-- One log is an earlier part of another.
abbrev pub Earlier : Log → Log → Type 0
Earlier old log = (newer : Log) × (log ≡ newer ++ old)

pub Earlier-refl : (log : Log) → Earlier log log
Earlier-refl log = ([], refl)

pub Earlier-trans : {a b c : Log} → Earlier a b → Earlier b c → Earlier a c
Earlier-trans {a} (m, e) (n, f) = (n ++ m, f ∙ ap (λ l. n ++ l) e ∙ sym (append_assoc n m a))

pub Earlier-after : (env : Environment) (call : Call) (log : Log) → Earlier log (after env call log)
unfolding after
Earlier-after env call log = ((call, env.attempt log call) ∷ [], refl)

-- At three earlier moments the path was not ignored, and its local and its inventory state permitted
-- the action.
pub record Permitted (env : Environment) (log : Log) (path : String) (action : SyncAction)
    : Type 0 where
  pub when_planned : Log
  pub when_local : Log
  pub when_row : Log
  pub earlier_planned : Earlier when_planned log
  pub earlier_local : Earlier when_local log
  pub earlier_row : Earlier when_row log
  pub shown : (env.host when_planned).is_ignored path ≡ false
  pub keeps :
      Keeps
        (env.host when_planned)
        (env.local_info when_local path)
        (env.inventory_row when_row path)
        action

pub Permitted-later :
    {env : Environment} {log log' : Log} {path : String} {action : SyncAction}
    → Permitted env log path action
    → Earlier log log'
    → Permitted env log' path action
Permitted-later {log = log} {log' = log'} p e = record {
  when_planned = p.when_planned;
  when_local = p.when_local;
  when_row = p.when_row;
  earlier_planned = Earlier-trans {b = log} p.earlier_planned e;
  earlier_local = Earlier-trans {b = log} p.earlier_local e;
  earlier_row = Earlier-trans {b = log} p.earlier_row e;
  shown = p.shown;
  keeps = p.keeps;
}

-- A directory was found empty, or could not be read.
abbrev pub FoundEmpty : Environment → Log → String → Type 0
FoundEmpty env log path =
    (when : Log) × Earlier when log × (not_empty (env.count when path) ≡ false)

-- Why a call that can lose local content may be made after a log.
abbrev pub Allowed : Environment → Log → Call → Type 0
Allowed env log (Call.delete_placeholder path) =
    Permitted env log path (SyncAction.delete_local_and_inventory path false)
    ⊎ (Permitted env log path (SyncAction.delete_local_and_inventory path true)
        × FoundEmpty env log path)
Allowed env log (Call.enqueue_download path) =
    (remote : FileResponse) × Permitted env log path (SyncAction.queue_download path remote)
Allowed env log (Call.commit path remote true) =
    Permitted env log path (SyncAction.update_inventory_from_remote path remote true)
Allowed env log _ = Unit

-- Every call of a log was allowed when it was made.
abbrev pub Careful : Environment → Log → Type 0
Careful env [] = Unit
Careful env ((call, outcome) ∷ log) = Allowed env log call × Careful env log

-- What a reading gives, with the log that it leaves, which is careful if it was.
abbrev pub Gives : Environment → Log → {A : Type 0} → (A → Log → Type 0) → Reading A → Type 0
Gives env base P (inl fault, log) = Earlier base log × Careful env log
Gives env base P (inr a, log) = Earlier base log × Careful env log × P a log

pub Gives-later :
    (env : Environment) (base log : Log) {B : Type 0} (R : B → Log → Type 0) (m : Reading B)
    → Earlier base log
    → Gives env log R m
    → Gives env base R m
Gives-later env base log R (inl fault, log') e (e', c') = (Earlier-trans {b = log} e e', c')
Gives-later env base log R (inr b, log') e (e', c', r) = (Earlier-trans {b = log} e e', c', r)

pub Gives-bind :
    (env : Environment) (base : Log) {A B : Type 0} (P : A → Log → Type 0) (R : B → Log → Type 0)
    (m : Reading A) (f : A → Log → Reading B)
    → Gives env base P m
    → ((a : A) (log : Log)
        → Earlier base log
        → Careful env log
        → P a log
        → Gives env log R (f a log))
    → Gives env base R (m >>= f)
Gives-bind env base P R (inl fault, log) f h k = h
Gives-bind env base P R (inr a, log) f (e, c, p) k =
    Gives-later env base log R (f a log) e (k a log e c p)

pub Gives-map :
    (env : Environment) (base : Log) {A : Type 0} (P R : A → Log → Type 0) (m : Reading A)
    → ((a : A) (log : Log) → P a log → R a log)
    → Gives env base P m
    → Gives env base R m
Gives-map env base P R (inl fault, log) f h = h
Gives-map env base P R (inr a, log) f (e, c, p) = (e, c, f a log p)

pub All-map {ℓ κ μ} :
    {A : Type ℓ} (P : A → Type κ) (R : A → Type μ) (xs : List A)
    → ((a : A) → P a → R a)
    → All P xs
    → All R xs
All-map P R [] f h = tt
All-map P R (x ∷ xs) f (h, hs) = (f x h, All-map P R xs f hs)

abbrev pub Any : {A : Type 0} → A → Log → Type 0
Any a log = Unit
