-- ===== src/Drive/EventBlocker.antt =====
-- drive/event_blocker.rs: file system events that the client caused itself are blocked, each as
-- often as it was registered. The mutex is held for the whole of each operation, so an operation
-- is a function from the map to the map. `Kind` stands for the kinds of the notify crate that the
-- code never looks into; the logging is left out.
pub mod Budget
pub mod Filter
use cloudreve_desktop.Dict.{Eq, lookup, insert, remove}
use cloudreve_desktop.Prelude.{
  ltb, ◌==◌, if◌then◌else◌, length, ℕ, ◌+◌, ◌-◌, ◌%◌, ◌^◌, String, ◌≡◌, ◌↔◌, Bool, true, false,
  ◌&&◌, Option, none, some, List, [], ◌∷◌, arith, eq_iff, str_eq,
}

-- notify's EventKind, with the constructors that the client matches on.
pub data RenameMode (Kind : Type 0) : Type 0 where
  both : RenameMode Kind
  rename_mode : Kind → RenameMode Kind

pub data ModifyKind (Kind : Type 0) : Type 0 where
  name : RenameMode Kind → ModifyKind Kind
  modify_kind : Kind → ModifyKind Kind

pub data EventKind (Kind : Type 0) : Type 0 where
  any_event : EventKind Kind
  access create remove_event : Kind → EventKind Kind
  modify : ModifyKind Kind → EventKind Kind
  other_event : EventKind Kind

pub data NormalizedEventKind : Type 0 where
  any_kind access_kind create_kind modify_kind modify_name_from remove_kind other_kind :
      NormalizedEventKind

unfoldable pub normalize : {Kind : Type 0} → EventKind Kind → NormalizedEventKind
normalize any_event = any_kind
normalize (access k) = access_kind
normalize (create k) = create_kind
normalize (modify (name mode)) = modify_name_from
normalize (modify (modify_kind k)) = NormalizedEventKind.modify_kind
normalize (remove_event k) = remove_kind
normalize other_event = other_kind

pub record BlockKey : Type 0 where
  pub kind : NormalizedEventKind
  pub path : String

-- The derived equality of the keys.
abbrev pub tag : NormalizedEventKind → ℕ
tag any_kind = 0
tag access_kind = 1
tag create_kind = 2
tag NormalizedEventKind.modify_kind = 3
tag modify_name_from = 4
tag remove_kind = 5
tag other_kind = 6

abbrev key_beq : BlockKey → BlockKey → Bool
key_beq a b = (tag a.kind == tag b.kind) && str_eq a.path b.path

tag-injective : (a b : NormalizedEventKind) → tag a ≡ tag b → a ≡ b
tag-injective a b h = ground arith

pub key_beq_iff : (a b : BlockKey) → (key_beq a b ≡ true) ↔ (a ≡ b)
key_beq_iff a b = (
  λ h. same (tag-injective a.kind b.kind (ground arith)) ((eq_iff a.path b.path).0 (ground arith)),
  λ h. rw h (ground (arith, eq_iff b.path b.path)),
)
  where
    same : a.kind ≡ b.kind → a.path ≡ b.path → a ≡ b
    same p q = λ i. record { kind = p i; path = q i }

instance abbrev pub key_eq : Eq BlockKey
key_eq = record { beq = key_beq; beq_iff = key_beq_iff }

abbrev pub usize_mod : ℕ
usize_mod = 2 ^ 64

pub record EventBlocker : Type 0 where
  pub blocked : List (BlockKey × ℕ)

unfoldable pub new : EventBlocker
new = record { blocked = [] }

abbrev pub or_zero : Option ℕ → ℕ
or_zero none = 0
or_zero (some n) = n

-- The body of `if let Some(count) = blocked.get_mut(&key)`.
unfoldable pub take_one : BlockKey → Option ℕ → EventBlocker → Bool × EventBlocker
take_one k none b = (false, b)
take_one k (some count) b =
    if ltb 0 count
    then (
      true,
      record {
        blocked = if count - 1 == 0 then remove k b.blocked else insert k (count - 1) b.blocked;
      },
    )
    else (false, b)

module _ {Kind : Type 0} where
  abbrev pub key : EventKind Kind → String → BlockKey
  unfolding normalize
  key kind path = record { kind = normalize kind; path = path }

  unfoldable pub register : EventBlocker → EventKind Kind → String → ℕ → EventBlocker
  register b kind path count = record {
    blocked =
        let old = or_zero (lookup (key kind path) b.blocked) in
        insert (key kind path) ((old + count) % usize_mod) b.blocked;
  }

  unfoldable pub register_once : EventBlocker → EventKind Kind → String → EventBlocker
  register_once b kind path = register b kind path 1

  unfoldable pub should_block : EventBlocker → EventKind Kind → String → Bool × EventBlocker
  unfolding take_one
  should_block b kind path = take_one (key kind path) (lookup (key kind path) b.blocked) b

  -- The loop over `event.paths`, which stops at the first path that is blocked.
  pub any_blocked : EventBlocker → EventKind Kind → List String → Bool × EventBlocker
  any_blocked b kind [] = (false, b)
  any_blocked b kind (path ∷ paths) =
      let (hit, b') = should_block b kind path in
      let rest = any_blocked b' kind paths in if hit then (true, b') else rest

  module _ {Event : Type 0} (paths : Event → List String) where
    pub filter_events : EventBlocker → List Event → EventKind Kind → List Event × EventBlocker
    filter_events b [] kind = ([], b)
    filter_events b (event ∷ events) kind =
        let (hit, b') = any_blocked b kind (paths event) in
        let (kept, b'') = filter_events b' events kind in (if hit then kept else event ∷ kept, b'')

unfoldable pub clear : EventBlocker → EventBlocker
clear b = record { blocked = [] }

unfoldable pub len : EventBlocker → ℕ
len b = length b.blocked

unfoldable pub is_empty : EventBlocker → Bool
unfolding len
is_empty b = len b == 0
