-- ===== src/Drive/EventBlocker/Filter.antt =====
-- `filter_events` against a description over budgets alone: an event goes when one of its paths is
-- registered, the first such path pays for it, and every other event stays.
use cloudreve_desktop.Prelude.{
  ltb, if◌then◌else◌, Bool-cases, ℕ, ◌-◌, String, ◌≡◌, refl, ap, inl, inr, Bool, true, false,
  Option, none, some, List, [], ◌∷◌, arith, ◌∙◌, fun_ext,
}
use cloudreve_desktop.Drive.EventBlocker.{
  EventKind, BlockKey, key_eq, key_beq_iff, key, EventBlocker, should_block, any_blocked,
  filter_events,
}
use cloudreve_desktop.Drive.EventBlocker.Budget.{budget, should_block-budget}

abbrev Budgets : Type 0
Budgets = BlockKey → ℕ

abbrev spend : BlockKey → Budgets → Budgets
spend k f j = if key_eq.beq k j then f j - 1 else f j

module _ {Kind : Type 0} (kind : EventKind Kind) where
  -- The first path with budget left.
  pub first_registered : Budgets → List String → Option String
  first_registered f [] = none
  first_registered f (path ∷ paths) =
      if ltb 0 (f (key kind path)) then some path else first_registered f paths

  pub spend_first : Option String → Budgets → Budgets
  spend_first none f = f
  spend_first (some path) f = spend (key kind path) f

  abbrev pub is_some : Option String → Bool
  is_some none = false
  is_some (some path) = true

  spend_nothing :
      (k : BlockKey) (f : Budgets) → ltb 0 (f k) ≡ false → (j : BlockKey) → spend k f j ≡ f j
  spend_nothing k f h j = elim (Bool-cases (key_eq.beq k j)) [
    | inl same ↦ rw (← (key_beq_iff k j).0 same) (ground (arith, key_beq_iff k k))
    | inr other ↦ rw other
  ]

  -- Whether an event is blocked, and what it costs.
  pub any_blocked-first :
      (paths : List String) (b : EventBlocker)
      → ((any_blocked b kind paths).0 ≡ is_some (first_registered (budget b) paths))
        × (budget (any_blocked b kind paths).1
            ≡ spend_first (first_registered (budget b) paths) (budget b))
  unfolding any_blocked first_registered spend_first
  any_blocked-first [] b = (refl, refl)
  any_blocked-first (path ∷ paths) b =
      let (result, left) = should_block-budget b kind path in
      elim (Bool-cases (ltb 0 (budget b (key kind path)))) [
        | inl hit ↦ rw (result ∙ hit, hit) (refl, fun_ext left)
        | inr miss ↦
            rw (result ∙ miss, miss)
              (rw (fun_ext λ j. left j ∙ spend_nothing (key kind path) (budget b) miss j) at
                (any_blocked-first paths (should_block b kind path).1))
      ]

  module _ {Event : Type 0} (paths : Event → List String) where
    pub kept_events : Budgets → List Event → List Event
    kept_events f [] = []
    kept_events f (event ∷ events) =
        let first = first_registered f (paths event) in
        let rest = kept_events (spend_first first f) events in
        if is_some first then rest else event ∷ rest

    -- The filter keeps the events of the description, in order: also an event with several paths
    -- goes as soon as one of them is registered.
    pub filter_events-kept :
        (events : List Event) (b : EventBlocker)
        → (filter_events paths b events kind).0 ≡ kept_events (budget b) events
    unfolding filter_events kept_events
    filter_events-kept [] b = refl
    filter_events-kept (event ∷ events) b =
        let (hit, left) = any_blocked-first (paths event) b in
        rw (hit, ← left)
          (ap
            (λ rest.
              if is_some (first_registered (budget b) (paths event)) then rest else event ∷ rest)
            (filter_events-kept events (any_blocked b kind (paths event)).1))
