-- ===== src/Drive/EventBlocker/Budget.antt =====
-- The budget of a key is how many more of its events will be blocked. The theorems say what each
-- operation does to every budget, and that a sequence of checks blocks exactly the registered number.
use cloudreve_desktop.Prelude.{
  ltb, if◌then◌else◌, ℕ, ◌+◌, ◌-◌, ◌%◌, ◌<◌, String, ◌≡◌, arith, refl, Option, none, some, min,
  Bool, true, false, List, [], ◌∷◌, ◌==◌, Bool-cases, inl, inr,
}
use cloudreve_desktop.Dict.{insert, remove, lookup, lookup-insert, lookup-remove}
use cloudreve_desktop.Dict.Keys.{
  Distinct, Values, insert-Distinct, insert-Values, remove-Distinct, remove-Values,
}
use cloudreve_desktop.Drive.EventBlocker.{
  take_one, key_beq_iff, EventKind, BlockKey, key_eq, key, usize_mod, EventBlocker, new, or_zero,
  register, should_block,
}

abbrev pub budget : EventBlocker → BlockKey → ℕ
budget b k = or_zero (lookup k b.blocked)

-- What the code keeps: one entry for each key, and none at zero.
pub record IsValid (b : EventBlocker) : Type 0 where
  pub distinct : Distinct b.blocked
  pub positive : Values (λ n. 0 < n) b.blocked

new-IsValid : IsValid new
unfolding new
new-IsValid = record { distinct = tt; positive = tt }

module _ (k : BlockKey) (b : EventBlocker) where
  -- What the body of the `if let` does, at the entry that the lookup finds.
  take_one-budget :
      (o : Option ℕ)
      → lookup k b.blocked ≡ o
      → ((take_one k o b).0 ≡ ltb 0 (or_zero o))
        × ((j : BlockKey)
            → budget (take_one k o b).1 j ≡ (if key_eq.beq k j then budget b j - 1 else budget b j))
  unfolding take_one
  take_one-budget none e = (refl, λ j. ground (arith, key_beq_iff k j))
  take_one-budget (some n) e = (
    ground arith,
    λ j.
        ground (
          arith,
          key_beq_iff k j,
          lookup-remove k j b.blocked,
          lookup-insert k j (n - 1) b.blocked,
        ),
  )

  removed-IsValid : IsValid b → IsValid (record { blocked = remove k b.blocked })
  removed-IsValid v = record {
    distinct = remove-Distinct k b.blocked v.distinct;
    positive = remove-Values (λ n. 0 < n) k b.blocked v.positive;
  }

  inserted-IsValid :
      (n : ℕ) → 0 < n → IsValid b → IsValid (record { blocked = insert k n b.blocked })
  inserted-IsValid n h v = record {
    distinct = insert-Distinct k n b.blocked v.distinct;
    positive = insert-Values (λ n. 0 < n) k n b.blocked h v.positive;
  }

  take_one-IsValid : (o : Option ℕ) → IsValid b → IsValid (take_one k o b).1
  unfolding take_one
  take_one-IsValid none v = v
  take_one-IsValid (some n) v = elim (Bool-cases (ltb 0 n)) [
    | inl more ↦ elim (Bool-cases (n - 1 == 0)) [
      | inl last ↦ rw (more, last) (removed-IsValid v)
      | inr left ↦ rw (more, left) (inserted-IsValid (n - 1) (ground arith) v)
    ]
    | inr empty ↦ rw empty v
  ]

module _ {Kind : Type 0} (b : EventBlocker) (kind : EventKind Kind) (path : String) where
  -- Registering adds `count` to the budget of its key, modulo 2 ^ 64, and changes no other budget.
  pub budget-register :
      (count : ℕ) (k : BlockKey)
      → budget (register b kind path count) k ≡ (
          if key_eq.beq (key kind path) k
          then (budget b (key kind path) + count) % usize_mod
          else budget b k)
  unfolding register
  budget-register count k = rw lookup-insert (ground arith)

  -- A registration with a positive count keeps one entry for each key and none at zero, where the new
  -- budget fits in a usize.
  pub register-IsValid :
      (count : ℕ)
      → 0 < count
      → budget b (key kind path) + count < usize_mod
      → IsValid b
      → IsValid (register b kind path count)
  unfolding register
  register-IsValid count c fits v = record {
    distinct = insert-Distinct _ _ b.blocked v.distinct;
    positive = insert-Values (λ n. 0 < n) _ _ b.blocked (omega arith) v.positive;
  }

  -- A check blocks exactly while the budget of its key is positive, takes one from it, and changes
  -- no other budget.
  pub should_block-budget :
      ((should_block b kind path).0 ≡ ltb 0 (budget b (key kind path)))
      × ((k : BlockKey)
          → budget (should_block b kind path).1 k
            ≡ (if key_eq.beq (key kind path) k then budget b k - 1 else budget b k))
  unfolding should_block
  should_block-budget = take_one-budget (key kind path) b _ refl

  -- A check keeps one entry for each key and none at zero, so the map holds no entry that is used up.
  pub should_block-IsValid : IsValid b → IsValid (should_block b kind path).1
  unfolding should_block
  should_block-IsValid v = take_one-IsValid (key kind path) b (lookup (key kind path) b.blocked) v

-- A sequence of checks, one for each event that arrives.
abbrev pub Check : Type 0 → Type 0
Check Kind = EventKind Kind × String

module _ {Kind : Type 0} where
  pub checks : EventBlocker → List (Check Kind) → List Bool × EventBlocker
  checks b [] = ([], b)
  checks b ((kind, path) ∷ rest) =
      let (hit, b') = should_block b kind path in
      let (hits, b'') = checks b' rest in (hit ∷ hits, b'')

  -- How many of the checks are of this key, and how many of those blocked.
  abbrev pub occurrences : BlockKey → List (Check Kind) → ℕ
  occurrences k [] = 0
  occurrences k ((kind, path) ∷ rest) =
      (if key_eq.beq (key kind path) k then 1 else 0) + occurrences k rest

  abbrev pub hits_of : BlockKey → List (Check Kind) → List Bool → ℕ
  hits_of k ((kind, path) ∷ rest) (true ∷ hits) =
      (if key_eq.beq (key kind path) k then 1 else 0) + hits_of k rest hits
  hits_of k (_ ∷ rest) (false ∷ hits) = hits_of k rest hits
  hits_of k _ _ = 0

  -- Of the checks of a key, exactly as many block as its budget allows, and the budget falls by
  -- as many.
  pub checks_exact :
      (k : BlockKey) (es : List (Check Kind)) (b : EventBlocker)
      → (hits_of k es (checks b es).0 ≡ min (budget b k) (occurrences k es))
        × (budget (checks b es).1 k ≡ budget b k - occurrences k es)
  unfolding checks
  checks_exact k [] b = (omega arith, omega arith)
  checks_exact k ((kind, path) ∷ rest) b =
      let (result, left) = should_block-budget b kind path in
      let (count, after) = checks_exact k rest (should_block b kind path).1 in
      (
        ground (arith, result, left k, count, key_beq_iff (key kind path) k),
        ground (arith, left k, after),
      )
