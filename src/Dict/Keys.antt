-- ===== src/Dict/Keys.antt =====
-- Each key has one entry, and what holds of every entry.
use cloudreve_desktop.Prelude.{Bool-cases, ◌≡◌, sym, inl, inr, true, false, List, [], ◌∷◌, arith}
use cloudreve_desktop.Dict.{Eq, insert, remove}

module _ {ℓ κ} {K : Type ℓ} {V : Type κ} ⦃e : Eq K⦄ where
  -- No entry has this key.
  abbrev pub Fresh : K → List (K × V) → Type 0
  Fresh k [] = Unit
  Fresh k ((j, v) ∷ m) = (e.beq j k ≡ false) × Fresh k m

  abbrev pub Distinct : List (K × V) → Type 0
  Distinct [] = Unit
  Distinct ((k, v) ∷ m) = Fresh k m × Distinct m

  insert-Fresh :
      (k j : K) (v : V) (m : List (K × V)) → e.beq k j ≡ false → Fresh j m → Fresh j (insert k v m)
  unfolding insert
  insert-Fresh k j v [] h f = (h, tt)
  insert-Fresh k j v ((i, w) ∷ m) h f = ground (arith, insert-Fresh k j v m)

  remove-Fresh : (k j : K) (m : List (K × V)) → Fresh j m → Fresh j (remove k m)
  unfolding remove
  remove-Fresh k j [] f = tt
  remove-Fresh k j ((i, w) ∷ m) f = ground (arith, remove-Fresh k j m)

  pub insert-Distinct : (k : K) (v : V) (m : List (K × V)) → Distinct m → Distinct (insert k v m)
  unfolding insert
  insert-Distinct k v [] d = (tt, tt)
  insert-Distinct k v ((i, w) ∷ m) d = elim (Bool-cases (e.beq i k)) [
    | inl same ↦ rw same (Fresh_of_eq same, d.1)
    | inr other ↦ rw other (
      insert-Fresh k i v m (ground (arith, e.beq_iff i k, e.beq_iff k i)) d.0,
      insert-Distinct k v m d.1,
    )
  ]
    where
      Fresh_of_eq : e.beq i k ≡ true → Fresh k m
      Fresh_of_eq same = rw (sym ((e.beq_iff i k).0 same)) d.0

  pub remove-Distinct : (k : K) (m : List (K × V)) → Distinct m → Distinct (remove k m)
  unfolding remove
  remove-Distinct k [] d = tt
  remove-Distinct k ((i, w) ∷ m) d = ground (arith, remove-Distinct k m, remove-Fresh k i m)

  -- A property of every value is kept by an insert of a value that has it, and by a removal.
  abbrev pub Values : (V → Type 0) → List (K × V) → Type 0
  Values P [] = Unit
  Values P ((k, v) ∷ m) = P v × Values P m

  pub insert-Values :
      (P : V → Type 0) (k : K) (v : V) (m : List (K × V))
      → P v
      → Values P m
      → Values P (insert k v m)
  unfolding insert
  insert-Values P k v [] p h = (p, tt)
  insert-Values P k v ((i, w) ∷ m) p h = elim (Bool-cases (e.beq i k)) [
    | inl same ↦ rw same (p, h.1)
    | inr other ↦ rw other (h.0, insert-Values P k v m p h.1)
  ]

  pub remove-Values :
      (P : V → Type 0) (k : K) (m : List (K × V)) → Values P m → Values P (remove k m)
  unfolding remove
  remove-Values P k [] h = tt
  remove-Values P k ((i, w) ∷ m) h = elim (Bool-cases (e.beq i k)) [
    | inl same ↦ rw same (remove-Values P k m h.1)
    | inr other ↦ rw other (h.0, remove-Values P k m h.1)
  ]
