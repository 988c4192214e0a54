-- ===== src/Dict/Groups.antt =====
-- Values grouped by a key: `map.entry(key).or_default().push(value)` for each value in turn.
use cloudreve_desktop.Prelude.{
  if◌then◌else◌, ◌≡◌, refl, ◌∙◌, ap, sym, Bool-cases, inl, inr, Option, none, some, List, [], ◌∷◌,
  ◌++◌, append-nil, append_assoc,
}
use cloudreve_desktop.Dict.{Eq, lookup, insert, lookup-insert}
use cloudreve_desktop.Dict.Keys.{Distinct, insert-Distinct}

abbrev pub or_default {κ} : {V : Type κ} → Option (List V) → List V
or_default none = []
or_default (some values) = values

module _ {ℓ κ} {K : Type ℓ} {V : Type κ} ⦃e : Eq K⦄ where
  unfoldable pub push_group : K → V → List (K × List V) → List (K × List V)
  push_group k v m = insert k (or_default (lookup k m) ++ v ∷ []) m

  -- What a key has been given.
  abbrev pub group : K → List (K × List V) → List V
  group k m = or_default (lookup k m)

  pub group-push_group :
      (k j : K) (v : V) (m : List (K × List V))
      → group j (push_group k v m) ≡ (if e.beq k j then group j m ++ v ∷ [] else group j m)
  unfolding push_group
  group-push_group k j v m = elim (Bool-cases (e.beq k j)) [
    | inl same ↦ ap or_default (lookup-insert k j _ m) ∙ rw same (rw ((e.beq_iff k j).0 same) refl)
    | inr distinct ↦ ap or_default (lookup-insert k j _ m) ∙ rw distinct refl
  ]

  push_group-Distinct :
      (k : K) (v : V) (m : List (K × List V)) → Distinct m → Distinct (push_group k v m)
  unfolding push_group
  push_group-Distinct k v m d = insert-Distinct k _ m d

module _ {ℓ κ μ} {K : Type ℓ} {A : Type κ} {V : Type μ} ⦃e : Eq K⦄ (key : A → K)
    (value : A → V) where
  unfoldable pub group_by : List A → List (K × List V) → List (K × List V)
  unfolding push_group
  group_by [] m = m
  group_by (a ∷ as') m = group_by as' (push_group (key a) (value a) m)

  abbrev pub values_at : K → List A → List V
  values_at k [] = []
  values_at k (a ∷ as') =
      let rest = values_at k as' in if e.beq (key a) k then value a ∷ rest else rest

  pub group-group_by :
      (k : K) (as' : List A) (m : List (K × List V))
      → group k (group_by as' m) ≡ group k m ++ values_at k as'
  unfolding group_by
  group-group_by k [] m = sym (append-nil (group k m))
  group-group_by k (a ∷ as') m =
      group-group_by k as' (push_group (key a) (value a) m)
      ∙ (ap (λ g. g ++ values_at k as') (group-push_group (key a) k (value a) m) ∙ step)
    where
      step :
          (if e.beq (key a) k then group k m ++ value a ∷ [] else group k m) ++ values_at k as'
          ≡ group k m ++ values_at k (a ∷ as')
      step = elim (Bool-cases (e.beq (key a) k)) [
        | inl same ↦ rw same (rw append_assoc refl)
        | inr distinct ↦ rw distinct refl
      ]

  pub group_by-Distinct :
      (as' : List A) (m : List (K × List V)) → Distinct m → Distinct (group_by as' m)
  unfolding group_by
  group_by-Distinct [] m d = d
  group_by-Distinct (a ∷ as') m d =
      group_by-Distinct as' _ (push_group-Distinct (key a) (value a) m d)
