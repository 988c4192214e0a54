-- ===== src/Drive/SyncRun/LowerGroups.antt =====
-- Groups of paths by a key, all of them lower than a bound.
use cloudreve_desktop.Prelude.{
  and_right, all, ◌&&◌, ℕ, String, ◌≡◌, refl, Bool, true, false, List, [], ◌∷◌, arith, if-rule,
  ◌++◌, str_eq,
}
use cloudreve_desktop.Dict.{insert, lookup, string_eq}
use cloudreve_desktop.Dict.Groups.{group_by, push_group, or_default}
use cloudreve_desktop.Drive.SyncRun.Lower.{below, all-append}

pub and_left : (a b : Bool) → (a && b) ≡ true → a ≡ true
and_left true b h = refl
and_left false b h = h

and_both : (a b : Bool) → a ≡ true → b ≡ true → (a && b) ≡ true
and_both a b p q = ground arith

module _ (height : String → ℕ) where
  -- Groups of paths below the fuel, none of them empty.
  abbrev pub lower_group : ℕ → String × List String → Bool
  lower_group fuel (parent, []) = false
  lower_group fuel (parent, path ∷ paths) = all (below height fuel) (path ∷ paths)

  abbrev pub lower_groups : ℕ → List (String × List String) → Bool
  lower_groups fuel = all (lower_group fuel)

  same_paths :
      (fuel : ℕ) (parent other : String) (paths : List String)
      → lower_group fuel (parent, paths) ≡ true
      → lower_group fuel (other, paths) ≡ true
  same_paths fuel parent other [] h = h
  same_paths fuel parent other (path ∷ paths) h = h

  snoc_lower :
      (fuel : ℕ) (parent other path : String) (paths : List String)
      → below height fuel path ≡ true
      → lower_group fuel (other, paths) ≡ true
      → lower_group fuel (parent, paths ++ path ∷ []) ≡ true
  snoc_lower fuel parent other path [] h g = absurd cc
  snoc_lower fuel parent other path (first ∷ paths) h g =
      all-append (below height fuel) (first ∷ paths) (path ∷ []) g (and_both _ _ h refl)

  insert-lower :
      (fuel : ℕ) (parent : String) (paths : List String) (groups : List (String × List String))
      → lower_group fuel (parent, paths) ≡ true
      → lower_groups fuel groups ≡ true
      → lower_groups fuel (insert parent paths groups) ≡ true
  unfolding insert
  insert-lower fuel parent paths [] h g = ground arith
  insert-lower fuel parent paths ((other, known) ∷ groups) h g =
      if-rule (λ m. lower_groups fuel m ≡ true) (str_eq other parent)
        (λ same.
          and_both _ _ (same_paths fuel parent other paths h)
            (and_right (lower_group fuel (other, known)) _ g))
        (λ distinct. and_both _ _ (and_left _ _ g) (
          insert-lower fuel parent paths groups h
            (and_right (lower_group fuel (other, known)) _ g)))

  lookup-lower :
      (fuel : ℕ) (parent path : String) (groups : List (String × List String))
      → below height fuel path ≡ true
      → lower_groups fuel groups ≡ true
      → lower_group fuel (parent, or_default (lookup parent groups) ++ path ∷ []) ≡ true
  unfolding lookup
  lookup-lower fuel parent path [] h g = ground arith
  lookup-lower fuel parent path ((other, known) ∷ groups) h g =
      if-rule (λ o. lower_group fuel (parent, or_default o ++ path ∷ []) ≡ true)
        (str_eq other parent) (λ same. snoc_lower fuel parent other path known h (and_left _ _ g))
        (λ distinct.
          lookup-lower fuel parent path groups h (and_right (lower_group fuel (other, known)) _ g))

  pub group_by-lower :
      (fuel : ℕ) (key : String → String) (paths : List String)
      (groups : List (String × List String))
      → all (below height fuel) paths ≡ true
      → lower_groups fuel groups ≡ true
      → lower_groups fuel (group_by key (λ path. path) paths groups) ≡ true
  unfolding group_by push_group
  group_by-lower fuel key [] groups h g = g
  group_by-lower fuel key (path ∷ paths) groups h g =
      group_by-lower fuel key paths _ (and_right (below height fuel path) _ h) (
        insert-lower fuel (key path) _ groups
          (lookup-lower fuel (key path) path groups (and_left _ _ h) g) g)
