-- ===== src/Drive/RemoteEvents/Presented.antt =====
-- Which command an event's directory leads to: that of the nearest directory above it that exists.
use cloudreve_desktop.Prelude.{
  drop, length, ℕ, zero, suc, ◌<◌, ◌≡◌, refl, ap, ◌∙◌, true, false, not, ◌||◌, inr, Option, some,
  List, [], ◌∷◌, arith, String, inl, none, sym, ◌↔◌,
}
use cloudreve_desktop.Drive.Files.{LocalFileInfo, is_placeholder, is_folder_populated}
use cloudreve_desktop.Drive.RemoteEvents.{
  FilePath, SyncCommand, Surroundings, outside, choose, walk_up, sync_last_presented_parent,
}
use cloudreve_desktop.Drive.RemoteEvents.Rounds.{Found, visit_missing, visit_found, visit-cases}

-- `n` levels above a path, below which nothing exists, is a directory that exists and whose children
-- are local, and all of them are inside the sync root.
pub record IsNearest (s : Surroundings) (sync_root path : FilePath) (n : ℕ) : Type 0 where
  pub inside : (m : ℕ) → m < suc n → outside sync_root (drop m path) ≡ false
  pub missing_below : (m : ℕ) → m < n → Found s (drop m path) false
  pub info : LocalFileInfo
  pub readable : s.info (drop n path) ≡ inr info
  pub exists : info.exists ≡ true
  pub presented : (not (is_placeholder info) || is_folder_populated info) ≡ true
  pub in_range : n < suc (length path)

-- The path that was looked at before the one `n` levels above.
abbrev pub below : Option FilePath → FilePath → ℕ → Option FilePath
below child path zero = child
below child path (suc n) = some (drop n path)

module _ (s : Surroundings) (sync_root : FilePath) (local_paths : List FilePath)
    (listening : s.receiver ≡ true) where
  walk_up-nearest :
      (n : ℕ) (child : Option FilePath) (path : FilePath)
      → IsNearest s sync_root path n
      → walk_up s sync_root local_paths child path
        ≡ inr (some (choose (drop n path) local_paths (below child path n)))
  unfolding walk_up
  walk_up-nearest zero child [] h =
      visit_found s sync_root local_paths listening child [] _ h.info (h.inside 0 (omega arith))
        h.readable h.exists h.presented
  walk_up-nearest zero child (c ∷ parent) h =
      visit_found s sync_root local_paths listening child (c ∷ parent) _ h.info
        (h.inside 0 (omega arith)) h.readable h.exists h.presented
  walk_up-nearest (suc n) child [] h = absurd (omega (arith, h.in_range))
  walk_up-nearest (suc n) child (c ∷ parent) h =
      visit_missing s sync_root local_paths listening child (c ∷ parent) _
        (h.inside 0 (omega arith)) (h.missing_below 0 (omega arith))
      ∙ (walk_up-nearest n (some (c ∷ parent)) parent upper
          ∙ ap (λ b. inr (some (choose (drop n parent) local_paths b))) (same n))
    where
      upper : IsNearest s sync_root parent n
      upper = record {
        inside = λ m lt. h.inside (suc m) (omega arith);
        missing_below = λ m lt. h.missing_below (suc m) (omega arith);
        info = h.info;
        readable = h.readable;
        exists = h.exists;
        presented = h.presented;
        in_range = omega (arith, h.in_range);
      }

      same : (n : ℕ) → below (some (c ∷ parent)) parent n ≡ below child (c ∷ parent) (suc n)
      same zero = refl
      same (suc n) = refl

  -- The command that the walk from a path sends is that of a nearest directory.
  abbrev Nearest : Option FilePath → FilePath → SyncCommand → Type 0
  Nearest child path c =
      (n : ℕ) × IsNearest s sync_root path n
      × (c ≡ choose (drop n path) local_paths (below child path n))

  here-Nearest :
      (child : Option FilePath) (path : FilePath) (c : SyncCommand) (info : LocalFileInfo)
      → outside sync_root path ≡ false
      → s.info path ≡ inr info
      → info.exists ≡ true
      → (not (is_placeholder info) || is_folder_populated info) ≡ true
      → c ≡ choose path local_paths child
      → Nearest child path c
  here-Nearest child path c info inside e here shown chosen = (
    0,
    record {
      inside = λ m lt. rw (only_zero m lt) inside;
      missing_below = λ m lt. absurd (omega arith);
      info = info;
      readable = e;
      exists = here;
      presented = shown;
      in_range = omega arith;
    },
    chosen,
  )
    where
      only_zero : (m : ℕ) → m < 1 → m ≡ 0
      only_zero m lt = omega arith

  above-Nearest :
      (child : Option FilePath) (name : String) (parent : FilePath) (c : SyncCommand)
      → outside sync_root (name ∷ parent) ≡ false
      → Found s (name ∷ parent) false
      → Nearest (some (name ∷ parent)) parent c
      → Nearest child (name ∷ parent) c
  above-Nearest child name parent c inside absent (n, h, chosen) = (
    suc n,
    record {
      inside = inside_all;
      missing_below = missing_all;
      info = h.info;
      readable = h.readable;
      exists = h.exists;
      presented = h.presented;
      in_range = omega (arith, h.in_range);
    },
    chosen ∙ ap (choose (drop n parent) local_paths) (same n),
  )
    where
      inside_all : (m : ℕ) → m < suc (suc n) → outside sync_root (drop m (name ∷ parent)) ≡ false
      inside_all zero lt = inside
      inside_all (suc m) lt = h.inside m (omega arith)

      missing_all : (m : ℕ) → m < suc n → Found s (drop m (name ∷ parent)) false
      missing_all zero lt = absent
      missing_all (suc m) lt = h.missing_below m (omega arith)

      same : (n : ℕ) → below (some (name ∷ parent)) parent n ≡ below child (name ∷ parent) (suc n)
      same zero = refl
      same (suc n) = refl

  Nearest-walk_up :
      (child : Option FilePath) (path : FilePath) (c : SyncCommand)
      → walk_up s sync_root local_paths child path ≡ inr (some c)
      → Nearest child path c
  unfolding walk_up
  Nearest-walk_up child [] c e =
      let (inside, which) = visit-cases s sync_root local_paths listening child [] _ c e in
      elim which [
        | inl (absent, h) ↦ absurd cc
        | inr (info, q, here, shown, chosen) ↦
            here-Nearest child [] c info inside q here shown chosen
      ]
  Nearest-walk_up child (name ∷ parent) c e =
      let (inside, which) =
        visit-cases s sync_root local_paths listening child (name ∷ parent) _ c e in
      elim which [
        | inl (absent, h) ↦
            above-Nearest child name parent c inside absent
              (Nearest-walk_up (some (name ∷ parent)) parent c h)
        | inr (info, q, here, shown, chosen) ↦
            here-Nearest child (name ∷ parent) c info inside q here shown chosen
      ]

  -- While commands are received, a directory of an event leads to a command exactly if some
  -- directory `n` levels above it exists and shows its children, nothing in between exists, and all
  -- of them are inside the sync root. The command is for the directory next below that one if there is
  -- one in between; else for the events' paths themselves, or, if they are several, for that
  -- directory and its first layer.
  pub sync_last_presented_parent-IsNearest :
      (initial_parent : FilePath) (c : SyncCommand)
      → (sync_last_presented_parent s sync_root initial_parent local_paths ≡ inr (some c)) ↔ (
          (n : ℕ) × IsNearest s sync_root initial_parent n
          × (c ≡ choose (drop n initial_parent) local_paths (below none initial_parent n)))
  unfolding sync_last_presented_parent
  sync_last_presented_parent-IsNearest initial_parent c = (
    Nearest-walk_up none initial_parent c,
    λ nearest.
        walk_up-nearest nearest.0 none initial_parent nearest.1
        ∙ ap (λ k. inr (some k)) (sym nearest.2),
  )
