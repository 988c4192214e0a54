-- ===== src/Drive/SyncRun/Lower.antt =====
-- The children that a walk collects lie below its directory, where the tree that the walks see has a
-- height.
use cloudreve_desktop.Prelude.{
  ltb, if-rule, and_right, any, all, All, ℕ, ◌<◌, String, ◌≡◌, refl, inl, inr, Bool, true, false,
  List, [], ◌∷◌, ◌++◌, map, arith, str_eq,
}
use cloudreve_desktop.Dict.{string_eq}
use cloudreve_desktop.Drive.Files.{FileResponse}
use cloudreve_desktop.Drive.SyncRun.Calls.{
  Environment, Log, Call, on_outcome-rule, is_not_found, is_parent_not_exist_error,
}
use cloudreve_desktop.Drive.SyncRun.Gather.{
  Reading, ◌>>=◌, key, children_below, dedup, read_directory, list_presented, list_located,
  list_remote_children, collect_child_targets,
}

pub record IsFinite (env : Environment) (height : String → ℕ) : Type 0 where
  pub local_lower :
      (log : Log) (directory : String)
      → All (λ child. height child < height directory) (env.entries log directory)
  pub remote_lower :
      (log : Log) (directory : String)
      → All
          (λ file. height (key file) < height directory)
          (children_below env directory (env.presented log (env.remote_uri directory)))
  pub order_holds :
      (log : Log) (paths : List String) (test : String → Bool)
      → all test paths ≡ true
      → all test (env.order log paths) ≡ true
  pub order_groups_holds :
      (log : Log) (groups : List (String × List String)) (test : String × List String → Bool)
      → all test groups ≡ true
      → all test (env.order_groups log groups) ≡ true

-- What a successful reading gives has the property.
abbrev pub Reads : {A : Type 0} → (A → Type 0) → Reading A → Type 0
Reads P (inl fault, log) = Unit
Reads P (inr a, log) = P a

Reads-bind :
    {A B : Type 0} (P : A → Type 0) (R : B → Type 0) (m : Reading A) (f : A → Log → Reading B)
    → Reads P m
    → ((a : A) (log : Log) → P a → Reads R (f a log))
    → Reads R (m >>= f)
Reads-bind P R (inl fault, log) f p k = tt
Reads-bind P R (inr a, log) f p k = k a log p

abbrev pub below : (String → ℕ) → ℕ → String → Bool
below height n path = ltb (height path) n

pub all-append :
    (test : String → Bool) (xs ys : List String)
    → all test xs ≡ true
    → all test ys ≡ true
    → all test (xs ++ ys) ≡ true
all-append test [] ys p q = q
all-append test (x ∷ xs) ys p q = ground (arith, all-append test xs ys)

pub all_of_All :
    (height : String → ℕ) (n : ℕ) (xs : List String)
    → All (λ x. height x < n) xs
    → all (below height n) xs ≡ true
all_of_All height n [] p = refl
all_of_All height n (x ∷ xs) (p, ps) = ground (arith, all_of_All height n xs ps)

pub All-of_all :
    (test : String → Bool) (xs : List String) → all test xs ≡ true → All (λ x. test x ≡ true) xs
All-of_all test [] p = tt
All-of_all test (x ∷ xs) p = (ground arith, All-of_all test xs (and_right (test x) _ p))

map-key_below :
    (height : String → ℕ) (n : ℕ) (files : List (String × FileResponse))
    → All (λ file. height (key file) < n) files
    → all (below height n) (map key files) ≡ true
map-key_below height n [] p = refl
map-key_below height n ((path, file) ∷ files) (p, ps) =
    ground (arith, map-key_below height n files ps)

dedup-all :
    (test is_ignored : String → Bool) (children seen : List String)
    → all test children ≡ true
    → all test seen ≡ true
    → all test (dedup is_ignored children seen) ≡ true
unfolding dedup
dedup-all test is_ignored [] seen p q = q
dedup-all test is_ignored (child ∷ children) seen p q =
    dedup-all test is_ignored children _ (and_right (test child) _ p) (
      if-rule (λ xs. all test xs ≡ true) (is_ignored child) (λ h. q)
        (λ h.
          if-rule (λ xs. all test xs ≡ true) (any (str_eq child) seen) (λ k. q)
            (λ k. all-append test seen (child ∷ []) q (ground arith))))

module _ (env : Environment) (height : String → ℕ) (finite : IsFinite env height) where
  abbrev Lower : String → Reading (List String) → Type 0
  Lower directory = Reads (λ children. all (below height (height directory)) children ≡ true)

  read_directory-Lower :
      (directory : String) (log : Log) → Lower directory (read_directory env directory log)
  unfolding read_directory
  read_directory-Lower directory log =
      on_outcome-rule (Lower directory) (env.attempt log (Call.read_dir directory))
        (λ fine. all_of_All height (height directory) _ (finite.local_lower log directory))
        (λ fault failed.
          if-rule (Lower directory) (is_not_found fault) (λ gone. refl) (λ broken. tt))

  abbrev LowerFiles : String → Reading (List (String × FileResponse)) → Type 0
  LowerFiles directory = Reads (λ files. All (λ file. height (key file) < height directory) files)

  -- Of a listing, the files that lie in the directory.
  abbrev kept :
      String → Reading (List (String × FileResponse)) → Reading (List (String × FileResponse))
  kept directory m = m >>= λ files log. (inr (children_below env directory files), log)

  none_below :
      (directory : String) (log : Log)
      → LowerFiles directory (inr (children_below env directory []), log)
  unfolding children_below
  none_below directory log = tt

  list_located-lower :
      (directory : String) (valid : Bool) (log : Log)
      → LowerFiles directory (list_located env directory valid log)
  unfolding list_located list_presented
  list_located-lower directory false log = tt
  list_located-lower directory true log =
      on_outcome-rule (λ m. LowerFiles directory (kept directory m))
        (env.attempt log (Call.list_presented_children (env.remote_uri directory)))
        (λ fine. finite.remote_lower log directory)
        (λ fault failed.
          if-rule (λ m. LowerFiles directory (kept directory m)) (is_parent_not_exist_error fault)
            (λ gone. none_below directory log) (λ broken. tt))

  list_remote_children-lower :
      (directory : String) (log : Log)
      → LowerFiles directory (list_remote_children env directory log)
  unfolding list_remote_children
  list_remote_children-lower directory log =
      on_outcome-rule (LowerFiles directory) (env.attempt log (Call.locate_directory directory))
        (λ fine. list_located-lower directory env.remote_base_is_uri _) (λ fault failed. tt)

  pub collect_child_targets-lower :
      (directory : String) (log : Log)
      → Reads
          (λ found. all (below height (height directory)) found.0 ≡ true)
          (collect_child_targets env directory log)
  unfolding collect_child_targets
  collect_child_targets-lower directory log =
      Reads-bind _ _ (read_directory env directory log) _ (read_directory-Lower directory log)
        (λ children log local_lower.
          Reads-bind _ _ (list_remote_children env directory log) _
            (list_remote_children-lower directory log)
            (λ files log remote_lower. finite.order_holds log _ (below height (height directory)) (
              dedup-all _ _ (children ++ map key files) []
                (all-append _ children _ local_lower (map-key_below height _ files remote_lower))
                refl)))
