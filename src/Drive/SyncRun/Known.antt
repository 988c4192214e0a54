-- ===== src/Drive/SyncRun/Known.antt =====
-- What the maps of local and inventory states hold was answered earlier in the same run.
use cloudreve_desktop.Prelude.{
  String, ◌≡◌, refl, sym, ◌∙◌, ap, inl, inr, ◌⊎◌, [], ◌∷◌, Bool-cases, some, List, eq_iff, str_eq,
  All, subst, Option, none,
}
use cloudreve_desktop.Dict.{lookup, insert, lookup-insert, string_eq}
use cloudreve_desktop.Drive.Files.{FileMetadata, LocalFileInfo}
use cloudreve_desktop.Drive.SyncRun.Calls.{Log, Call, Environment, after, on_outcome-rule}
use cloudreve_desktop.Drive.SyncRun.Gather.{
  read, fetch_local_file_infos, fetch_inventory_entries, insert_row,
}
use cloudreve_desktop.Drive.SyncRun.Seen.{
  Gives, Earlier, Gives-map, Earlier-refl, Careful, Earlier-after, All-map, Allowed, Earlier-trans,
  Gives-bind,
}

module _ (env : Environment) where
  -- A call that loses nothing.
  pub read-Gives :
      {A : Type 0} (P : A → Log → Type 0) (call : Call) (value : A) (log : Log)
      → Allowed env log call
      → Careful env log
      → P value (after env call log)
      → Gives env log P (read env call value log)
  unfolding read
  read-Gives P call value log allowed careful p =
      on_outcome-rule (Gives env log P) (env.attempt log call)
        (λ ok. (Earlier-after env call log, careful_after, p))
        (λ fault failed. (Earlier-after env call log, careful_after))
    where
      careful_after : Careful env (after env call log)
      careful_after = unfold after in (allowed, careful)

  -- The local state of a path is one that was answered.
  abbrev pub KnownLocal : String → List (String × LocalFileInfo) → Log → Type 0
  KnownLocal path infos log =
      (when : Log) × Earlier when log × (lookup path infos ≡ some (env.local_info when path))

  KnownLocal-insert :
      (path other : String) (infos : List (String × LocalFileInfo)) (log log' : Log)
      → Earlier log log'
      → KnownLocal path infos log
      → KnownLocal path (insert other (env.local_info log other) infos) log'
  KnownLocal-insert path other infos log log' e (when, w, h) =
      elim (Bool-cases (str_eq other path)) [
        | inl same ↦ (
          log,
          e,
          lookup-insert other path (env.local_info log other) infos
              ∙ rw same (rw ((eq_iff other path).0 same) refl),
        )
        | inr distinct ↦ (
          when,
          Earlier-trans {b = log} w e,
          lookup-insert other path (env.local_info log other) infos ∙ rw distinct h,
        )
      ]

  KnownLocal-self :
      (path : String) (infos : List (String × LocalFileInfo)) (log log' : Log)
      → Earlier log log'
      → KnownLocal path (insert path (env.local_info log path) infos) log'
  KnownLocal-self path infos log log' e = (
    log,
    e,
    lookup-insert path path (env.local_info log path) infos ∙ rw (eq_iff path path).1 refl,
  )

  pub fetch_local_file_infos-Gives :
      (known paths : List String) (infos : List (String × LocalFileInfo)) (log : Log)
      → Careful env log
      → All (λ p. KnownLocal p infos log) known
      → Gives env log
          (λ infos log.
            All (λ p. KnownLocal p infos log) known × All (λ p. KnownLocal p infos log) paths)
          (fetch_local_file_infos env paths infos log)
  unfolding fetch_local_file_infos
  fetch_local_file_infos-Gives known [] infos log c h = (Earlier-refl log, c, (h, tt))
  fetch_local_file_infos-Gives known (path ∷ paths) infos log c h =
      Gives-bind env log (λ info log'. info ≡ env.local_info log path) _
        (read env (Call.read_local path) (env.local_info log path) log) _
        (read-Gives _ (Call.read_local path) (env.local_info log path) log tt c refl)
        (λ info log' e c' i.
          Gives-map env log' _ _ (fetch_local_file_infos env paths (insert path info infos) log')
            (λ infos'' log'' both. (both.0.1, (both.0.0, both.1)))
            (fetch_local_file_infos-Gives (path ∷ known) paths (insert path info infos) log' c' (
              subst (λ i. All (λ p. KnownLocal p (insert path i infos) log') (path ∷ known)) (sym i)
                (
                  KnownLocal-self path infos log log' e,
                  All-map _ _ known (λ p. KnownLocal-insert p path infos log log' e) h,
                ))))

  -- The row of a path is one that was answered, or the path has none in the map.
  abbrev pub KnownRow : String → List (String × FileMetadata) → Log → Type 0
  KnownRow path rows log =
      (when : Log) × Earlier when log × (lookup path rows ≡ env.inventory_row when path)

  abbrev pub Rows : List (String × FileMetadata) → Log → Type 0
  Rows rows log = (path : String) → (lookup path rows ≡ none) ⊎ KnownRow path rows log

  pub Rows-empty : (log : Log) → Rows [] log
  unfolding lookup
  Rows-empty log path = inl refl

  KnownRow-insert :
      (path other : String) (row : Option FileMetadata) (rows : List (String × FileMetadata))
      (log log' : Log)
      → Earlier log log'
      → env.inventory_row log other ≡ row
      → KnownRow path rows log
      → KnownRow path (insert_row other row rows) log'
  unfolding insert_row
  KnownRow-insert path other none rows log log' e q (when, w, h) =
      (when, Earlier-trans {b = log} w e, h)
  KnownRow-insert path other (some row) rows log log' e q (when, w, h) =
      elim (Bool-cases (str_eq other path)) [
        | inl same ↦ (
          log,
          e,
          lookup-insert other path row rows
              ∙ rw same (sym q ∙ ap (env.inventory_row log) ((eq_iff other path).0 same)),
        )
        | inr distinct ↦
            (when, Earlier-trans {b = log} w e, lookup-insert other path row rows ∙ rw distinct h)
      ]

  KnownRow-self :
      (path : String) (row : Option FileMetadata) (rows : List (String × FileMetadata))
      (log log' : Log)
      → Earlier log log'
      → env.inventory_row log path ≡ row
      → (lookup path rows ≡ none) ⊎ KnownRow path rows log
      → KnownRow path (insert_row path row rows) log'
  unfolding insert_row
  KnownRow-self path none rows log log' e q (inl unknown) = (log, e, unknown ∙ sym q)
  KnownRow-self path none rows log log' e q (inr (when, w, h)) =
      (when, Earlier-trans {b = log} w e, h)
  KnownRow-self path (some row) rows log log' e q before =
      (log, e, lookup-insert path path row rows ∙ rw (eq_iff path path).1 (sym q))

  Rows-insert :
      (other : String) (row : Option FileMetadata) (rows : List (String × FileMetadata))
      (log log' : Log)
      → Earlier log log'
      → env.inventory_row log other ≡ row
      → Rows rows log
      → Rows (insert_row other row rows) log'
  unfolding insert_row
  Rows-insert other none rows log log' e q h path = elim (h path) [
    | inl unknown ↦ inl unknown
    | inr (when, w, k) ↦ inr (when, Earlier-trans {b = log} w e, k)
  ]
  Rows-insert other (some row) rows log log' e q h path = elim (Bool-cases (str_eq other path)) [
    | inl same ↦ inr (
      log,
      e,
      lookup-insert other path row rows
          ∙ rw same (sym q ∙ ap (env.inventory_row log) ((eq_iff other path).0 same)),
    )
    | inr distinct ↦ elim (h path) [
      | inl unknown ↦ inl (lookup-insert other path row rows ∙ rw distinct unknown)
      | inr (when, w, k) ↦
          inr (when, Earlier-trans {b = log} w e, lookup-insert other path row rows ∙ rw distinct k)
    ]
  ]

  pub fetch_inventory_entries-Gives :
      (known paths : List String) (rows : List (String × FileMetadata)) (log : Log)
      → Careful env log
      → Rows rows log
      → All (λ p. KnownRow p rows log) known
      → Gives env log
          (λ rows log. All (λ p. KnownRow p rows log) known × All (λ p. KnownRow p rows log) paths)
          (fetch_inventory_entries env paths rows log)
  unfolding fetch_inventory_entries
  fetch_inventory_entries-Gives known [] rows log c r h = (Earlier-refl log, c, (h, tt))
  fetch_inventory_entries-Gives known (path ∷ paths) rows log c r h =
      Gives-bind env log (λ row log'. env.inventory_row log path ≡ row) _
        (read env (Call.read_inventory path) (env.inventory_row log path) log) _
        (read-Gives _ (Call.read_inventory path) (env.inventory_row log path) log tt c refl)
        (λ row log' e c' i.
          Gives-map env log' _ _ (fetch_inventory_entries env paths (insert_row path row rows) log')
            (λ rows'' log'' both. (both.0.1, (both.0.0, both.1)))
            (fetch_inventory_entries-Gives (path ∷ known) paths (insert_row path row rows) log' c'
              (Rows-insert path row rows log log' e i r)
              (
                KnownRow-self path row rows log log' e i (r path),
                All-map _ _ known (λ p. KnownRow-insert p path row rows log log' e i) h,
              )))
