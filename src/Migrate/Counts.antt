-- ===== src/Migrate/Counts.antt =====
-- What the numbers at the end of the migration count, and the runs that write nothing.
use shadraw.Base.{
  ℕ, suc, ◌+◌, String, ◌≡◌, refl, ◌∙◌, ◌⊎◌, inl, inr, Bool, true, false, not, List, [], ◌∷◌, Result,
  ok, err, ◌==◌, Bool-cases, Result-cases, length, count, arith,
}
use shadraw.Migrate.{
  Options, Stats, no_stats, File, Entries, Store, Paths, is_hidden, split_object_key, Call, of_file,
  of_hidden, of_error, calls_of, verified_file, put_done, upload, sized_file, stat_file, keyed_file,
  visit_file, walk, migrate, add_failed,
}

-- What a call ended as.
abbrev pub outcomes : Stats → ℕ
outcomes st = st.uploaded + st.verified + st.skipped + st.failed

abbrev pub is_file : Call → Bool
is_file (of_file f) = true
is_file of_hidden = false
is_file of_error = false

-- One outcome more, and as many files.
record Counted (st st' : Stats) : Type 0 where
  same : st'.scanned ≡ st.scanned
  one : outcomes st' ≡ suc (outcomes st)

module _ {S : Type 0} (store : Store S) (paths : Paths) (opts : Options) where
  failed-Counted : (st : Stats) → Counted st (add_failed st)
  failed-Counted st = record { same = refl; one = omega arith }

  verified_file-Counted :
      (local : ℕ) (out : Result String ℕ) (st : Stats)
      → Counted st (verified_file store paths opts local out st)
  verified_file-Counted local (err text) st = failed-Counted st
  verified_file-Counted local (ok size) st = elim (Bool-cases (not (size == local))) [
    | inl e ↦ rw e (failed-Counted st)
    | inr e ↦ rw e (record { same = refl; one = omega arith })
  ]

  put_done-Counted :
      (st : Stats) (out : Result String String × S)
      → Counted st (put_done store paths opts st out).0
  put_done-Counted st (ok path, s) = record { same = refl; one = omega arith }
  put_done-Counted st (err text, s) = failed-Counted st

  upload-Counted :
      (key : String × String × String) (read : Result String (List ℕ)) (st : Stats) (s : S)
      → Counted st (upload store paths opts key read st s).0
  upload-Counted key (err text) st s = failed-Counted st
  upload-Counted (bucket, user, file_key) (ok bytes) st s = put_done-Counted st _

  sized_file-Counted :
      (f : File) (key : String × String × String) (size : ℕ) (st : Stats) (s : S)
      → Counted st (sized_file store paths opts f key size st s).0
  unfolding sized_file
  sized_file-Counted f key size st s =
      let longer = record st { bytes = st.bytes + size } in
      elim (Bool-cases opts.dry_run) [
        | inl e ↦ rw e (record { same = refl; one = omega arith })
        | inr e ↦ elim (Bool-cases opts.verify_only) [
          | inl v ↦
              let c = verified_file-Counted size (store.stat f.key s) longer in
              rw (e, v) (record { same = c.same; one = c.one })
          | inr v ↦
              let c = upload-Counted key f.read longer s in
              rw (e, v) (record { same = c.same; one = c.one })
        ]
      ]

  stat_file-Counted :
      (f : File) (key : String × String × String) (info : Result String ℕ) (st : Stats) (s : S)
      → Counted st (stat_file store paths opts f key info st s).0
  stat_file-Counted f key (err text) st s = failed-Counted st
  stat_file-Counted f key (ok size) st s = sized_file-Counted f key size st s

  keyed_file-Counted :
      (f : File) (key : Result String (String × String × String)) (st : Stats) (s : S)
      → Counted st (keyed_file store paths opts f key st s).0
  keyed_file-Counted f (err text) st s = failed-Counted st
  keyed_file-Counted f (ok key) st s = stat_file-Counted f key f.info st s

  visit_file-Counted :
      (f : File) (st : Stats) (s : S)
      → Counted (record st { scanned = st.scanned + 1 }) (visit_file store paths opts f st s).0
  unfolding visit_file
  visit_file-Counted f st s = elim (Bool-cases (is_hidden f.name)) [
    | inl e ↦ rw e (record { same = refl; one = omega arith })
    | inr e ↦ rw e (keyed_file-Counted f (split_object_key paths f.key) _ s)
  ]

  walk-counts :
      (l : List Call) (st : Stats) (s : S)
      → let out = (walk store paths opts l (st, s)).0 in
        (outcomes out ≡ outcomes st + length l) × (out.scanned ≡ st.scanned + count is_file l)
  unfolding walk
  walk-counts [] st s = (omega arith, omega arith)
  walk-counts (of_hidden ∷ l) st s =
      let (o, f) = walk-counts l (record st { skipped = st.skipped + 1 }) s in
      (o ∙ omega arith, f ∙ omega arith)
  walk-counts (of_error ∷ l) st s =
      let (o, f) = walk-counts l (add_failed st) s in (o ∙ omega arith, f ∙ omega arith)
  walk-counts (of_file x ∷ l) st s =
      let c = visit_file-Counted x st s in
      let (o, f) =
        walk-counts l (visit_file store paths opts x st s).0
          (visit_file store paths opts x st s).1 in
      (o ∙ omega (arith, c.one), f ∙ omega (arith, c.same))

  -- A migration counts every call of the walk once: as uploaded, verified, skipped or failed; and it
  -- scans the files that are not below a hidden directory, each of them once.
  pub migrate-counts :
      (inside : Entries) (s s' : S) (st : Stats)
      → migrate store paths opts (ok inside) s ≡ (ok st, s')
      → (outcomes st ≡ length (calls_of inside)) × (st.scanned ≡ count is_file (calls_of inside))
  unfolding migrate
  migrate-counts inside s s' st h =
      let same : (walk store paths opts (calls_of inside) (no_stats, s)).0 ≡ st = cc in
      let (o, f) = walk-counts (calls_of inside) no_stats s in
      rw (← same) (o ∙ omega arith, f ∙ omega arith)

  sized_file-store :
      (f : File) (key : String × String × String) (size : ℕ) (st : Stats) (s : S)
      → (opts.dry_run ≡ true) ⊎ (opts.verify_only ≡ true)
      → (sized_file store paths opts f key size st s).1 ≡ s
  unfolding sized_file
  sized_file-store f key size st s (inl dry) = rw dry refl
  sized_file-store f key size st s (inr verify) = elim (Bool-cases opts.dry_run) [
    | inl e ↦ rw e refl
    | inr e ↦ rw (e, verify) refl
  ]

  visit_file-store :
      (f : File) (st : Stats) (s : S)
      → (opts.dry_run ≡ true) ⊎ (opts.verify_only ≡ true)
      → (visit_file store paths opts f st s).1 ≡ s
  unfolding visit_file
  visit_file-store f st s mode = elim (Bool-cases (is_hidden f.name)) [
    | inl e ↦ rw e refl
    | inr e ↦ elim (Result-cases (split_object_key paths f.key)) [
      | inr (text, k) ↦ rw (e, k) refl
      | inl (key, k) ↦ elim (Result-cases f.info) [
        | inr (text, i) ↦ rw (e, k, i) refl
        | inl (size, i) ↦ rw (e, k, i) (sized_file-store f key size _ s mode)
      ]
    ]
  ]

  walk-store :
      (l : List Call) (st : Stats) (s : S)
      → (opts.dry_run ≡ true) ⊎ (opts.verify_only ≡ true)
      → (walk store paths opts l (st, s)).1 ≡ s
  unfolding walk
  walk-store [] st s mode = refl
  walk-store (of_hidden ∷ l) st s mode = walk-store l _ s mode
  walk-store (of_error ∷ l) st s mode = walk-store l _ s mode
  walk-store (of_file x ∷ l) st s mode =
      walk-store l (visit_file store paths opts x st s).0 (visit_file store paths opts x st s).1
        mode
      ∙ visit_file-store x st s mode

  -- A dry run and a verification leave the store as it is, whatever the directory holds.
  pub migrate_read_only :
      (found : Result String Entries) (s : S)
      → (opts.dry_run ≡ true) ⊎ (opts.verify_only ≡ true)
      → (migrate store paths opts found s).1 ≡ s
  unfolding migrate
  migrate_read_only (err text) s mode = refl
  migrate_read_only (ok inside) s mode = walk-store (calls_of inside) no_stats s mode
