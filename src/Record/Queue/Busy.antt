-- ===== src/Record/Queue/Busy.antt =====
-- Each statement leaves the rows of the jobs running, but for the job that it settles.
use shadraw.Base.{
  ℕ, String, ◌≡◌, refl, sym, ◌∙◌, inl, inr, Bool, true, false, not, List, [], ◌∷◌, arith, str_eq,
  Result, ok, err, Elem, All, ◌==◌, if◌then◌else◌,
}
use shadraw.Table.{DbError, Table, Updates, Deletes, Creates}
use shadraw.Table.Rows.{
  All-append, All-mono, All-with-Elem, All-update_where, All-keep, All-keep_mono,
}
use shadraw.Record.{running, Record, key, Fills, Error, by_id, start, complete, lift, no_error}
use shadraw.Record.Repo
use shadraw.Record.Favorites.{update_favorite-Favors}
use shadraw.Record.{empty_image_path, RecordFavorite, favorite_key, FillsFavorite}
use shadraw.Table.{Separate}
use shadraw.Record.Outcome.{no_error_state}
use shadraw.Record.Lifecycle.{IsRunning}
use shadraw.Record.Claim.{Picks, claim_waiting-Picks}
use shadraw.Record.Queue.{others}

module _ {Db : Type 0} (records : Table Db Record key Fills) where
  open records use {rows}

  -- An assignment that leaves the running rows with this id running.
  abbrev pub Spares : ℕ → (Record → Bool) → (Record → Record) → Type 0
  Spares j p f =
      ((r : Record) → p r ≡ true → r.id ≡ j → r.status ≡ running → (f r).status ≡ running)
      × ((r : Record) → (f r).id ≡ r.id)

  updates-IsRunning :
      (j : ℕ) (p : Record → Bool) (f : Record → Record) (d : Db) (out : Result DbError ℕ × Db)
      → Updates rows p f d out
      → Spares j p f
      → IsRunning j (rows d)
      → IsRunning j (rows out.1)
  updates-IsRunning j p f d (ok n, d') u k h = rw u.0 (
      All-update_where (λ r. r.id ≡ j → r.status ≡ running) p f (rows d) h
        (λ r e run same. k.0 r e (sym (k.1 r) ∙ same) (run (sym (k.1 r) ∙ same))))
  updates-IsRunning j p f d (err e, d') u k h = rw u h

  update-IsRunning :
      (j : ℕ) (p : Record → Bool) (f : Record → Record) (d : Db)
      → Spares j p f
      → IsRunning j (rows d)
      → IsRunning j (rows (records.update p f d).1)
  update-IsRunning j p f d =
      updates-IsRunning j p f d (records.update p f d) (records.update_law p f d)

  -- An update of rows that are not running, or that keeps the status, spares every job.
  pub update-busy :
      (p : Record → Bool) (f : Record → Record) (d : Db) (jobs : List ℕ)
      → ((j : ℕ) → Spares j p f)
      → All (λ j. IsRunning j (rows d)) jobs
      → All (λ j. IsRunning j (rows (records.update p f d).1)) jobs
  update-busy p f d jobs k h =
      All-mono (λ j. IsRunning j (rows d)) _ jobs h (λ j. update-IsRunning j p f d (k j))

  -- Settling one job spares the others.
  pub settle-busy :
      (id : ℕ) (f : Record → Record) (d : Db) (jobs : List ℕ)
      → ((r : Record) → (f r).id ≡ r.id)
      → All (λ j. IsRunning j (rows d)) jobs
      → All (λ j. IsRunning j (rows (records.update (by_id id) f d).1)) (others id jobs)
  settle-busy id f d jobs same h =
      All-keep_mono (λ j. IsRunning j (rows d)) _ (λ j. not (j == id)) jobs h
        (λ j e. update-IsRunning j (by_id id) f d ((λ r m i run. absurd (ground arith)), same))

  keep_busy :
      (p : Record → Bool) (d : Db) (jobs : List ℕ) (out : Result DbError ℕ × Db)
      → Deletes rows p d out
      → All (λ j. IsRunning j (rows d)) jobs
      → All (λ j. IsRunning j (rows out.1)) jobs
  keep_busy p d jobs (ok n, d') u h =
      All-mono (λ j. IsRunning j (rows d)) _ jobs h
        (λ j run. rw u.0 (All-keep (λ r. r.id ≡ j → r.status ≡ running) _ (rows d) run))
  keep_busy p d jobs (err e, d') u h = rw u h

  with_value_state :
      (rec : Record) (out : Result DbError ℕ × Db) → (Repo.with_value records rec out).1 ≡ out.1
  unfolding Repo.with_value
  with_value_state rec (ok n, d) = refl
  with_value_state rec (err e, d) = refl

  pub delete_busy :
      (d : Db) (jobs : List ℕ) (found : Result Error Record)
      → All (λ j. IsRunning j (rows d)) jobs
      → All (λ j. IsRunning j (rows (Repo.delete_found records d found).1)) jobs
  unfolding Repo.delete_found
  delete_busy d jobs (err e) h = h
  delete_busy d jobs (ok rec) h =
      rw with_value_state (keep_busy (by_id rec.id) d jobs _ (records.delete_law _ d) h)

  -- A row that is stored under an unused id is nobody's job.
  pub create_busy :
      (given : Record) (d : Db) (jobs : List ℕ) (out : Result DbError Record × Db)
      → Creates rows key Fills given d out
      → ((r : Record) → (lift out).0 ≡ ok r → ¬ Elem r.id jobs)
      → All (λ j. IsRunning j (rows d)) jobs
      → All (λ j. IsRunning j (rows (lift out).1)) jobs
  create_busy given d jobs (err e, d') c new h = rw c h
  create_busy given d jobs (ok r, d') c new h =
      All-mono (λ j. Elem j jobs × IsRunning j (rows d)) _ jobs (All-with-Elem jobs _ h)
        (λ j m. rw c.0 (
          All-append (λ x. x.id ≡ j → x.status ≡ running) (rows d) (r ∷ []) m.1
            ((λ e. absurd (new r refl (rw e m.0))), tt)))

  started_busy :
      (now : ℕ) (d d' : Db) (picked : Record) (jobs : List ℕ)
      → Picks records d now picked d'
      → All (λ j. IsRunning j (rows d)) jobs
      → All (λ j. IsRunning j (rows d')) jobs
  started_busy now d d' picked jobs p h =
      All-mono (λ j. IsRunning j (rows d)) _ jobs h
        (λ j run. rw p.4 (
          All-update_where (λ r. r.id ≡ j → r.status ≡ running) (by_id picked.id) (start now)
            (rows d) run (λ r e k same. refl)))

  pub claim_busy :
      (now : ℕ) (d : Db) (jobs : List ℕ)
      → All (λ j. IsRunning j (rows d)) jobs
      → All (λ j. IsRunning j (rows (Repo.claim_waiting records now d).1)) jobs
  claim_busy now d jobs h = elim (claim_waiting-Picks records now d) [
    | inl same ↦ rw same h
    | inr (picked, p) ↦ started_busy now d _ picked jobs p h
  ]

  pub store_busy :
      (now id : ℕ) (path : String) (d : Db) (jobs : List ℕ)
      → All (λ j. IsRunning j (rows d)) jobs
      → All
          (λ j. IsRunning j (rows (Repo.store_generated records now id path d).1))
          (others id jobs)
  unfolding Repo.store_generated
  store_busy now id path d jobs h = go (str_eq path "")
    where
      go :
          (b : Bool)
          → All
              (λ j. IsRunning j (
                rows
                  (if b
                    then (err empty_image_path, d)
                    else no_error (records.update (by_id id) (complete now path) d)).1))
              (others id jobs)
      go true = All-keep (λ j. IsRunning j (rows d)) _ jobs h
      go false = rw no_error_state (settle-busy id _ d jobs (λ r. refl) h)

module _ {Db : Type 0} (records : Table Db Record key Fills)
    (favorites : Table Db RecordFavorite favorite_key FillsFavorite)
    (apart : Separate favorites records.rows) where
  open records use {rows}

  pub favor_busy :
      (id user_id : ℕ) (b : Bool) (d : Db) (jobs : List ℕ)
      → All (λ j. IsRunning j (rows d)) jobs
      → All (λ j. IsRunning j (rows (Repo.update_favorite records favorites id user_id b d).1)) jobs
  favor_busy id user_id b d jobs h =
      elim (update_favorite-Favors records favorites apart id user_id b d) [
        | inl same ↦ rw same h
        | inr same ↦
            rw same (update-busy records _ _ d jobs (λ j. ((λ r p i run. run), (λ r. refl))) h)
      ]
