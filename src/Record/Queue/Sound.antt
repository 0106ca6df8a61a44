-- ===== src/Record/Queue/Sound.antt =====
-- The queue stays sound, and no record is claimed twice.
use shadraw.Base.{ℕ, ◌≡◌, refl, ap, ◌≢◌, Bool, true, false, some, arith, ok, All, if◌then◌else◌}
use shadraw.Table.{Table}
use shadraw.Table.Rows.{All-elem, All-mono, All-updated, count_none}
use shadraw.Table.Keys.{Distinct-keep}
use shadraw.Record.{running, Record, key, Fills, by_id, start}
use shadraw.Record.Repo
use shadraw.Record.{RecordFavorite, favorite_key, FillsFavorite}
use shadraw.Table.{Separate}
use shadraw.Record.Lifecycle.{update_favorite-Inv}
use shadraw.Record.Outcome.{affected_state, no_error_state}
use shadraw.Record.Lifecycle.{
  IsRunning, update_project-Inv, update_public-Inv, retry_failed-Inv, delete-Inv, create-Inv,
  store_generated-Inv, mark_failed_with_upstream_error-Inv, sweep_running_to_waiting-Inv,
  claim_waiting-Inv, then_find_state,
}
use shadraw.Record.Claim.{claim_waiting-Claimed}
use shadraw.Record.Queue.{
  System, IsSound, Step, create, publish, move, favor, retry, delete, claim, claim_fails, store,
  fail, sweep, Reach, here, next,
}
use shadraw.Record.Queue.Busy.{
  update-busy, settle-busy, delete_busy, create_busy, claim_busy, store_busy, favor_busy,
}

started_row :
    (now k j : ℕ) (x : Record)
    → j ≡ k
    → (if by_id k x then start now x else x).id ≡ j
    → (if by_id k x then start now x else x).status ≡ running
started_row now k j x same = go (by_id k x) refl
  where
    go :
        (b : Bool)
        → by_id k x ≡ b
        → (if b then start now x else x).id ≡ j
        → (if b then start now x else x).status ≡ running
    go true e i = refl
    go false e i = absurd (ground arith)

module _ {Db : Type 0} (records : Table Db Record key Fills) where
  open records use {rows}

  -- A record that is claimed is nobody's job yet.
  claim_new :
      (now : ℕ) (s : System Db) (r : Record)
      → IsSound records s
      → (Repo.claim_waiting records now s.db).0 ≡ ok r
      → All (λ j. j ≢ r.id) s.jobs
  claim_new now s r h e =
      let c = claim_waiting-Claimed records now s.db r h.inv.1 e in
      All-mono (λ j. IsRunning j (rows s.db)) _ s.jobs h.busy
        (λ j run same. let w = All-elem _ c.picked (rows s.db) run c.listed (cc (c.returned)) in cc)

  claim_running :
      (now : ℕ) (s : System Db) (r : Record)
      → IsSound records s
      → (Repo.claim_waiting records now s.db).0 ≡ ok r
      → IsRunning r.id (rows (Repo.claim_waiting records now s.db).1)
  claim_running now s r h e =
      let c = claim_waiting-Claimed records now s.db r h.inv.1 e in
      rw c.marked (
        All-updated (λ x. x.id ≡ r.id → x.status ≡ running) (by_id c.picked.id) (start now)
          (rows s.db) (λ x m. started_row now c.picked.id r.id x (ap (λ q. q.id) c.returned)))

module _ {Db : Type 0} (records : Table Db Record key Fills)
    (favorites : Table Db RecordFavorite favorite_key FillsFavorite)
    (apart : Separate favorites records.rows) where
  open records use {rows}

  -- Every statement keeps the queue sound.
  pub Step-IsSound :
      (s t : System Db) → Step records favorites s t → IsSound records s → IsSound records t
  unfolding Repo.create Repo.update_public Repo.update_project Repo.retry_failed Repo.delete
      Repo.store_generated Repo.mark_failed_with_upstream_error Repo.sweep_running_to_waiting
  Step-IsSound s t (create given w new e) h = rw e (record {
    inv = create-Inv records given s.db w h.inv;
    once = h.once;
    busy = create_busy records given s.db s.jobs _ (records.create_law given s.db) new h.busy;
  })
  Step-IsSound s t (publish now id user_id a b e) h = rw e (record {
    inv = update_public-Inv records now id user_id a b s.db h.inv;
    once = h.once;
    busy =
        rw affected_state
          (update-busy records _ _ s.db s.jobs (λ j. ((λ r p i run. run), (λ r. refl))) h.busy);
  })
  Step-IsSound s t (move id user_id p e) h = rw e (record {
    inv = update_project-Inv records id user_id p s.db h.inv;
    once = h.once;
    busy =
        rw affected_state
          (update-busy records _ _ s.db s.jobs (λ j. ((λ r p i run. run), (λ r. refl))) h.busy);
  })
  Step-IsSound s t (retry id user_id e) h = rw e (record {
    inv = retry_failed-Inv records id user_id s.db h.inv;
    once = h.once;
    busy =
        rw (then_find_state, affected_state)
          (update-busy records _ _ s.db s.jobs
            (λ j. ((λ r p i run. absurd (ground arith)), (λ r. refl))) h.busy);
  })
  Step-IsSound s t (delete id user_id e) h = rw e (record {
    inv = delete-Inv records id user_id s.db h.inv;
    once = h.once;
    busy = delete_busy records s.db s.jobs (Repo.find_by_id records id user_id s.db) h.busy;
  })
  Step-IsSound s t (claim now r got e) h = rw e (record {
    inv = claim_waiting-Inv records now s.db h.inv;
    once = (
      count_none _ s.jobs
          (All-mono _ _ s.jobs (claim_new records now s r h got) (λ j ne q. ground arith)),
      h.once,
    );
    busy = (claim_running records now s r h got, claim_busy records now s.db s.jobs h.busy);
  })
  Step-IsSound s t (claim_fails now x got e) h = rw e (record {
    inv = claim_waiting-Inv records now s.db h.inv;
    once = h.once;
    busy = claim_busy records now s.db s.jobs h.busy;
  })
  Step-IsSound s t (store now id path m e) h = rw e (record {
    inv = store_generated-Inv records now id path s.db (All-elem _ id s.jobs h.busy m) h.inv;
    once = Distinct-keep (λ j. j) _ s.jobs h.once;
    busy = store_busy records now id path s.db s.jobs h.busy;
  })
  Step-IsSound s t (favor id user_id b e) h = rw e (record {
    inv = update_favorite-Inv records favorites apart id user_id b s.db h.inv;
    once = h.once;
    busy = favor_busy records favorites apart id user_id b s.db s.jobs h.busy;
  })
  Step-IsSound s t (fail now id msg up m e) h = rw e (record {
    inv =
        mark_failed_with_upstream_error-Inv records now id msg up s.db
          (All-elem _ id s.jobs h.busy m) h.inv;
    once = Distinct-keep (λ j. j) _ s.jobs h.once;
    busy = rw no_error_state (settle-busy records id _ s.db s.jobs (λ r. refl) h.busy);
  })
  Step-IsSound s t (sweep idle e) h = rw e (record {
    inv = sweep_running_to_waiting-Inv records s.db h.inv;
    once = h.once;
    busy = rw idle tt;
  })

  -- Whatever users, workers and the boot do, a sound queue stays sound: the table is consistent, no
  -- record is claimed twice and the claimed records that exist are running. The favorites'
  -- statements leave the records alone.
  pub Reach-IsSound :
      {s t : System Db} → IsSound records s → Reach records favorites s t → IsSound records t
  Reach-IsSound h here = h
  Reach-IsSound h (next {t} {u} r st) = Step-IsSound t u st (Reach-IsSound h r)

  -- From a sound queue, whatever users, workers and the boot have done since: a claim that succeeds
  -- returns a running record that no worker has claimed and not yet settled.
  pub claim_exclusive :
      {s t : System Db} (now : ℕ) (r : Record)
      → IsSound records s
      → Reach records favorites s t
      → (Repo.claim_waiting records now t.db).0 ≡ ok r
      → All (λ j. j ≢ r.id) t.jobs × (r.status ≡ running) × (r.started_at ≡ some now)
  claim_exclusive {t} now r h reach e =
      let sound = Reach-IsSound h reach in
      let c = claim_waiting-Claimed records now t.db r sound.inv.1 e in
      (
        claim_new records now t r sound e,
        ap (λ q. q.status) c.returned,
        ap (λ q. q.started_at) c.returned,
      )
