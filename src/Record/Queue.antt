-- ===== src/Record/Queue.antt =====
-- The records as a work queue: the statements of users, workers and the boot, in any order. Each
-- statement is atomic. `jobs` holds the ids that a worker has claimed and not yet settled.
pub mod Busy
pub mod Sound
use shadraw.Base.{
  ℕ, String, ◌<◌, ◌≡◌, refl, sym, ◌∙◌, ap, ◌≢◌, inl, inr, Bool, true, false, not, Option, none,
  some, List, [], ◌∷◌, ◌++◌, arith, str_eq, Result, ok, err, update_where, keep, count, Elem, All,
  ◌==◌, if◌then◌else◌, Bool-cases,
}
use shadraw.Table.{DbError, Table, Updates, Deletes, Creates}
use shadraw.Table.Rows.{
  All-elem, All-append, All-mono, All-updated, All-with-Elem, All-update_where, All-keep,
  All-keep_mono, count_none,
}
use shadraw.Table.Keys.{Distinct, Distinct-keep, same_row}
use shadraw.Record.{
  Status, waiting, running, failed, Record, key, Fills, Error, by_id, owned, publishable, retryable,
  is_waiting, is_running, set_favorite, set_project, set_public, reset, start, complete, unstart,
  affected, lift, no_error,
}
use shadraw.Record.Repo
use shadraw.Record.Favorites.{update_favorite-Favors}
use shadraw.Record.{empty_image_path, RecordFavorite, favorite_key, FillsFavorite}
use shadraw.Table.{Separate}
use shadraw.Record.Lifecycle.{update_favorite-Inv}
use shadraw.Record.Outcome.{affected_state, no_error_state, lift_state}
use shadraw.Record.Lifecycle.{
  Inv, IsRunning, update_project-Inv, update_public-Inv, retry_failed-Inv, delete-Inv, create-Inv,
  store_generated-Inv, mark_failed_with_upstream_error-Inv, sweep_running_to_waiting-Inv,
  claim_waiting-Inv, then_find_state,
}
use shadraw.Record.Claim.{Claimed, Picks, claim_waiting-Claimed, claim_waiting-Picks}

abbrev pub others : ℕ → List ℕ → List ℕ
others id jobs = keep (λ j. not (j == id)) jobs

pub record System (Db : Type 0) : Type 0 where
  pub db : Db
  pub jobs : List ℕ

module _ {Db : Type 0} (records : Table Db Record key Fills) where
  open records use {rows}

  -- The table is consistent, no record is claimed twice, and a claimed record that still exists is
  -- running.
  pub record IsSound (s : System Db) : Type 0 where
    pub inv : Inv (rows s.db)
    pub once : Distinct (λ j. j) s.jobs
    pub busy : All (λ j. IsRunning j (rows s.db)) s.jobs

module _ {Db : Type 0} (records : Table Db Record key Fills)
    (favorites : Table Db RecordFavorite favorite_key FillsFavorite) where
  -- One statement. The ids are of a sequence, which gives none twice. The sweep runs at boot, when
  -- no worker is at work.
  pub data Step (s t : System Db) : Type 0 where
    create :
        (given : Record)
        → given.status ≡ waiting
        → ((r : Record) → (Repo.create records given s.db).0 ≡ ok r → ¬ Elem r.id s.jobs)
        → t ≡ record s { db = (Repo.create records given s.db).1 }
        → Step s t
    publish :
        (now id user_id : ℕ) (is_public prompt_public : Bool)
        → t ≡ record s {
          db = (Repo.update_public records now id user_id is_public prompt_public s.db).1;
        }
        → Step s t
    move :
        (id user_id : ℕ) (p : Option ℕ)
        → t ≡ record s { db = (Repo.update_project records id user_id p s.db).1 }
        → Step s t
    favor :
        (id user_id : ℕ) (b : Bool)
        → t ≡ record s { db = (Repo.update_favorite records favorites id user_id b s.db).1 }
        → Step s t
    retry :
        (id user_id : ℕ)
        → t ≡ record s { db = (Repo.retry_failed records id user_id s.db).1 }
        → Step s t
    delete :
        (id user_id : ℕ) → t ≡ record s { db = (Repo.delete records id user_id s.db).1 } → Step s t
    claim :
        (now : ℕ) (r : Record)
        → (Repo.claim_waiting records now s.db).0 ≡ ok r
        → t ≡ record { db = (Repo.claim_waiting records now s.db).1; jobs = r.id ∷ s.jobs }
        → Step s t
    claim_fails :
        (now : ℕ) (e : Error)
        → (Repo.claim_waiting records now s.db).0 ≡ err e
        → t ≡ record s { db = (Repo.claim_waiting records now s.db).1 }
        → Step s t
    store :
        (now id : ℕ) (path : String)
        → Elem id s.jobs
        → t ≡ record {
          db = (Repo.store_generated records now id path s.db).1;
          jobs = others id s.jobs;
        }
        → Step s t
    fail :
        (now id : ℕ) (msg upstream_error : String)
        → Elem id s.jobs
        → t ≡ record {
          db = (Repo.mark_failed_with_upstream_error records now id msg upstream_error s.db).1;
          jobs = others id s.jobs;
        }
        → Step s t
    sweep :
        s.jobs ≡ []
        → t ≡ record s { db = (Repo.sweep_running_to_waiting records s.db).1 }
        → Step s t

  pub data Reach (s : System Db) : System Db → Type 0 where
    here : Reach s s
    next : {t u : System Db} → Reach s t → Step t u → Reach s u
