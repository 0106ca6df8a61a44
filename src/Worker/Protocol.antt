-- ===== src/Worker/Protocol.antt =====
-- A round of a worker follows the protocol of the queue: the record that it claims is settled by
-- one statement, whatever the API, the store of blobs and the other statements do.
use shadraw.Base.{
  ℕ, String, ◌≡◌, refl, ap, sym, inl, inr, List, [], ◌∷◌, Result, ok, err, Elem, Bool-cases,
}
use shadraw.Table.{Table}
use shadraw.Record
use shadraw.Record.{Record, RecordFavorite, favorite_key, FillsFavorite}
use shadraw.Record.Repo
use shadraw.Record.Queue.{System, Step, Reach, others}
use shadraw.Upstream
use shadraw.Upstream.{GenerateResult}
use shadraw.Worker
use shadraw.Worker.{Services}

-- The jobs when the round is over.
abbrev pub released : Result Record.Error Record → List ℕ → List ℕ
released (ok rec) held = others rec.id held
released (err e) held = held

module _ {Db : Type 0} (records : Table Db Record Record.key Record.Fills)
    (favorites : Table Db RecordFavorite favorite_key FillsFavorite) (services : Services) where
  -- A settled record: one statement of the queue has run, and the job is no longer held.
  Settles : ℕ → Record → Db → Db → List ℕ → Type 0
  Settles now rec d d' jobs =
      Elem rec.id jobs
      → Step records favorites (record { db = d; jobs = jobs })
          (record { db = d'; jobs = others rec.id jobs })

  failed-Settles :
      (now : ℕ) (rec : Record) (msg : String) (d : Db) (jobs : List ℕ)
      → Settles now rec d (Repo.mark_failed records now rec.id msg d).1 jobs
  unfolding Settles Repo.mark_failed
  failed-Settles now rec msg d jobs m = Step.fail now rec.id msg "" m refl

  stored-Settles :
      (now : ℕ) (rec : Record) (r : Result String String) (d : Db) (jobs : List ℕ)
      → Settles now rec d (Worker.settle_stored records services now rec r d) jobs
  unfolding Worker.settle_stored Settles
  stored-Settles now rec (err text) d jobs m = failed-Settles now rec _ d jobs m
  stored-Settles now rec (ok path) d jobs m = Step.store now rec.id path m refl

  image-Settles :
      (now : ℕ) (rec : Record) (extension : String) (image : List ℕ) (d : Db) (jobs : List ℕ)
      → Settles now rec d (Worker.settle_image records services now rec extension image d) jobs
  unfolding Worker.settle_image
  image-Settles now rec extension [] d jobs = failed-Settles now rec _ d jobs
  image-Settles now rec extension (b ∷ image) d jobs = stored-Settles now rec _ d jobs

  result-Settles :
      (now : ℕ) (rec : Record) (out : Result Upstream.Error GenerateResult) (d : Db) (jobs : List ℕ)
      → Settles now rec d (Worker.settle_result records services now rec out d) jobs
  unfolding Worker.settle_result Settles
  result-Settles now rec (err e) d jobs m = Step.fail now rec.id _ _ m refl
  result-Settles now rec (ok result) d jobs m =
      image-Settles now rec result.extension result.image d jobs m

  settle-Settles :
      (now : ℕ) (rec : Record) (d : Db) (jobs : List ℕ)
      → Settles now rec d (Worker.settle records services now rec d) jobs
  unfolding Worker.settle
  settle-Settles now rec d jobs = elim (Bool-cases (Upstream.is_unset services.config)) [
    | inl e ↦ rw e (failed-Settles now rec _ d jobs)
    | inr e ↦ rw e (result-Settles now rec _ d jobs)
  ]

  settle_step :
      (now : ℕ) (rec : Record) (d : Db) (jobs : List ℕ)
      → Elem rec.id jobs
      → Step records favorites
          (record { db = d; jobs = jobs })
          (record { db = Worker.settle records services now rec d; jobs = others rec.id jobs })
  unfolding Settles
  settle_step now rec d jobs m = settle-Settles now rec d jobs m

  Reach-trans :
      {s t u : System Db}
      → Reach records favorites s t
      → Reach records favorites t u
      → Reach records favorites s u
  Reach-trans r Reach.here = r
  Reach-trans r (Reach.next q st) = Reach.next (Reach-trans r q) st

  fails-Reach :
      (start : ℕ) (d d' : Db) (jobs : List ℕ) (x : Record.Error)
      → Repo.claim_waiting records start d ≡ (err x, d')
      → Reach records favorites (record { db = d; jobs = jobs }) (record { db = d'; jobs = jobs })
  fails-Reach start d d' jobs x e = Reach.next Reach.here (
      Step.claim_fails start x (ap (λ r. r.0) e)
        (ap (λ r. record { db = r.1; jobs = jobs }) (sym e)))

  -- After a claim the other statements run from it, and do not settle the claimed record.
  abbrev pub Runs : (Db → Db) → List ℕ → Result Record.Error Record × Db → List ℕ → Type 0
  Runs meanwhile jobs (ok rec, d) held =
      Reach records favorites (record { db = d; jobs = rec.id ∷ jobs })
        (record { db = meanwhile d; jobs = held })
      × Elem rec.id held
  Runs meanwhile jobs (err e, d) held = held ≡ jobs

  claimed-Reach :
      (start now : ℕ) (meanwhile : Db → Db) (d : Db) (jobs held : List ℕ)
      (out : Result Record.Error Record × Db)
      → Repo.claim_waiting records start d ≡ out
      → Runs meanwhile jobs out held
      → Reach records favorites
          (record { db = d; jobs = jobs })
          (record {
            db = (Worker.tick_claimed records services now meanwhile out).1;
            jobs = released out.0 held;
          })
  unfolding Worker.tick_claimed
  claimed-Reach start now meanwhile d jobs held (ok rec, d') e (run, m) =
      let claimed : Step records favorites (record { db = d; jobs = jobs })
          (record { db = d'; jobs = rec.id ∷ jobs }) =
        Step.claim start rec (ap (λ r. r.0) e)
          (ap (λ r. record { db = r.1; jobs = rec.id ∷ jobs }) (sym e)) in
      Reach.next (Reach-trans (Reach.next Reach.here claimed) run)
        (settle_step now rec (meanwhile d') held m)
  claimed-Reach start now meanwhile d jobs held (err Record.not_found, d') e same =
      rw same (fails-Reach start d d' jobs Record.not_found e)
  claimed-Reach start now meanwhile d jobs held (err x, d') e same =
      rw same (fails-Reach start d d' jobs x e)

  -- A round of a worker is a run of the queue: a claim, what the others do while the image is
  -- generated, and one statement that settles the claimed record, whatever the generation gave.
  pub tick_once-Reach :
      (start now : ℕ) (meanwhile : Db → Db) (d : Db) (jobs held : List ℕ)
      → Runs meanwhile jobs (Repo.claim_waiting records start d) held
      → Reach records favorites
          (record { db = d; jobs = jobs })
          (record {
            db = (Worker.tick_once records services start now meanwhile d).1;
            jobs = released (Repo.claim_waiting records start d).0 held;
          })
  unfolding Worker.tick_once
  tick_once-Reach start now meanwhile d jobs held run =
      claimed-Reach start now meanwhile d jobs held _ refl run
