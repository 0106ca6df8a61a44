-- ===== src/Worker/Outcomes.antt =====
-- What a round leaves of the claimed record, when the database answers.
use shadraw.Base.{
  ℕ, String, ◌≡◌, ◌≢◌, ◌⊎◌, refl, Bool, true, false, inl, inr, List, [], ◌∷◌, Result, ok, err, All,
  if◌then◌else◌, arith, str_eq, eq_iff, Bool-cases,
}
use shadraw.Table.{DbError, Table, Updates}
use shadraw.Table.Rows.{All-updated}
use shadraw.Record
use shadraw.Record.{Record, Status, completed, failed, by_id, complete, fail, no_error}
use shadraw.Record.Repo
use shadraw.Upstream
use shadraw.Upstream.{GenerateResult}
use shadraw.Worker
use shadraw.Worker.{Services}

-- Every row with this id is completed or failed.
abbrev pub IsOver : Status → Type 0
IsOver s = (s ≡ completed) ⊎ (s ≡ failed)

abbrev pub IsSettled : ℕ → List Record → Type 0
IsSettled id rows = All (λ r. r.id ≡ id → IsOver r.status) rows

module _ {Db : Type 0} (records : Table Db Record Record.key Record.Fills) where
  open records use {rows}

  -- Every update gets through.
  abbrev pub Answers : Type 0
  Answers =
      (p : Record → Bool) (f : Record → Record) (d : Db)
      → (n : ℕ) × ((records.update p f d).0 ≡ ok n)

  updated-IsSettled :
      (id : ℕ) (f : Record → Record) (d : Db) (out : Result DbError ℕ × Db) {n : ℕ}
      → ((r : Record) → IsOver (f r).status)
      → ((r : Record) → (f r).id ≡ r.id)
      → Updates rows (by_id id) f d out
      → out.0 ≡ ok n
      → IsSettled id (rows (no_error out).1)
  updated-IsSettled id f d (err e, d') stops keeps u h = cc
  updated-IsSettled id f d (ok n, d') stops keeps u h = rw u.0 (
      All-updated (λ r. r.id ≡ id → IsOver r.status) (by_id id) f (rows d)
        (λ r m. one r (by_id id r) refl))
    where
      one :
          (r : Record) (b : Bool)
          → by_id id r ≡ b
          → (if b then f r else r).id ≡ id
          → IsOver (if b then f r else r).status
      one r true e same = stops r
      one r false e same = absurd (ground arith)

module _ {Db : Type 0} (records : Table Db Record Record.key Record.Fills) (services : Services)
    (answers : Answers records)
    (named : (user_id : ℕ) (uuid extension : String) (image : List ℕ) (path : String)
      → services.put user_id uuid extension image ≡ ok path
      → path ≢ "") where
  open records use {rows}

  fail_detail-IsSettled :
      (now id : ℕ) (msg detail : String) (d : Db)
      → IsSettled id (rows (Repo.mark_failed_with_upstream_error records now id msg detail d).1)
  unfolding Repo.mark_failed_with_upstream_error
  fail_detail-IsSettled now id msg detail d =
      let (n, e) = answers (by_id id) (fail now msg detail) d in
      updated-IsSettled records id (fail now msg detail) d _ (λ r. inr refl) (λ r. refl)
        (records.update_law _ _ d) e

  fail-IsSettled :
      (now id : ℕ) (msg : String) (d : Db)
      → IsSettled id (rows (Repo.mark_failed records now id msg d).1)
  unfolding Repo.mark_failed
  fail-IsSettled now id msg d = fail_detail-IsSettled now id msg "" d

  store-IsSettled :
      (now id : ℕ) (path : String) (d : Db)
      → path ≢ ""
      → IsSettled id (rows (Repo.store_generated records now id path d).1)
  unfolding Repo.store_generated
  store-IsSettled now id path d ne =
      let (n, e) = answers (by_id id) (complete now path) d in
      let no : str_eq path "" ≡ false = ground (arith, eq_iff path "") in
      rw no (
        updated-IsSettled records id (complete now path) d _ (λ r. inl refl) (λ r. refl)
          (records.update_law _ _ d) e)

  stored-IsSettled :
      (now : ℕ) (rec : Record) (r : Result String String) (d : Db)
      → ((path : String) → r ≡ ok path → path ≢ "")
      → IsSettled rec.id (rows (Worker.settle_stored records services now rec r d))
  unfolding Worker.settle_stored
  stored-IsSettled now rec (err text) d ne = fail-IsSettled now rec.id _ d
  stored-IsSettled now rec (ok path) d ne = store-IsSettled now rec.id path d (ne path refl)

  image-IsSettled :
      (now : ℕ) (rec : Record) (extension : String) (image : List ℕ) (d : Db)
      → IsSettled rec.id (rows (Worker.settle_image records services now rec extension image d))
  unfolding Worker.settle_image
  image-IsSettled now rec extension [] d = fail-IsSettled now rec.id _ d
  image-IsSettled now rec extension (b ∷ image) d =
      stored-IsSettled now rec (services.put rec.user_id rec.uuid extension (b ∷ image)) d
        (named rec.user_id rec.uuid extension (b ∷ image))

  result-IsSettled :
      (now : ℕ) (rec : Record) (out : Result Upstream.Error GenerateResult) (d : Db)
      → IsSettled rec.id (rows (Worker.settle_result records services now rec out d))
  unfolding Worker.settle_result
  result-IsSettled now rec (err e) d = fail_detail-IsSettled now rec.id _ _ d
  result-IsSettled now rec (ok result) d = image-IsSettled now rec result.extension result.image d

  -- Where every update gets through and the store of blobs gives no empty path, a round leaves the
  -- claimed record completed or failed.
  pub settle-IsSettled :
      (now : ℕ) (rec : Record) (d : Db)
      → IsSettled rec.id (rows (Worker.settle records services now rec d))
  unfolding Worker.settle
  settle-IsSettled now rec d = elim (Bool-cases (Upstream.is_unset services.config)) [
    | inl e ↦ rw e (fail-IsSettled now rec.id _ d)
    | inr e ↦ rw e (result-IsSettled now rec _ d)
  ]
