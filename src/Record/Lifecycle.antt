-- ===== src/Record/Lifecycle.antt =====
-- The invariant of the table of records, and that each statement of the repository keeps it.
use shadraw.Base.{
  ℕ, String, ◌≡◌, refl, inl, inr, Bool, true, false, Option, List, [], ◌∷◌, arith, str_eq, Result,
  ok, err, update_where, Elem, All, if◌then◌else◌, Bool-cases,
}
use shadraw.Table.{DbError, Table, Updates, Deletes, Creates}
use shadraw.Table.Rows.{All-elem, All-append, All-keep}
use shadraw.Table.Keys.{Distinct, Distinct-update_where, Distinct-keep, Distinct-snoc, same_row}
use shadraw.Record.{
  waiting, running, Record, key, Fills, Error, by_id, start, complete, lift, no_error,
}
use shadraw.Record.Repo
use shadraw.Record.Favorites.{update_favorite-Favors}
use shadraw.Record.{RecordFavorite, favorite_key, FillsFavorite}
use shadraw.Table.{Separate}
use shadraw.Record.Outcome.{affected_state, no_error_state, lift_state}
use shadraw.Record.Claim.{Picks, claim_waiting-Picks}
use shadraw.Record.Consistent.{
  IsConsistent, set_project-IsConsistent, set_public-IsConsistent, reset-IsConsistent,
  complete-IsConsistent, fail-IsConsistent, unstart-IsConsistent, set_favorite-IsConsistent,
  start-IsConsistent, Fills-IsConsistent,
}

-- Every row is consistent, and no two have the same id.
abbrev pub Inv : List Record → Type 0
Inv rows = All IsConsistent rows × Distinct key rows

-- Every row with this id is being generated.
abbrev pub IsRunning : ℕ → List Record → Type 0
IsRunning id rows = All (λ r. r.id ≡ id → r.status ≡ running) rows

-- An assignment that keeps consistency on the rows that it matches, and their ids.
abbrev Keeps : (Record → Bool) → (Record → Record) → List Record → Type 0
Keeps p f rows =
    ((r : Record) → Elem r rows → p r ≡ true → IsConsistent r → IsConsistent (f r))
    × ((r : Record) → (f r).id ≡ r.id)

update_where-IsConsistent :
    (p : Record → Bool) (f : Record → Record) (all rows : List Record)
    → ((r : Record) → Elem r rows → Elem r all)
    → Keeps p f all
    → All IsConsistent rows
    → All IsConsistent (update_where p f rows)
update_where-IsConsistent p f all [] sub k h = tt
update_where-IsConsistent p f all (x ∷ rows) sub k h =
    let rest = update_where-IsConsistent p f all rows (λ r m. sub r (inr m)) k h.1 in
    elim (Bool-cases (p x)) [
      | inl e ↦ rw e (k.0 x (sub x (inl refl)) e h.0, rest)
      | inr e ↦ rw e (h.0, rest)
    ]

update_where-Inv :
    (p : Record → Bool) (f : Record → Record) (rows : List Record)
    → Keeps p f rows
    → Inv rows
    → Inv (update_where p f rows)
update_where-Inv p f rows k h = (
  update_where-IsConsistent p f rows rows (λ r m. m) k h.0,
  Distinct-update_where key p f rows k.1 h.1,
)

module _ {Db : Type 0} (records : Table Db Record key Fills) where
  open records use {rows}

  Updates-Inv :
      (p : Record → Bool) (f : Record → Record) (d : Db) (out : Result DbError ℕ × Db)
      → Updates rows p f d out
      → Keeps p f (rows d)
      → Inv (rows d)
      → Inv (rows out.1)
  Updates-Inv p f d (ok n, d') u k h = rw u.0 (update_where-Inv p f (rows d) k h)
  Updates-Inv p f d (err e, d') u k h = rw u h

  update-Inv :
      (p : Record → Bool) (f : Record → Record) (d : Db)
      → Keeps p f (rows d)
      → Inv (rows d)
      → Inv (rows (records.update p f d).1)
  update-Inv p f d = Updates-Inv p f d (records.update p f d) (records.update_law p f d)

  pub update_project-Inv :
      (id user_id : ℕ) (p : Option ℕ) (d : Db)
      → Inv (rows d)
      → Inv (rows (Repo.update_project records id user_id p d).1)
  unfolding Repo.update_project
  update_project-Inv id user_id p d h =
      rw affected_state
        (update-Inv _ _ d ((λ r m e c. set_project-IsConsistent p r c), (λ r. refl)) h)

  pub update_public-Inv :
      (now id user_id : ℕ) (is_public prompt_public : Bool) (d : Db)
      → Inv (rows d)
      → Inv (rows (Repo.update_public records now id user_id is_public prompt_public d).1)
  unfolding Repo.update_public
  update_public-Inv now id user_id is_public prompt_public d h = rw affected_state (
      update-Inv _ _ d
        (
          (λ r m e c. set_public-IsConsistent now id user_id is_public prompt_public r e c),
          (λ r. refl),
        )
        h)

  pub then_find_state :
      (id user_id : ℕ) (out : Result Error Unit × Db)
      → (Repo.then_find records id user_id out).1 ≡ out.1
  unfolding Repo.then_find
  then_find_state id user_id (ok _, d) = refl
  then_find_state id user_id (err e, d) = refl

  pub retry_failed-Inv :
      (id user_id : ℕ) (d : Db)
      → Inv (rows d)
      → Inv (rows (Repo.retry_failed records id user_id d).1)
  unfolding Repo.retry_failed
  retry_failed-Inv id user_id d h =
      rw (then_find_state, affected_state)
        (update-Inv _ _ d ((λ r m e c. reset-IsConsistent id user_id r e c), (λ r. refl)) h)

  deleted-Inv :
      (rec : Record) (d : Db) (out : Result DbError ℕ × Db)
      → Deletes rows (by_id rec.id) d out
      → Inv (rows d)
      → Inv (rows (Repo.with_value records rec out).1)
  unfolding Repo.with_value
  deleted-Inv rec d (ok n, d') u h =
      rw u.0 (All-keep IsConsistent _ (rows d) h.0, Distinct-keep key _ (rows d) h.1)
  deleted-Inv rec d (err e, d') u h = rw u h

  delete_found-Inv :
      (d : Db) (found : Result Error Record)
      → Inv (rows d)
      → Inv (rows (Repo.delete_found records d found).1)
  unfolding Repo.delete_found
  delete_found-Inv d (err e) h = h
  delete_found-Inv d (ok rec) h = deleted-Inv rec d _ (records.delete_law (by_id rec.id) d) h

  pub delete-Inv :
      (id user_id : ℕ) (d : Db) → Inv (rows d) → Inv (rows (Repo.delete records id user_id d).1)
  unfolding Repo.delete
  delete-Inv id user_id d h = delete_found-Inv d (Repo.find_by_id records id user_id d) h

  created-Inv :
      (given : Record) (d : Db) (out : Result DbError Record × Db)
      → given.status ≡ waiting
      → Creates rows key Fills given d out
      → Inv (rows d)
      → Inv (rows (lift out).1)
  created-Inv given d (ok r, d') w c h = rw c.0 (
    All-append IsConsistent (rows d) _ h.0 (Fills-IsConsistent given r w c.1, tt),
    Distinct-snoc key (rows d) r h.1 c.2,
  )
  created-Inv given d (err e, d') w c h = rw c h

  pub create-Inv :
      (given : Record) (d : Db)
      → given.status ≡ waiting
      → Inv (rows d)
      → Inv (rows (Repo.create records given d).1)
  unfolding Repo.create
  create-Inv given d w h = created-Inv given d _ w (records.create_law given d) h

  pub store_generated-Inv :
      (now id : ℕ) (path : String) (d : Db)
      → IsRunning id (rows d)
      → Inv (rows d)
      → Inv (rows (Repo.store_generated records now id path d).1)
  unfolding Repo.store_generated
  store_generated-Inv now id path d run h = go (str_eq path "") refl
    where
      keeps : str_eq path "" ≡ false → Keeps (by_id id) (complete now path) (rows d)
      keeps ne = (
        (λ r m e c.
            complete-IsConsistent now path r ne (All-elem _ r (rows d) run m (ground arith)) c),
        (λ r. refl),
      )

      go :
          (b : Bool)
          → str_eq path "" ≡ b
          → Inv (
              rows
                (if b
                  then (err Error.empty_image_path, d)
                  else no_error (records.update (by_id id) (complete now path) d)).1)
      go true e = h
      go false e = rw no_error_state (update-Inv _ _ d (keeps e) h)

  pub mark_failed_with_upstream_error-Inv :
      (now id : ℕ) (msg upstream_error : String) (d : Db)
      → IsRunning id (rows d)
      → Inv (rows d)
      → Inv (rows (Repo.mark_failed_with_upstream_error records now id msg upstream_error d).1)
  unfolding Repo.mark_failed_with_upstream_error
  mark_failed_with_upstream_error-Inv now id msg upstream_error d run h = rw no_error_state (
      update-Inv _ _ d
        (
          (λ r m e c.
              fail-IsConsistent now msg upstream_error r
                (All-elem _ r (rows d) run m (ground arith)) c),
          (λ r. refl),
        )
        h)

  pub sweep_running_to_waiting-Inv :
      (d : Db) → Inv (rows d) → Inv (rows (Repo.sweep_running_to_waiting records d).1)
  unfolding Repo.sweep_running_to_waiting
  sweep_running_to_waiting-Inv d h =
      rw lift_state (update-Inv _ _ d ((λ r m e c. unstart-IsConsistent r e c), (λ r. refl)) h)

  started-Inv :
      (now : ℕ) (d d' : Db) (picked : Record)
      → Picks records d now picked d'
      → Inv (rows d)
      → Inv (rows d')
  started-Inv now d d' picked (listed, w, free, first, marked) h =
      let keeps : Keeps (by_id picked.id) (start now) (rows d) = (
        (λ r m e c.
            let same = same_row key r picked (rows d) h.1 m listed (ground arith) in
            start-IsConsistent now r (rw same (ground arith)) c),
        (λ r. refl),
      ) in
      rw marked (update_where-Inv _ _ (rows d) keeps h)

  pub claim_waiting-Inv :
      (now : ℕ) (d : Db) → Inv (rows d) → Inv (rows (Repo.claim_waiting records now d).1)
  claim_waiting-Inv now d h = elim (claim_waiting-Picks records now d) [
    | inl same ↦ rw same h
    | inr (picked, p) ↦ started-Inv now d _ picked p h
  ]

module _ {Db : Type 0} (records : Table Db Record key Fills)
    (favorites : Table Db RecordFavorite favorite_key FillsFavorite)
    (apart : Separate favorites records.rows) where
  pub update_favorite-Inv :
      (id user_id : ℕ) (b : Bool) (d : Db)
      → Inv (records.rows d)
      → Inv (records.rows (Repo.update_favorite records favorites id user_id b d).1)
  update_favorite-Inv id user_id b d h =
      elim (update_favorite-Favors records favorites apart id user_id b d) [
        | inl same ↦ rw same h
        | inr same ↦
            rw same (
              update-Inv records _ _ d ((λ r m e c. set_favorite-IsConsistent b r c), (λ r. refl))
                h)
      ]
