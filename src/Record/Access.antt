-- ===== src/Record/Access.antt =====
-- Who can read and change a record: its owner, and for an image that is shared everyone.
use shadraw.Base.{
  ℕ, ◌<◌, ◌≡◌, refl, ◌⊎◌, inl, inr, Bool, true, false, not, Option, List, [], ◌∷◌, Result, ok, err,
  ◌==◌, arith, Elem, All, keep, update_where, Bool-cases,
}
use shadraw.Table.{DbError, Table, Updates, Deletes}
use shadraw.Table.Keys.{Distinct, same_row}
use shadraw.Record.{
  Record, key, Fills, Error, owned, visible_image, publishable, retryable, set_public, set_project,
  reset, has_image, by_id,
}
use shadraw.Record.Repo
use shadraw.Record.Outcome.{affected_state}
use shadraw.Record.Claim.{from_take-found, find_by_id-found}
use shadraw.Record.Lifecycle.{then_find_state}

-- The rows of the other users.
abbrev pub rows_of_others : ℕ → List Record → List Record
rows_of_others user_id rows = keep (λ r. not (r.user_id == user_id)) rows

-- An assignment that matches rows of one user only and does not move them to another.
update_where-others :
    (user_id : ℕ) (p : Record → Bool) (f : Record → Record) (rows : List Record)
    → ((r : Record) → p r ≡ true → r.user_id ≡ user_id)
    → ((r : Record) → (f r).user_id ≡ r.user_id)
    → rows_of_others user_id (update_where p f rows) ≡ rows_of_others user_id rows
update_where-others user_id p f [] mine same = refl
update_where-others user_id p f (r ∷ rest) mine same =
    let ih = update_where-others user_id p f rest mine same in
    elim (Bool-cases (p r)) [
      | inl e ↦
          let yes : (r.user_id == user_id) ≡ true = ground (arith, mine r e) in
          let moved : ((f r).user_id == user_id) ≡ true = ground (arith, mine r e, same r) in
          rw (e, moved, yes) ih
      | inr e ↦ rw (e, ih) refl
    ]

keep-others :
    (user_id : ℕ) (p : Record → Bool) (rows : List Record)
    → All (λ r. p r ≡ false → r.user_id ≡ user_id) rows
    → rows_of_others user_id (keep p rows) ≡ rows_of_others user_id rows
keep-others user_id p [] mine = refl
keep-others user_id p (r ∷ rest) (mine, h) =
    let ih = keep-others user_id p rest h in
    elim (Bool-cases (p r)) [
      | inl e ↦ rw (e, ih) refl
      | inr e ↦ let yes : (r.user_id == user_id) ≡ true = ground (arith, mine e) in rw (e, yes) ih
    ]

pub all_of :
    {P : Record → Type 0} (rows : List Record) → ((r : Record) → Elem r rows → P r) → All P rows
all_of [] h = tt
all_of (r ∷ rest) h = (h r (inl refl), all_of rest (λ x m. h x (inr m)))

module _ {Db : Type 0} (records : Table Db Record key Fills) where
  open records use {rows}

  updated-others :
      (user_id : ℕ) (p : Record → Bool) (f : Record → Record) (d : Db) (out : Result DbError ℕ × Db)
      → Updates rows p f d out
      → ((r : Record) → p r ≡ true → r.user_id ≡ user_id)
      → ((r : Record) → (f r).user_id ≡ r.user_id)
      → rows_of_others user_id (rows out.1) ≡ rows_of_others user_id (rows d)
  updated-others user_id p f d (ok n, d') u mine same =
      rw u.0 (update_where-others user_id p f (rows d) mine same)
  updated-others user_id p f d (err e, d') u mine same = rw u refl

  pub update-others :
      (user_id : ℕ) (p : Record → Bool) (f : Record → Record) (d : Db)
      → ((r : Record) → p r ≡ true → r.user_id ≡ user_id)
      → ((r : Record) → (f r).user_id ≡ r.user_id)
      → rows_of_others user_id (rows (records.update p f d).1) ≡ rows_of_others user_id (rows d)
  update-others user_id p f d mine same =
      updated-others user_id p f d _ (records.update_law p f d) mine same

  -- Publishing, moving and retrying a record leave the rows of all other users as they are.
  pub requests-others :
      (now id user_id : ℕ) (is_public prompt_public : Bool) (project_id : Option ℕ) (d : Db)
      → (rows_of_others user_id
            (rows (Repo.update_public records now id user_id is_public prompt_public d).1)
          ≡ rows_of_others user_id (rows d))
        × (rows_of_others user_id (rows (Repo.update_project records id user_id project_id d).1)
            ≡ rows_of_others user_id (rows d))
        × (rows_of_others user_id (rows (Repo.retry_failed records id user_id d).1)
            ≡ rows_of_others user_id (rows d))
  unfolding Repo.update_public Repo.update_project Repo.retry_failed
  requests-others now id user_id is_public prompt_public project_id d = (
    rw affected_state (
        update-others user_id (publishable id user_id) (set_public now is_public prompt_public) d
          (λ r e. ground arith) (λ r. refl)),
    rw affected_state (
        update-others user_id (owned id user_id) (set_project project_id) d (λ r e. ground arith)
          (λ r. refl)),
    rw (then_find_state, affected_state)
        (update-others user_id (retryable id user_id) reset d (λ r e. ground arith) (λ r. refl)),
  )

  -- A user who is not the administrator is given own rows only.
  pub find_by_id-owned :
      (id user_id : ℕ) (d : Db) {r : Record}
      → 0 < user_id
      → Repo.find_by_id records id user_id d ≡ ok r
      → Elem r (rows d) × (r.id ≡ id) × (r.user_id ≡ user_id)
  find_by_id-owned id user_id d {r} pos_id e =
      let (m, s) = find_by_id-found records id user_id d r e in (m, ground arith, ground arith)

  -- An image is shown to its owner, and to others and to visitors only if its record is public.
  pub find_visible_image-allowed :
      (id user_id : ℕ) (d : Db) {r : Record}
      → Repo.find_visible_image_by_id records id user_id d ≡ ok r
      → Elem r (rows d)
        × (has_image r.image_path ≡ true)
        × ((r.is_public ≡ true) ⊎ ((0 < user_id) × (r.user_id ≡ user_id)))
  unfolding Repo.find_visible_image_by_id
  find_visible_image-allowed id user_id d {r} e =
      let (m, v) =
        from_take-found records (visible_image id user_id) d r _ (records.take_law _ d) e in
      (m, ground arith, ground arith)

  deleted-others :
      (user_id : ℕ) (rec : Record) (d : Db) (out : Result DbError ℕ × Db)
      → Distinct key (rows d)
      → Elem rec (rows d)
      → rec.user_id ≡ user_id
      → Deletes rows (by_id rec.id) d out
      → rows_of_others user_id (rows (Repo.with_value records rec out).1)
        ≡ rows_of_others user_id (rows d)
  unfolding Repo.with_value
  deleted-others user_id rec d (ok n, d') h m mine u = rw u.0 (
      keep-others user_id _ (rows d) (
        all_of (rows d) (λ r listed e.
          let same : r ≡ rec = same_row key r rec (rows d) h listed m (ground arith) in
          rw same mine)))
  deleted-others user_id rec d (err e, d') h m mine u = rw u refl

  delete_found-others :
      (id user_id : ℕ) (d : Db) (found : Result Error Record)
      → 0 < user_id
      → Distinct key (rows d)
      → Repo.find_by_id records id user_id d ≡ found
      → rows_of_others user_id (rows (Repo.delete_found records d found).1)
        ≡ rows_of_others user_id (rows d)
  unfolding Repo.delete_found
  delete_found-others id user_id d (err e) pos_id h f = refl
  delete_found-others id user_id d (ok rec) pos_id h f =
      let (m, same_id, mine) = find_by_id-owned id user_id d pos_id f in
      deleted-others user_id rec d _ h m mine (records.delete_law (by_id rec.id) d)

  -- A user who is not the administrator deletes own rows only, in a table with distinct ids.
  pub delete-others :
      (id user_id : ℕ) (d : Db)
      → 0 < user_id
      → Distinct key (rows d)
      → rows_of_others user_id (rows (Repo.delete records id user_id d).1)
        ≡ rows_of_others user_id (rows d)
  unfolding Repo.delete
  delete-others id user_id d pos_id h = delete_found-others id user_id d _ pos_id h refl
