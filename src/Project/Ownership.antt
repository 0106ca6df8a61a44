-- ===== src/Project/Ownership.antt =====
-- A user's projects are changed by that user only.
use shadraw.Base.{
  ℕ, zero, suc, String, ◌≡◌, refl, true, not, inl, inr, List, [], ◌∷◌, Result, ok, err, ◌==◌, arith,
  count, keep, update_where, Bool-cases,
}
use shadraw.Table.{DbError, Table, Updates, Deletes}
use shadraw.Project
use shadraw.Project.{
  Project, key, Fills, Error, project_not_found, owned, set_name, affected, from_take,
}

abbrev pub projects_of_others : ℕ → List Project → List Project
projects_of_others user_id rows = keep (λ p. not (p.user_id == user_id)) rows

renamed-others :
    (id user_id : ℕ) (name : String) (rows : List Project)
    → projects_of_others user_id (update_where (owned id user_id) (set_name name) rows)
      ≡ projects_of_others user_id rows
renamed-others id user_id name [] = refl
renamed-others id user_id name (p ∷ rest) =
    let ih = renamed-others id user_id name rest in
    elim (Bool-cases (owned id user_id p)) [
      | inl e ↦ let mine : (p.user_id == user_id) ≡ true = ground arith in rw (e, mine) ih
      | inr e ↦ rw (e, ih) refl
    ]

kept-others :
    (id user_id : ℕ) (rows : List Project)
    → projects_of_others user_id (keep (λ p. not (owned id user_id p)) rows)
      ≡ projects_of_others user_id rows
kept-others id user_id [] = refl
kept-others id user_id (p ∷ rest) =
    let ih = kept-others id user_id rest in
    elim (Bool-cases (owned id user_id p)) [
      | inl e ↦ let mine : (p.user_id == user_id) ≡ true = ground arith in rw (e, mine) ih
      | inr e ↦ rw (e, ih) refl
    ]

affected_state : {Db : Type 0} (out : Result DbError ℕ × Db) → ◌≡◌ {A = Db} (affected out).1 out.1
affected_state (ok zero, d) = refl
affected_state (ok (suc n), d) = refl
affected_state (err e, d) = refl

module _ {Db : Type 0} (projects : Table Db Project key Fills) where
  open projects use {rows}

  rename_out-others :
      (id user_id : ℕ) (name : String) (d : Db) (out : Result DbError ℕ × Db)
      → Updates rows (owned id user_id) (set_name name) d out
      → projects_of_others user_id (rows out.1) ≡ projects_of_others user_id (rows d)
  rename_out-others id user_id name d (ok n, d') u =
      rw u.0 (renamed-others id user_id name (rows d))
  rename_out-others id user_id name d (err e, d') u = rw u refl

  delete_out-others :
      (id user_id : ℕ) (d : Db) (out : Result DbError ℕ × Db)
      → Deletes rows (owned id user_id) d out
      → projects_of_others user_id (rows out.1) ≡ projects_of_others user_id (rows d)
  delete_out-others id user_id d (ok n, d') u = rw u.0 (kept-others id user_id (rows d))
  delete_out-others id user_id d (err e, d') u = rw u refl

  -- Renaming and deleting a project leave the projects of all other users as they are.
  pub projects-others :
      (id user_id : ℕ) (name : String) (d : Db)
      → (projects_of_others user_id (rows (Project.rename projects id user_id name d).1)
          ≡ projects_of_others user_id (rows d))
        × (projects_of_others user_id (rows (Project.delete projects id user_id d).1)
            ≡ projects_of_others user_id (rows d))
  unfolding Project.rename Project.delete
  projects-others id user_id name d = (
    rw affected_state (
        rename_out-others id user_id name d (projects.update (owned id user_id) (set_name name) d)
          (projects.update_law _ _ d)),
    rw affected_state (
        delete_out-others id user_id d (projects.delete (owned id user_id) d)
          (projects.delete_law _ d)),
  )

  delete_absent :
      (id user_id : ℕ) (d : Db) (out : Result DbError ℕ × Db)
      → Deletes rows (owned id user_id) d out
      → (affected out).0 ≡ err project_not_found
      → count (owned id user_id) (rows d) ≡ 0
  delete_absent id user_id d (ok zero, d') u e = ground arith
  delete_absent id user_id d (ok (suc n), d') u e = cc
  delete_absent id user_id d (err x, d') u e = cc

  -- A deletion says that there is no such project only if the user has none of this id.
  pub delete-absent :
      (id user_id : ℕ) (d : Db)
      → (Project.delete projects id user_id d).0 ≡ err project_not_found
      → count (owned id user_id) (rows d) ≡ 0
  unfolding Project.delete
  delete-absent id user_id d e = delete_absent id user_id d _ (projects.delete_law _ d) e
