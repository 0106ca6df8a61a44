-- ===== src/Project.antt =====
-- internal/record/project_repo.go: the projects of the users. `List` stands in Handler. What is left
-- out is the foreign key of the records, which the database clears.
mod Ownership
mod Handler
mod Tests
use shadraw.Base.{ℕ, zero, suc, String, ◌≡◌, Bool, ◌&&◌, Result, ok, err, ◌==◌, if◌then◌else◌}
use shadraw.Table.{DbError, record_not_found, fault, Table}

pub record Project : Type 0 where
  pub id : ℕ
  pub user_id : ℕ
  pub name : String
  pub created_at : ℕ

abbrev pub key : Project → ℕ
key p = p.id

-- `Create` selects the owner and the name.
abbrev pub Fills : Project → Project → Type 0
Fills given p = p ≡ record given { id = p.id; created_at = p.created_at }

pub data Error : Type 0 where
  project_not_found : Error
  database : DbError → Error

abbrev pub owned : ℕ → ℕ → Project → Bool
owned id user_id p = p.id == id && p.user_id == user_id

abbrev pub set_name : String → Project → Project
set_name name p = record p { name = name }

abbrev pub from_take : Result DbError Project → Result Error Project
from_take (ok p) = ok p
from_take (err record_not_found) = err project_not_found
from_take (err (fault text)) = err (database (fault text))

-- `RowsAffected == 0` becomes `ErrProjectNotFound`.
abbrev pub affected : {Db : Type 0} → Result DbError ℕ × Db → Result Error Unit × Db
affected (ok zero, d) = (err project_not_found, d)
affected (ok (suc _), d) = (ok tt, d)
affected (err e, d) = (err (database e), d)

abbrev pub lift : {Db : Type 0} → Result DbError Project × Db → Result Error Project × Db
lift (ok p, d) = (ok p, d)
lift (err e, d) = (err (database e), d)

module _ {Db : Type 0} (projects : Table Db Project key Fills) where
  unfoldable pub create : Project → Db → Result Error Project × Db
  create p d = lift (projects.create p d)

  unfoldable pub find_by_id : ℕ → ℕ → Db → Result Error Project
  find_by_id id user_id d = from_take (projects.take (owned id user_id) d)

  unfoldable pub rename : ℕ → ℕ → String → Db → Result Error Unit × Db
  rename id user_id name d = affected (projects.update (owned id user_id) (set_name name) d)

  unfoldable pub delete : ℕ → ℕ → Db → Result Error Unit × Db
  delete id user_id d = affected (projects.delete (owned id user_id) d)
