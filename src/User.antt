-- ===== src/User.antt =====
-- internal/user/user.go: the users and their repository. `UpdatedAt` is left out, as in the
-- records. The column `email` is CITEXT: Postgres compares it, by `same_email`.
use shadraw.Base.{ℕ, zero, suc, String, ◌≡◌, Bool, Result, ok, err, ltb, ◌==◌}
use shadraw.Table.{DbError, record_not_found, fault, Table}

pub data Role : Type 0 where
  admin user : Role

pub record User : Type 0 where
  pub id : ℕ
  pub email : String
  pub password_hash : String
  pub display_name : String
  pub role : Role
  pub disabled : Bool
  pub must_change_password : Bool
  pub created_at : ℕ

abbrev pub key : User → ℕ
key u = u.id

-- What an insert stores: the columns that `Create` selects, and the defaults of the migration.
abbrev pub Fills : User → User → Type 0
Fills given u = u ≡ record given { id = u.id; created_at = u.created_at }

pub data Error : Type 0 where
  not_found : Error
  database : DbError → Error

abbrev pub by_id : ℕ → User → Bool
by_id id u = u.id == id

abbrev pub set_password : String → Bool → User → User
set_password hash must_change u = record u {
  password_hash = hash;
  must_change_password = must_change;
}

abbrev pub from_take : {A : Type 0} → Result DbError A → Result Error A
from_take (ok u) = ok u
from_take (err record_not_found) = err not_found
from_take (err (fault text)) = err (database (fault text))

abbrev pub affected : {Db : Type 0} → Result DbError ℕ × Db → Result Error Unit × Db
affected (ok zero, d) = (err not_found, d)
affected (ok (suc _), d) = (ok tt, d)
affected (err e, d) = (err (database e), d)

abbrev pub no_error : {Db : Type 0} → Result DbError ℕ × Db → Result Error Unit × Db
no_error (ok _, d) = (ok tt, d)
no_error (err e, d) = (err (database e), d)

abbrev pub lift : {A Db : Type 0} → Result DbError A × Db → Result Error A × Db
lift (ok a, d) = (ok a, d)
lift (err e, d) = (err (database e), d)

-- `n > 0`, with the error of the count.
abbrev pub positive : Result DbError ℕ → Result Error Bool
positive (ok n) = ok (ltb 0 n)
positive (err e) = err (database e)

module _ {Db : Type 0} (users : Table Db User key Fills) where
  unfoldable pub find_by_email : (String → String → Bool) → String → Db → Result Error User
  find_by_email same_email email d = from_take (users.take (λ u. same_email u.email email) d)

  unfoldable pub find_by_id : ℕ → Db → Result Error User
  find_by_id id d = from_take (users.take (by_id id) d)

  -- `Create` writes the stored id back into its argument.
  unfoldable pub create : User → Db → Result Error User × Db
  create u d = lift (users.create u d)

  unfoldable pub update_password : ℕ → String → Bool → Db → Result Error Unit × Db
  update_password id hash must_change d =
      no_error (users.update (by_id id) (set_password hash must_change) d)

  unfoldable pub set_role : ℕ → Role → Db → Result Error Unit × Db
  set_role id role d = no_error (users.update (by_id id) (λ u. record u { role = role }) d)

  unfoldable pub set_disabled : ℕ → Bool → Db → Result Error Unit × Db
  set_disabled id disabled d =
      affected (users.update (by_id id) (λ u. record u { disabled = disabled }) d)

  unfoldable pub email_exists : (String → String → Bool) → String → Db → Result Error Bool
  email_exists same_email email d = positive (users.tally (λ u. same_email u.email email) d)
