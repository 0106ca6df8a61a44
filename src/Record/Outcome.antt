-- ===== src/Record/Outcome.antt =====
-- The repository's readings of a statement's outcome leave the database as it is.
use shadraw.Base.{ℕ, zero, suc, ◌≡◌, refl, ok, err, Result}
use shadraw.Table.{DbError}
use shadraw.Record.{affected, lift, no_error}

module _ {Db : Type 0} where
  pub affected_state : (out : Result DbError ℕ × Db) → (affected out).1 ≡ out.1
  affected_state (ok zero, d) = refl
  affected_state (ok (suc n), d) = refl
  affected_state (err e, d) = refl

  pub no_error_state : {A : Type 0} (out : Result DbError A × Db) → (no_error out).1 ≡ out.1
  no_error_state (ok a, d) = refl
  no_error_state (err e, d) = refl

  pub lift_state : {A : Type 0} (out : Result DbError A × Db) → (lift out).1 ≡ out.1
  lift_state (ok a, d) = refl
  lift_state (err e, d) = refl
