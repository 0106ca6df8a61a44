-- ===== src/Auth/Guard.antt =====
-- internal/auth/middleware.go and internal/admin/middleware.go: what the middlewares let through,
-- over the store of users. The JWT library, `strings.EqualFold` and `strings.TrimSpace` are
-- parameters; the context of gin is the identity that `SetAuth` stores.
pub mod Passing
mod Tests
use Prim.Native.String.{slice, len}
use shadraw.Base.{
  ℕ, String, Bool, true, false, Option, none, some, Result, ok, err, ltb, str_eq, if◌then◌else◌,
}
use shadraw.Table.{Table}
use shadraw.User
use shadraw.User.{User, Role}
use shadraw.Auth.{Claims}

pub record Parsing : Type 0 where
  -- `ParseAccessToken` with the server's secret.
  pub parse : String → Result String Claims
  pub equal_fold : String → String → Bool
  pub trim : String → String

pub record Identity : Type 0 where
  pub user_id : ℕ
  pub role : Role

-- An error reply, which ends the chain, or the next handler with an identity.
pub data Reply : Type 0 where
  fails : ℕ → String → Reply
  passes : Identity → Reply

unfoldable pub bearer_token : Parsing → String → String
bearer_token parsing h =
    if ltb (len "Bearer ") (len h)
    then (if parsing.equal_fold (slice h 0 (len "Bearer ")) "Bearer "
        then parsing.trim (slice h (len "Bearer ") (len h))
        else "")
    else ""

-- A claim that is missing does not expire.
abbrev pub is_late : ℕ → Option ℕ → Bool
is_late now none = false
is_late now (some until) = ltb until now

abbrev pub with_user : Result User.Error User → Reply
with_user (err User.not_found) = fails 401 "unauthorized"
with_user (err (User.database e)) = fails 500 "internal_error"
with_user (ok u) =
    if u.disabled
    then fails 403 "account_disabled"
    else passes (record { user_id = u.id; role = u.role })

module _ {Db : Type 0} (parsing : Parsing) (users : Table Db User User.key User.Fills) where
  unfoldable pub with_claims : ℕ → Db → Result String Claims → Reply
  with_claims now d (err text) = fails 401 "unauthorized"
  with_claims now d (ok claims) =
      if is_late now claims.expires_at
      then fails 401 "unauthorized"
      else with_user (User.find_by_id users claims.user_id d)

  unfoldable pub require_auth : ℕ → String → Db → Reply
  unfolding with_claims bearer_token
  require_auth now header d =
      let token = bearer_token parsing header in
      if str_eq token "" then fails 401 "unauthorized" else with_claims now d (parsing.parse token)

abbrev pub is_admin : Role → Bool
is_admin Role.admin = true
is_admin Role.user = false

-- Mounted after `RequireAuth`.
unfoldable pub require_admin : Reply → Reply
require_admin (fails status code) = fails status code
require_admin (passes who) = if is_admin who.role then passes who else fails 403 "forbidden"
