-- ===== src/Auth/Service.antt =====
-- internal/auth/service.go: registration, login, the rotation of refresh tokens and the life of a
-- password, over the tables of users and of refresh tokens.
pub mod Tokens
pub mod Rotation
pub mod Races
pub mod Login
pub mod Passwords
mod Tests
use shadraw.Base.{
  ℕ, ◌+◌, String, Bool, true, false, Result, ok, err, ltb, Action, pure, raise, query, from_result,
  raise_if, ◌>>=◌, ◌>>◌,
}
use shadraw.Table.{DbError, Table}
use shadraw.User
use shadraw.User.{User, Role}
use shadraw.Auth
use shadraw.Auth.{
  RegisterReq, LoginReq, TokenPair, AuthResponse, Error, RefreshToken, Libraries, Env, email_taken,
  invalid_credentials, user_disabled, refresh_invalid, refresh_expired, refresh_revoked,
  refresh_not_found, password_mismatch, user_error, access_ttl, refresh_ttl, hash_password,
  verify_password, hash_refresh_token, sign_access_token, from_foreign, from_user, lift_user,
  to_user_dto,
}

-- `errors.Is(err, user.ErrNotFound)` is an answer of its own.
unfoldable pub credentials_error : {A : Type 0} → Result User.Error A → Result Error A
credentials_error (ok u) = ok u
credentials_error (err User.not_found) = err invalid_credentials
credentials_error (err (User.database e)) = err (user_error (User.database e))

unfoldable pub mismatch_error : Result Error Unit → Result Error Unit
mismatch_error (err password_mismatch) = err invalid_credentials
mismatch_error r = r

unfoldable pub missing_error : {A : Type 0} → Result Error A → Result Error A
missing_error (err refresh_not_found) = err refresh_invalid
missing_error r = r

abbrev pub new_token : Libraries → Env → User → String → RefreshToken
new_token lib env u raw = record {
  id = 0;
  user_id = u.id;
  token_hash = hash_refresh_token lib raw;
  expires_at = env.issued + refresh_ttl;
  revoked = false;
}

-- The account that a registration asks for, with the password's hash.
abbrev pub new_user : String → RegisterReq → User
new_user hash req = record {
  id = 0;
  email = req.email;
  password_hash = hash;
  display_name = req.display_name;
  role = Role.user;
  disabled = false;
  must_change_password = false;
  created_at = 0;
}

module _ {Db : Type 0} (lib : Libraries) (users : Table Db User User.key User.Fills)
    (tokens : Table Db RefreshToken Auth.key Auth.Fills) where
  unfoldable pub issue_tokens : Env → User → Action Db Error TokenPair
  issue_tokens env u = do
    access ← from_result (sign_access_token lib u.id u.role env.issued env.jwt_id)
    raw ← from_result (from_foreign env.random_token)
    _ ← Auth.create tokens (new_token lib env u raw)
    pure (record { access_token = access; refresh_token = raw; expires_in = access_ttl })

  unfoldable pub issue_auth_response : Env → User → Action Db Error AuthResponse
  issue_auth_response env u = do
    pair ← issue_tokens env u
    pure (record { user = to_user_dto lib.format u; tokens = pair })

  unfoldable pub register : Env → RegisterReq → Action Db Error AuthResponse
  register env req = do
    exists ← query (λ d. from_user (User.email_exists users lib.same_email req.email d))
    raise_if exists email_taken
    hash ← from_result (hash_password lib env.salt req.password)
    u ← (λ d. lift_user (User.create users (new_user hash req) d))
    issue_auth_response env u

  unfoldable pub login : Env → LoginReq → Action Db Error AuthResponse
  login env req = do
    u ← query (λ d. credentials_error (User.find_by_email users lib.same_email req.email d))
    raise_if u.disabled user_disabled
    from_result (mismatch_error (verify_password lib u.password_hash req.password))
    issue_auth_response env u

  -- What an exchange reads before it writes.
  unfoldable pub refresh_checked : Env → String → Action Db Error (RefreshToken × User)
  refresh_checked env raw = do
    row ← query (λ d. missing_error (Auth.find_by_hash tokens (hash_refresh_token lib raw) d))
    raise_if row.revoked refresh_revoked
    raise_if (ltb row.expires_at env.now) refresh_expired
    u ← query (λ d. from_user (User.find_by_id users row.user_id d))
    raise_if u.disabled user_disabled
    pure (row, u)

  unfoldable pub refresh_issued : Env → RefreshToken → User → Action Db Error TokenPair
  refresh_issued env row u = do Auth.revoke tokens row.id; issue_tokens env u

  -- Other requests may run between the two.
  unfoldable pub refresh : Env → String → Action Db Error TokenPair
  refresh env raw = do found ← refresh_checked env raw; refresh_issued env found.0 found.1

  -- An unknown token is no error.
  unfoldable pub logout_found : Result Error RefreshToken → Action Db Error Unit
  logout_found (ok row) d = Auth.revoke tokens row.id d
  logout_found (err refresh_not_found) d = (ok tt, d)
  logout_found (err e) d = (err e, d)

  unfoldable pub logout : String → Action Db Error Unit
  unfolding logout_found
  logout raw d = logout_found (Auth.find_by_hash tokens (hash_refresh_token lib raw) d) d

  unfoldable pub me : ℕ → Db → Result User.Error User
  me user_id d = User.find_by_id users user_id d

  unfoldable pub change_password : Env → ℕ → String → String → Action Db Error Unit
  change_password env user_id old_pw new_pw = do
    u ← query (λ d. from_user (User.find_by_id users user_id d))
    from_result (mismatch_error (verify_password lib u.password_hash old_pw))
    hash ← from_result (hash_password lib env.salt new_pw)
    (λ d. lift_user (User.update_password users user_id hash false d))
    Auth.revoke_all_for_user tokens user_id

  unfoldable pub reset_password_by_admin : Env → ℕ → Action Db Error String
  reset_password_by_admin env user_id = do
    _ ← query (λ d. from_user (User.find_by_id users user_id d))
    temp ← from_result (from_foreign env.random_password)
    hash ← from_result (hash_password lib env.salt temp)
    (λ d. lift_user (User.update_password users user_id hash true d))
    Auth.revoke_all_for_user tokens user_id
    pure temp
