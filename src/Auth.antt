-- ===== src/Auth.antt =====
-- internal/auth: dto.go, jwt.go, password.go, refresh_repo.go and service.go. bcrypt and the JWT
-- library are parameters; sha256 is one too, since no property rests on its values. A call gets
-- from its environment the readings of the clock, in seconds, and what the random source gave.
pub mod Service
pub mod Guard
pub mod Handler
use shadraw.Base.{
  ℕ, ◌+◌, ◌*◌, String, ◌≡◌, Bool, true, false, Option, none, some, Result, ok, err, ◌==◌, str_eq,
  ◌&&◌, not, if◌then◌else◌,
}
use shadraw.Table.{DbError, record_not_found, fault, Table}
use shadraw.User
use shadraw.User.{User, Role}
use shadraw.Record.Dto.{Format}

abbrev pub access_ttl : ℕ
access_ttl = 15 * 60

abbrev pub refresh_ttl : ℕ
refresh_ttl = 7 * 24 * 60 * 60

pub record RegisterReq : Type 0 where
  pub email : String
  pub password : String
  pub display_name : String

pub record LoginReq : Type 0 where
  pub email : String
  pub password : String

pub record TokenPair : Type 0 where
  pub access_token : String
  pub refresh_token : String
  pub expires_in : ℕ

-- What a reply shows of an account, and `ToUserDTO` of service.go.
pub record UserDto : Type 0 where
  pub id : String
  pub email : String
  pub display_name : String
  pub role : String
  pub must_change_password : Bool
  pub created_at : String

abbrev pub role_text : Role → String
role_text Role.admin = "admin"
role_text Role.user = "user"

abbrev pub to_user_dto : Format → User → UserDto
to_user_dto format u = record {
  id = format.decimal u.id;
  email = u.email;
  display_name = u.display_name;
  role = role_text u.role;
  must_change_password = u.must_change_password;
  created_at = format.time u.created_at;
}

pub record AuthResponse : Type 0 where
  pub user : UserDto
  pub tokens : TokenPair

pub data Error : Type 0 where
  email_taken invalid_credentials user_disabled : Error
  refresh_invalid refresh_expired refresh_revoked refresh_not_found : Error
  password_mismatch : Error
  user_error : User.Error → Error
  database : DbError → Error
  -- An error of bcrypt, of the JWT library or of the random source.
  foreign : String → Error

-- Only the sha256 of the token is stored.
pub record RefreshToken : Type 0 where
  pub id : ℕ
  pub user_id : ℕ
  pub token_hash : String
  pub expires_at : ℕ
  pub revoked : Bool

abbrev pub key : RefreshToken → ℕ
key t = t.id

abbrev pub Fills : RefreshToken → RefreshToken → Type 0
Fills given t = t ≡ record given { id = t.id }

abbrev pub by_hash : String → RefreshToken → Bool
by_hash hash t = str_eq t.token_hash hash

abbrev pub by_id : ℕ → RefreshToken → Bool
by_id id t = t.id == id

abbrev pub active_of : ℕ → RefreshToken → Bool
active_of user_id t = t.user_id == user_id && not t.revoked

abbrev pub set_revoked : RefreshToken → RefreshToken
set_revoked t = record t { revoked = true }

pub record Claims : Type 0 where
  pub user_id : ℕ
  pub role : Role
  pub issued_at : ℕ
  -- Absent where the token has no such claim.
  pub expires_at : Option ℕ
  pub not_before : ℕ
  pub jwt_id : String

-- What bcrypt says of a hash and a password.
pub data Compared : Type 0 where
  matches mismatched : Compared
  broken : String → Compared

-- The libraries that the service calls.
pub record Libraries : Type 0 where
  -- `bcrypt.GenerateFromPassword` at the code's cost, with its random salt.
  pub generate : String → String → Result String String
  pub compare : String → String → Compared
  pub sign : Claims → Result String String
  pub sha256_hex : String → String
  pub same_email : String → String → Bool
  -- `strconv.FormatInt` and `Time.Format`.
  pub format : Format
  -- A password matches a hash that was made from it.
  pub compare_generate :
      (salt plain hash : String) → generate salt plain ≡ ok hash → compare hash plain ≡ matches

-- What one call draws from outside.
pub record Env : Type 0 where
  pub now : ℕ
  -- The clock once more, when tokens are issued.
  pub issued : ℕ
  pub salt : String
  pub jwt_id : String
  -- 32 random bytes in base64, or the error of the random source.
  pub random_token : Result String String
  -- 12 random bytes in base64.
  pub random_password : Result String String

abbrev pub from_foreign : {A : Type 0} → Result String A → Result Error A
from_foreign (ok a) = ok a
from_foreign (err text) = err (foreign text)

abbrev pub from_user : {A : Type 0} → Result User.Error A → Result Error A
from_user (ok a) = ok a
from_user (err e) = err (user_error e)

abbrev pub lift_user : {A Db : Type 0} → Result User.Error A × Db → Result Error A × Db
lift_user (r, d) = (from_user r, d)

abbrev pub lift : {A Db : Type 0} → Result DbError A × Db → Result Error A × Db
lift (ok a, d) = (ok a, d)
lift (err e, d) = (err (database e), d)

abbrev pub no_error : {Db : Type 0} → Result DbError ℕ × Db → Result Error Unit × Db
no_error (ok _, d) = (ok tt, d)
no_error (err e, d) = (err (database e), d)

abbrev pub from_take : {A : Type 0} → Result DbError A → Result Error A
from_take (ok t) = ok t
from_take (err record_not_found) = err refresh_not_found
from_take (err (fault text)) = err (database (fault text))

abbrev pub verdict : Compared → Result Error Unit
verdict matches = ok tt
verdict mismatched = err password_mismatch
verdict (broken text) = err (foreign text)

abbrev pub access_claims : ℕ → Role → ℕ → String → Claims
access_claims user_id role now jwt_id = record {
  user_id = user_id;
  role = role;
  issued_at = now;
  expires_at = some (now + access_ttl);
  not_before = now;
  jwt_id = jwt_id;
}

module _ (lib : Libraries) where
  unfoldable pub hash_password : String → String → Result Error String
  hash_password salt plain = from_foreign (lib.generate salt plain)

  unfoldable pub verify_password : String → String → Result Error Unit
  verify_password hash plain = verdict (lib.compare hash plain)

  unfoldable pub hash_refresh_token : String → String
  hash_refresh_token raw = lib.sha256_hex raw

  unfoldable pub sign_access_token : ℕ → Role → ℕ → String → Result Error String
  sign_access_token user_id role now jwt_id =
      from_foreign (lib.sign (access_claims user_id role now jwt_id))

module _ {Db : Type 0} (tokens : Table Db RefreshToken key Fills) where
  unfoldable pub create : RefreshToken → Db → Result Error RefreshToken × Db
  create t d = lift (tokens.create t d)

  unfoldable pub find_by_hash : String → Db → Result Error RefreshToken
  find_by_hash hash d = from_take (tokens.take (by_hash hash) d)

  unfoldable pub revoke : ℕ → Db → Result Error Unit × Db
  revoke id d = no_error (tokens.update (by_id id) set_revoked d)

  unfoldable pub revoke_all_for_user : ℕ → Db → Result Error Unit × Db
  revoke_all_for_user user_id d = no_error (tokens.update (active_of user_id) set_revoked d)
