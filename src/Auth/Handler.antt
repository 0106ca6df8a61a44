-- ===== src/Auth/Handler.antt =====
-- internal/auth/handler.go: the handlers of the sessions. The body, bound, and what
-- `ParseInt` gives for the subject of the token are arguments; a subject is not negative.
pub mod Refusals
use shadraw.Base.{
  ℕ, ℤ, pos, negsuc, String, Bool, Option, none, some, Result, ok, err, Action, pure, query,
  from_result, ◌>>=◌,
}
use shadraw.Table.{Table}
use shadraw.Httpx.Reply.{
  Failure, Reply, fail, internal_error, reply_ok, created, code_conflict, code_unauthorized,
  code_account_disabled, answering,
}
use shadraw.User
use shadraw.User.{User}
use shadraw.Record.Dto.{Format}
use shadraw.Auth
use shadraw.Auth.{
  UserDto, to_user_dto, RegisterReq, LoginReq, TokenPair, AuthResponse, Error, RefreshToken,
  Libraries, Env, email_taken, invalid_credentials, user_disabled, refresh_invalid, refresh_expired,
  refresh_revoked,
}
use shadraw.Auth.Service

pub record ChangePasswordReq : Type 0 where
  pub old_password : String
  pub new_password : String

-- How each handler answers an error of the service.
abbrev pub register_failure : Error → Failure
register_failure email_taken = fail 409 code_conflict "邮箱已被注册"
register_failure _ = internal_error

abbrev pub disabled_account : Failure
disabled_account = fail 403 code_account_disabled "账号已禁用"

abbrev pub login_failure : Error → Failure
login_failure invalid_credentials = fail 401 code_unauthorized "邮箱或密码错误"
login_failure user_disabled = disabled_account
login_failure _ = internal_error

abbrev pub bad_token : Failure
bad_token = fail 401 code_unauthorized "refresh token 无效"

abbrev pub refresh_failure : Error → Failure
refresh_failure refresh_invalid = bad_token
refresh_failure refresh_expired = bad_token
refresh_failure refresh_revoked = bad_token
refresh_failure user_disabled = disabled_account
refresh_failure _ = internal_error

abbrev pub internal : Error → Failure
internal e = internal_error

abbrev pub me_failure : User.Error → Failure
me_failure User.not_found = fail 401 code_unauthorized "用户不存在"
me_failure (User.database e) = internal_error

abbrev pub change_failure : Error → Failure
change_failure invalid_credentials = fail 401 code_unauthorized "旧密码错误"
change_failure _ = internal_error

abbrev pub session_user : Option ℤ → Result Failure ℕ
session_user (some (pos n)) = ok n
session_user _ = err (fail 401 code_unauthorized "无效会话")

module _ {Db : Type 0} (lib : Libraries) (users : Table Db User User.key User.Fills)
    (tokens : Table Db RefreshToken Auth.key Auth.Fills) where
  unfoldable pub register_endpoint :
      Env → Result Failure RegisterReq → Action Db Failure (Reply AuthResponse)
  unfolding ◌>>=◌
  register_endpoint env body = from_result body >>= λ req.
      answering register_failure (Service.register lib users tokens env req) >>= λ resp.
      pure (created resp)

  unfoldable pub login_endpoint :
      Env → Result Failure LoginReq → Action Db Failure (Reply AuthResponse)
  unfolding ◌>>=◌
  login_endpoint env body = from_result body >>= λ req.
      answering login_failure (Service.login lib users tokens env req) >>= λ resp.
      pure (reply_ok resp)

  unfoldable pub refresh_endpoint :
      Env → Result Failure String → Action Db Failure (Reply TokenPair)
  unfolding ◌>>=◌
  refresh_endpoint env body = from_result body >>= λ raw.
      answering refresh_failure (Service.refresh lib users tokens env raw) >>= λ pair.
      pure (reply_ok pair)

  unfoldable pub logout_endpoint : Result Failure String → Action Db Failure (Reply Unit)
  unfolding ◌>>=◌
  logout_endpoint body = from_result body >>= λ raw.
      answering internal (Service.logout lib users tokens raw) >>= λ _. pure (reply_ok tt)

  unfoldable pub me_endpoint : Format → Option ℤ → Action Db Failure (Reply UserDto)
  unfolding ◌>>=◌
  me_endpoint format subject = from_result (session_user subject) >>= λ user_id.
      answering me_failure (query (Service.me lib users tokens user_id)) >>= λ u.
      pure (reply_ok (to_user_dto format u))

  unfoldable pub change_password_endpoint :
      Env → Result Failure ChangePasswordReq → Option ℤ → Action Db Failure (Reply Unit)
  unfolding ◌>>=◌
  change_password_endpoint env body subject = from_result body >>= λ req.
      from_result (session_user subject) >>= λ user_id.
      answering change_failure
        (Service.change_password lib users tokens env user_id req.old_password req.new_password)
      >>= λ _. pure (reply_ok tt)
