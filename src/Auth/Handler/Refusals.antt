-- ===== src/Auth/Handler/Refusals.antt =====
-- What a refused login and a refused exchange of a token tell.
use shadraw.Base.{String, ◌≡◌, refl, true, false, ok, err, ◌>>=◌, ltb}
use shadraw.Table.{Table}
use shadraw.Httpx.Reply.{Failure, fail, code_unauthorized}
use shadraw.User
use shadraw.User.{User}
use shadraw.Auth
use shadraw.Auth.{
  LoginReq, RefreshToken, Libraries, Env, mismatched, refresh_not_found, hash_refresh_token,
}
use shadraw.Auth.Service
use shadraw.Auth.Service.Login.{login_refused}
use shadraw.Auth.Handler.{disabled_account, bad_token, login_endpoint, refresh_endpoint}

abbrev pub wrong_credentials : Failure
wrong_credentials = fail 401 code_unauthorized "邮箱或密码错误"

module _ {Db : Type 0} (lib : Libraries) (users : Table Db User User.key User.Fills)
    (tokens : Table Db RefreshToken Auth.key Auth.Fills) (env : Env) where
  -- The reply to a login for an email without an account is the reply to one with a wrong password;
  -- a disabled account gets another, whatever the password is. None of them writes anything.
  pub login_endpoint_refused :
      (req : LoginReq) (d : Db)
      → ((User.find_by_email users lib.same_email req.email d ≡ err User.not_found)
          → login_endpoint lib users tokens env (ok req) d ≡ (err wrong_credentials, d))
        × ((u : User)
            → User.find_by_email users lib.same_email req.email d ≡ ok u
            → (u.disabled ≡ true
                → login_endpoint lib users tokens env (ok req) d ≡ (err disabled_account, d))
              × (u.disabled ≡ false
                  → lib.compare u.password_hash req.password ≡ mismatched
                  → login_endpoint lib users tokens env (ok req) d ≡ (err wrong_credentials, d)))
  unfolding login_endpoint ◌>>=◌
  login_endpoint_refused req d =
      let (unknown, known) = login_refused lib users tokens env req d in
      (
        (λ e. rw (unknown e) refl),
        (λ u e.
            let (off, wrong) = known u e in
            ((λ disabled. rw (off disabled) refl), (λ enabled bad. rw (wrong enabled bad) refl))),
      )

  -- An unknown token, a revoked one and an expired one are refused in the same words, and nothing is
  -- written.
  pub refresh_endpoint_refused :
      (raw : String) (d : Db)
      → ((Auth.find_by_hash tokens (hash_refresh_token lib raw) d ≡ err refresh_not_found)
          → refresh_endpoint lib users tokens env (ok raw) d ≡ (err bad_token, d))
        × ((row : RefreshToken)
            → Auth.find_by_hash tokens (hash_refresh_token lib raw) d ≡ ok row
            → (row.revoked ≡ true
                → refresh_endpoint lib users tokens env (ok raw) d ≡ (err bad_token, d))
              × (row.revoked ≡ false
                  → ltb row.expires_at env.now ≡ true
                  → refresh_endpoint lib users tokens env (ok raw) d ≡ (err bad_token, d)))
  unfolding refresh_endpoint Service.refresh Service.refresh_checked Service.missing_error ◌>>=◌
  refresh_endpoint_refused raw d = (
    (λ e. rw e refl),
    (λ row e. ((λ revoked. rw (e, revoked) refl), (λ valid expired. rw (e, valid, expired) refl))),
  )
