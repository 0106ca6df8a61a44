-- ===== src/Auth/Service/Login.antt =====
-- Registration and login: who gets tokens, and what the refusals say.
use shadraw.Base.{
  String, ◌≡◌, refl, sym, ap, Bool, true, false, [], ◌∷◌, ◌++◌, Result, ok, err, step_then, pure-ok,
  whole, ◌>>=◌, Elem, count,
}
use shadraw.Table.{DbError, record_not_found, fault, Table, Takes}
use shadraw.User
use shadraw.User.{User, Role}
use shadraw.Auth
use shadraw.Auth.{
  RegisterReq, LoginReq, TokenPair, AuthResponse, RefreshToken, Libraries, Env, Compared, matches,
  mismatched, verify_password, invalid_credentials, email_taken, user_disabled, verdict,
  password_mismatch, to_user_dto, user_error, from_foreign,
}
use shadraw.Auth.Service
use shadraw.Auth.Service.Tokens.{Issued, issue_tokens-Issued}

verdict-ok : (c : Compared) {a : Unit} → Service.mismatch_error (verdict c) ≡ ok a → c ≡ matches
unfolding Service.mismatch_error
verdict-ok matches e = refl
verdict-ok mismatched e = cc
verdict-ok (Compared.broken t) e = cc

pub password_checked :
    (lib : Libraries) (hash plain : String) {a : Unit}
    → Service.mismatch_error (verify_password lib hash plain) ≡ ok a
    → lib.compare hash plain ≡ matches
unfolding verify_password
password_checked lib hash plain e = verdict-ok (lib.compare hash plain) e

pub user_taken :
    (p : User → Bool) {Db : Type 0} (users : Table Db User User.key User.Fills) (d : Db)
    (out : Result DbError User) {u : User}
    → Takes users.rows p d out
    → User.from_take out ≡ ok u
    → Elem u (users.rows d) × (p u ≡ true)
user_taken p users d (ok x) {u} t e = let same : x ≡ u = cc in rw (← same) t
user_taken p users d (err record_not_found) t e = cc
user_taken p users d (err (fault text)) t e = cc

module _ {Db : Type 0} (lib : Libraries) (users : Table Db User User.key User.Fills)
    (tokens : Table Db RefreshToken Auth.key Auth.Fills) where
  pub find_by_email-found :
      (email : String) (d : Db) {u : User}
      → User.find_by_email users lib.same_email email d ≡ ok u
      → Elem u (users.rows d) × (lib.same_email u.email email ≡ true)
  unfolding User.find_by_email
  find_by_email-found email d e =
      user_taken (λ u. lib.same_email u.email email) users d _ (users.take_law _ d) e

  pub issue_auth_response-Issued :
      (env : Env) (u : User) (d : Db) {resp : AuthResponse} {d' : Db}
      → Service.issue_auth_response lib users tokens env u d ≡ (ok resp, d')
      → (resp.user ≡ to_user_dto lib.format u) × Issued lib users tokens env u resp.tokens d d'
  unfolding Service.issue_auth_response
  issue_auth_response-Issued env u d {resp} {d'} e = step_then _ _ d e (λ pair e₁ rest₁.
      let (same, state) = pure-ok rest₁ in
      (
        sym (ap (λ r. r.user) same),
        rw (← same) (issue_tokens-Issued lib users tokens env u d (whole _ e₁ state)),
      ))

  -- What a login has checked and done.
  pub record LoggedIn (env : Env) (req : LoginReq) (resp : AuthResponse) (d d' : Db) : Type 0 where
    pub account : User
    pub listed : Elem account (users.rows d)
    pub named : lib.same_email account.email req.email ≡ true
    pub enabled : account.disabled ≡ false
    pub proved : lib.compare account.password_hash req.password ≡ matches
    pub issued : Issued lib users tokens env account resp.tokens d d'
    pub shown : resp.user ≡ to_user_dto lib.format account

  -- An email without an account and a wrong password are refused in the same words, a disabled
  -- account in others, and a refusal writes nothing.
  pub login_refused :
      (env : Env) (req : LoginReq) (d : Db)
      → ((User.find_by_email users lib.same_email req.email d ≡ err User.not_found)
          → Service.login lib users tokens env req d ≡ (err invalid_credentials, d))
        × ((u : User)
            → User.find_by_email users lib.same_email req.email d ≡ ok u
            → (u.disabled ≡ true
                → Service.login lib users tokens env req d ≡ (err user_disabled, d))
              × (u.disabled ≡ false
                  → lib.compare u.password_hash req.password ≡ mismatched
                  → Service.login lib users tokens env req d ≡ (err invalid_credentials, d)))
  unfolding Service.login Service.credentials_error Service.mismatch_error verify_password ◌>>=◌
  login_refused env req d =
      ((λ e. rw e), (λ u e. ((λ off. rw (e, off)), (λ on wrong. rw (e, on, wrong)))))

  -- An email that is taken registers nothing; a registration stores a user of the role `user`,
  -- not disabled, and issues tokens to it.
  pub record Registered (env : Env) (req : RegisterReq) (resp : AuthResponse) (d d' : Db)
      : Type 0 where
    pub hash : String
    pub hashed : lib.generate env.salt req.password ≡ ok hash
    pub middle : Db
    pub account : User
    pub added : users.rows middle ≡ users.rows d ++ account ∷ []
    pub free : count (λ u. lib.same_email u.email req.email) (users.rows d) ≡ 0
    pub email : account.email ≡ req.email
    pub secret : account.password_hash ≡ hash
    pub role : account.role ≡ Role.user
    pub enabled : account.disabled ≡ false
    pub issued : Issued lib users tokens env account resp.tokens middle d'
    pub shown : resp.user ≡ to_user_dto lib.format account
