-- ===== src/Auth/Guard/Passing.antt =====
-- Who passes the middlewares.
use shadraw.Base.{
  ℕ, ◌≤◌, String, ◌≡◌, refl, sym, ap, ◌∙◌, true, false, Option, none, some, inl, inr, Result, ok,
  err, arith, str_eq, Elem, Bool-cases,
}
use shadraw.Table.{Table}
use shadraw.User
use shadraw.User.{User, Role}
use shadraw.Auth.{Claims}
use shadraw.Auth.Guard
use shadraw.Auth.Guard.{
  Parsing, Identity, Reply, fails, passes, bearer_token, with_user, require_auth, require_admin,
}
use shadraw.Auth.Service.Passwords.{found_user}

admin_role : (r : Role) → Guard.is_admin r ≡ true → r ≡ Role.admin
admin_role Role.admin h = refl
admin_role Role.user h = cc

admin_passes :
    (out : Reply) {who : Identity}
    → require_admin out ≡ passes who
    → (out ≡ passes who) × (who.role ≡ Role.admin)
unfolding require_admin
admin_passes (fails status code) h = cc
admin_passes (passes other) {who} h = elim (Bool-cases (Guard.is_admin other.role)) [
  | inl e ↦ let same : other ≡ who = cc (rw e at h) in rw (← same) (refl, admin_role other.role e)
  | inr e ↦ absurd (cc (rw e at h))
]

in_time :
    (now : ℕ) (expires_at : Option ℕ)
    → Guard.is_late now expires_at ≡ false
    → (until : ℕ) → expires_at ≡ some until
    → now ≤ until
in_time now none h until e = cc
in_time now (some late) h until e = let same : late ≡ until = cc in rw (← same) (ground arith)

module _ {Db : Type 0} (parsing : Parsing) (users : Table Db User User.key User.Fills) where
  -- What a request that passes has shown, and whose identity it has.
  pub record Authorized (now : ℕ) (header : String) (d : Db) (who : Identity) : Type 0 where
    pub claims : Claims
    pub parsed : parsing.parse (bearer_token parsing header) ≡ ok claims
    pub unexpired : (until : ℕ) → claims.expires_at ≡ some until → now ≤ until
    pub account : User
    pub listed : Elem account (users.rows d)
    pub named : account.id ≡ claims.user_id
    pub enabled : account.disabled ≡ false
    pub identity : who ≡ record { user_id = account.id; role = account.role }

  with_user-passes :
      (found : Result User.Error User) {who : Identity}
      → with_user found ≡ passes who
      → (u : User) × (found ≡ ok u)
        × (u.disabled ≡ false)
        × (who ≡ record { user_id = u.id; role = u.role })
  with_user-passes (err User.not_found) e = cc
  with_user-passes (err (User.database x)) e = cc
  with_user-passes (ok u) {who} e = elim (Bool-cases u.disabled) [
    | inl off ↦ absurd (cc (rw off at e))
    | inr on ↦ (u, refl, on, cc (rw on at e))
  ]

  claims-Authorized :
      (now : ℕ) (header : String) (d : Db) (out : Result String Claims) {who : Identity}
      → parsing.parse (bearer_token parsing header) ≡ out
      → Guard.with_claims parsing users now d out ≡ passes who
      → Authorized now header d who
  unfolding Guard.with_claims
  claims-Authorized now header d (err text) p e = cc
  claims-Authorized now header d (ok claims) p e =
      elim (Bool-cases (Guard.is_late now claims.expires_at)) [
        | inl late ↦ absurd (cc (rw late at e))
        | inr fresh ↦
            let (u, found, on, same) =
              with_user-passes (User.find_by_id users claims.user_id d) (rw fresh at e) in
            let (m, named) = found_user claims.user_id users d found in
            record {
              claims = claims;
              parsed = p;
              unexpired = in_time now claims.expires_at fresh;
              account = u;
              listed = m;
              named = named;
              enabled = on;
              identity = same;
            }
      ]

  -- A request passes only with a token that the JWT library accepts and that has not expired,
  -- if it says when it does, of a
  -- stored account that is enabled; its identity and its role are those of the stored account.
  pub require_auth-Authorized :
      (now : ℕ) (header : String) (d : Db) {who : Identity}
      → require_auth parsing users now header d ≡ passes who
      → Authorized now header d who
  unfolding require_auth
  require_auth-Authorized now header d e =
      elim (Bool-cases (str_eq (bearer_token parsing header) "")) [
        | inl empty ↦ absurd (cc (rw empty at e))
        | inr full ↦ claims-Authorized now header d _ refl (rw full at e)
      ]

  -- Past the second middleware comes only an account that is stored as an administrator, whatever
  -- role its token claims.
  pub require_admin-stored :
      (now : ℕ) (header : String) (d : Db) {who : Identity}
      → require_admin (require_auth parsing users now header d) ≡ passes who
      → (u : User) × Elem u (users.rows d)
        × (u.id ≡ who.user_id)
        × (u.role ≡ Role.admin)
        × (u.disabled ≡ false)
  require_admin-stored now header d {who} e =
      let (passed, role) = admin_passes (require_auth parsing users now header d) e in
      let a = require_auth-Authorized now header d passed in
      (
        a.account,
        a.listed,
        sym (ap (λ w. w.user_id) a.identity),
        sym (ap (λ w. w.role) a.identity) ∙ role,
        a.enabled,
      )
