-- ===== src/Auth/Service/Passwords.antt =====
-- Changing a password, resetting it and logging out: which tokens live on.
use shadraw.Base.{
  ℕ, String, ◌≡◌, refl, sym, ap, ◌∙◌, ◌≢◌, Bool, true, false, List, [], ◌∷◌, ◌++◌, Result, ok, err,
  eq_iff, if◌then◌else◌, arith, keep, ◌==◌, query_then, step_then, value_then, pure-ok, Elem, All,
  count, update_where, inl, inr, Bool-cases,
}
use shadraw.Table.{DbError, record_not_found, fault, Table, Takes, Updates, Separate}
use shadraw.Table.Rows.{All-elem, All-updated}
use shadraw.User
use shadraw.User.{User}
use shadraw.Auth
use shadraw.Auth.{
  TokenPair, Error, RefreshToken, Libraries, Env, Compared, matches, mismatched, active_of, by_hash,
  set_revoked, hash_refresh_token, hash_password, verify_password, from_user, lift_user,
  refresh_not_found, from_foreign,
}
use shadraw.Auth.Service
use shadraw.Auth.Service.Tokens.{
  from_foreign-ok, find_by_hash-found, revoke-rows, revoke_all_for_user-rows,
}
use shadraw.Auth.Service.Rotation.{
  from_user-ok, HasUniqueHashes, IsSpent, refresh-Rotated, revoked-IsSpent, spent_refused,
}
use shadraw.Auth.Service.Login.{password_checked, user_taken}

-- Every token of the user is revoked.
abbrev pub IsLoggedOut : ℕ → List RefreshToken → Type 0
IsLoggedOut user_id rows = All (λ t. t.user_id ≡ user_id → t.revoked ≡ true) rows

revoked_all :
    (user_id : ℕ) (t : RefreshToken)
    → (if active_of user_id t then set_revoked t else t).user_id ≡ user_id
    → (if active_of user_id t then set_revoked t else t).revoked ≡ true
revoked_all user_id t = go (active_of user_id t) refl
  where
    go :
        (b : Bool)
        → active_of user_id t ≡ b
        → (if b then set_revoked t else t).user_id ≡ user_id
        → (if b then set_revoked t else t).revoked ≡ true
    go true e h = refl
    go false e h = ground arith

module _ {Db : Type 0} (users : Table Db User User.key User.Fills)
    (tokens : Table Db RefreshToken Auth.key Auth.Fills) where
  open tokens use {rows}

  revoke_all-IsLoggedOut :
      (user_id : ℕ) (d : Db)
      → (Auth.revoke_all_for_user tokens user_id d).0 ≡ ok tt
      → IsLoggedOut user_id (rows (Auth.revoke_all_for_user tokens user_id d).1)
  revoke_all-IsLoggedOut user_id d e = rw (revoke_all_for_user-rows tokens user_id d e) (
      All-updated (λ t. t.user_id ≡ user_id → t.revoked ≡ true) (active_of user_id) set_revoked
        (rows d) (λ t m. revoked_all user_id t))

  updated_users :
      (id : ℕ) (hash : String) (must_change : Bool) (d : Db) (out : Result DbError ℕ × Db)
      → Updates users.rows (User.by_id id) (User.set_password hash must_change) d out
      → (lift_user (User.no_error out)).0 ≡ ok tt
      → users.rows (lift_user (User.no_error out)).1
        ≡ update_where (User.by_id id) (User.set_password hash must_change) (users.rows d)
  updated_users id hash must_change d (ok n, d') u e = u.0
  updated_users id hash must_change d (err x, d') u e = cc

  pub update_password-rows :
      (id : ℕ) (hash : String) (must_change : Bool) (d : Db)
      → (lift_user (User.update_password users id hash must_change d)).0 ≡ ok tt
      → users.rows (lift_user (User.update_password users id hash must_change d)).1
        ≡ update_where (User.by_id id) (User.set_password hash must_change) (users.rows d)
  unfolding User.update_password
  update_password-rows id hash must_change d e =
      updated_users id hash must_change d _
        (users.update_law (User.by_id id) (User.set_password hash must_change) d) e

-- The rows of a user.
abbrev pub tokens_of : ℕ → List RefreshToken → List RefreshToken
tokens_of user_id rows = keep (λ t. t.user_id == user_id) rows

added_tokens :
    (user_id : ℕ) (xs : List RefreshToken) (t : RefreshToken)
    → t.user_id ≢ user_id
    → tokens_of user_id (xs ++ t ∷ []) ≡ tokens_of user_id xs
added_tokens user_id [] t ne =
    let other : (t.user_id == user_id) ≡ false = ground (arith, ne) in rw other refl
added_tokens user_id (x ∷ xs) t ne = elim (Bool-cases (x.user_id == user_id)) [
  | inl e ↦ rw e (ap (λ l. x ∷ l) (added_tokens user_id xs t ne))
  | inr e ↦ rw e (added_tokens user_id xs t ne)
]

-- Revoking a token that is revoked changes nothing.
kept_token : (b : Bool) (t : RefreshToken) → t.revoked ≡ true → (if b then set_revoked t else t) ≡ t
kept_token true t e = ap (λ r. record t { revoked = r }) (sym e)
kept_token false t e = refl

revoked_owner : (b : Bool) (t : RefreshToken) → (if b then set_revoked t else t).user_id ≡ t.user_id
revoked_owner true t = refl
revoked_owner false t = refl

revoked_tokens :
    (user_id : ℕ) (p : RefreshToken → Bool) (xs : List RefreshToken)
    → IsLoggedOut user_id xs
    → tokens_of user_id (update_where p set_revoked xs) ≡ tokens_of user_id xs
revoked_tokens user_id p [] h = refl
revoked_tokens user_id p (x ∷ xs) (k, h) = elim (Bool-cases (x.user_id == user_id)) [
  | inl e ↦
      rw (kept_token (p x) x (k (ground arith)), e)
        (ap (λ l. x ∷ l) (revoked_tokens user_id p xs h))
  | inr e ↦ rw (revoked_owner (p x) x, e) (revoked_tokens user_id p xs h)
]

pub found_user :
    (id : ℕ) {Db : Type 0} (users : Table Db User User.key User.Fills) (d : Db) {u : User}
    → User.find_by_id users id d ≡ ok u
    → Elem u (users.rows d) × (u.id ≡ id)
unfolding User.find_by_id
found_user id users d e =
    let (m, same) = user_taken (User.by_id id) users d _ (users.take_law (User.by_id id) d) e in
    (m, ground arith)

module _ {Db : Type 0} (lib : Libraries) (users : Table Db User User.key User.Fills)
    (tokens : Table Db RefreshToken Auth.key Auth.Fills) where
  open tokens use {rows}

  -- What replacing a password has done: the account has the new hash, and no token of it lives.
  pub record Replaced (user_id : ℕ) (hash : String) (must_change : Bool) (d d' : Db) : Type 0 where
    pub accounts :
        users.rows d'
        ≡ update_where (User.by_id user_id) (User.set_password hash must_change) (users.rows d)
    pub logged_out : IsLoggedOut user_id (rows d')

  no_error_state : (out : Result DbError ℕ × Db) → ◌≡◌ {A = Db} (Auth.no_error out).1 out.1
  no_error_state (ok n, d) = refl
  no_error_state (err e, d) = refl

  revoke_all-users :
      (apart : Separate tokens users.rows) (user_id : ℕ) (d : Db)
      → users.rows (Auth.revoke_all_for_user tokens user_id d).1 ≡ users.rows d
  unfolding Auth.revoke_all_for_user
  revoke_all-users apart user_id d =
      ap users.rows (no_error_state _) ∙ apart.update_apart (active_of user_id) set_revoked d

  replaced :
      (apart : Separate tokens users.rows) (user_id : ℕ) (hash : String) (must_change : Bool)
      (d d₁ d' : Db)
      → (lift_user (User.update_password users user_id hash must_change d)).0 ≡ ok tt
      → (lift_user (User.update_password users user_id hash must_change d)).1 ≡ d₁
      → (Auth.revoke_all_for_user tokens user_id d₁).0 ≡ ok tt
      → (Auth.revoke_all_for_user tokens user_id d₁).1 ≡ d'
      → Replaced user_id hash must_change d d'
  replaced apart user_id hash must_change d d₁ d' e₁ s₁ e₂ s₂ = record {
    accounts = rw (← s₂) (
        revoke_all-users apart user_id d₁
        ∙ rw (← s₁) (update_password-rows users tokens user_id hash must_change d e₁));
    logged_out = rw (← s₂) (revoke_all-IsLoggedOut users tokens user_id d₁ e₂);
  }

  pub record Changed (env : Env) (user_id : ℕ) (old_pw new_pw : String) (d d' : Db) : Type 0 where
    pub account : User
    pub listed : Elem account (users.rows d)
    pub identified : account.id ≡ user_id
    pub proved : lib.compare account.password_hash old_pw ≡ matches
    pub hash : String
    pub hashed : lib.generate env.salt new_pw ≡ ok hash
    pub replaced : Replaced user_id hash false d d'

  -- A change of password that succeeds was asked with the old password of the stored account: it
  -- stores a hash of the new one, without a duty to change it, and revokes every refresh token of
  -- the user. The tokens' statements leave the users alone.
  pub change_password-Changed :
      (apart : Separate tokens users.rows) (env : Env) (user_id : ℕ) (old_pw new_pw : String)
      (d : Db) {d' : Db}
      → Service.change_password lib users tokens env user_id old_pw new_pw d ≡ (ok tt, d')
      → Changed env user_id old_pw new_pw d d'
  unfolding Service.change_password hash_password
  change_password-Changed apart env user_id old_pw new_pw d {d'} e =
      query_then _ _ d e (λ u e₁ rest₁. value_then _ _ d rest₁ (λ _ e₂ rest₂.
        value_then _ _ d rest₂ (λ hash e₃ rest₃. step_then _ _ d rest₃ (λ _ e₄ rest₄.
          let (m, same) = found_user user_id users d (from_user-ok _ e₁) in
          record {
            account = u;
            listed = m;
            identified = same;
            proved = password_checked lib u.password_hash old_pw e₂;
            hash = hash;
            hashed = from_foreign-ok _ e₃;
            replaced =
                replaced apart user_id hash false d _ d' e₄ refl (ap (λ r. r.0) rest₄)
                  (ap (λ r. r.1) rest₄);
          }))))

  -- A reset that succeeds stores a hash of the password that it returns, with the duty to change it,
  -- and revokes every refresh token of the user. The tokens' statements leave the users alone.
  pub reset_password_by_admin-Replaced :
      (apart : Separate tokens users.rows) (env : Env) (user_id : ℕ) (d : Db) {temp : String}
      {d' : Db}
      → Service.reset_password_by_admin lib users tokens env user_id d ≡ (ok temp, d')
      → (hash : String) × (lib.generate env.salt temp ≡ ok hash) × Replaced user_id hash true d d'
  unfolding Service.reset_password_by_admin hash_password
  reset_password_by_admin-Replaced apart env user_id d {temp} {d'} e =
      query_then _ _ d e (λ u e₁ rest₁. value_then _ _ d rest₁ (λ plain e₂ rest₂.
        value_then _ _ d rest₂ (λ hash e₃ rest₃. step_then _ _ d rest₃ (λ _ e₄ rest₄.
          step_then _ _ _ rest₄ (λ _ e₅ rest₅.
            let (same, state) = pure-ok rest₅ in
            (
              hash,
              rw (← same) (from_foreign-ok _ e₃),
              replaced apart user_id hash true d _ d' e₄ refl e₅ state,
            ))))))

  -- While every token of a user is revoked, an exchange that succeeds leaves the rows of this user as
  -- they are: none is added and none changes.
  pub logged_out-refresh :
      (env : Env) (raw : String) (user_id : ℕ) (d : Db) {pair : TokenPair} {d' : Db}
      → IsLoggedOut user_id (rows d)
      → Service.refresh lib users tokens env raw d ≡ (ok pair, d')
      → tokens_of user_id (rows d') ≡ tokens_of user_id (rows d)
  logged_out-refresh env raw user_id d {pair} {d'} out e =
      let r = refresh-Rotated lib users tokens env raw d e in
      let (m, same) = found_user r.row.user_id users d r.checked.found in
      let foreign : r.issued.token.user_id ≢ user_id = λ h.
        let owner : r.row.user_id ≡ user_id = sym same ∙ sym r.issued.owner ∙ h in
        let revoked = All-elem _ r.row (rows d) out r.checked.listed owner in
        cc (r.checked.unrevoked) in
      ap (tokens_of user_id) r.issued.added
      ∙ added_tokens user_id (rows r.middle) r.issued.token foreign
      ∙ ap (tokens_of user_id) r.revoked
      ∙ revoked_tokens user_id (Auth.by_id r.row.id) (rows d) out

  -- A hash that no row has is spent.
  absent-IsSpent :
      (hash : String) (d : Db) (out : Result DbError RefreshToken)
      → Takes rows (by_hash hash) d out
      → Auth.from_take out ≡ err refresh_not_found
      → IsSpent hash (rows d)
  absent-IsSpent hash d (ok t) k e = cc
  absent-IsSpent hash d (err record_not_found) k e = no_row (rows d) k
    where
      no_row : (ts : List RefreshToken) → count (by_hash hash) ts ≡ 0 → IsSpent hash ts
      no_row [] h = tt
      no_row (t ∷ ts) h = elim (Bool-cases (by_hash hash t)) [
        | inl e ↦ absurd (omega (arith, (rw e at h)))
        | inr e ↦ (
          λ same. absurd (cc (e, (eq_iff t.token_hash hash).1 same)),
          no_row ts (omega (arith, (rw e at h))),
        )
      ]
  absent-IsSpent hash d (err (fault text)) k e = cc

  found_by :
      (hash : String) (d : Db)
      → Auth.find_by_hash tokens hash d ≡ err refresh_not_found
      → Auth.from_take (tokens.take (by_hash hash) d) ≡ err refresh_not_found
  unfolding Auth.find_by_hash
  found_by hash d e = e

  logout-IsSpent :
      (raw : String) (d : Db) {d' : Db}
      → HasUniqueHashes (rows d)
      → Service.logout lib users tokens raw d ≡ (ok tt, d')
      → IsSpent (hash_refresh_token lib raw) (rows d')
  unfolding Service.logout Service.logout_found
  logout-IsSpent raw d {d'} unique e = go (Auth.find_by_hash tokens hash d) refl e
    where
      hash : String
      hash = hash_refresh_token lib raw

      go :
          (r : Result Error RefreshToken)
          → Auth.find_by_hash tokens hash d ≡ r
          → Service.logout_found lib users tokens r d ≡ (ok tt, d')
          → IsSpent hash (rows d')
      go (ok t) f h =
          let (m, hashed) = find_by_hash-found tokens hash d f in
          let marked = revoke-rows tokens t.id d (ap (λ r. r.0) h) in
          revoked-IsSpent lib users tokens hash t d d' unique m hashed
            (rw (← ap (λ r. r.1) h) marked)
      go (err refresh_not_found) f h = rw (← ap (λ r. r.1) h) (
          absent-IsSpent hash d (tokens.take (by_hash hash) d) (tokens.take_law (by_hash hash) d)
            (found_by hash d f))
      go (err _) f h = cc

  -- A token that was logged out, in a table with unique hashes, is not exchanged again.
  pub logout-refresh :
      (env : Env) (raw : String) (d : Db) {pair : TokenPair} {d' d'' : Db}
      → HasUniqueHashes (rows d)
      → Service.logout lib users tokens raw d ≡ (ok tt, d')
      → Service.refresh lib users tokens env raw d' ≢ (ok pair, d'')
  logout-refresh env raw d {d' = d'} unique e =
      spent_refused lib users tokens env raw d' (logout-IsSpent raw d unique e)
