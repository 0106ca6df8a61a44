-- ===== src/Auth/Service/Tokens.antt =====
-- What issuing, rotating and revoking tokens does to the table of refresh tokens.
use shadraw.Base.{
  ℕ, ◌+◌, String, ◌≡◌, refl, ap, Bool, false, [], ◌∷◌, ◌++◌, Result, ok, err, eq_iff, >>=-ok,
  pure-ok, Elem, update_where,
}
use shadraw.Table.{DbError, record_not_found, fault, Table, Takes, Updates, Creates}
use shadraw.User
use shadraw.User.{User}
use shadraw.Auth
use shadraw.Auth.{
  TokenPair, Error, RefreshToken, Libraries, Env, by_hash, by_id, active_of, set_revoked,
  refresh_ttl, hash_refresh_token, refresh_not_found, lift, no_error, from_take, from_foreign,
}
use shadraw.Auth.Service

pub from_foreign-ok : {A : Type 0} (r : Result String A) {a : A} → from_foreign r ≡ ok a → r ≡ ok a
from_foreign-ok (ok x) e = cc
from_foreign-ok (err text) e = cc

module _ {Db : Type 0} (tokens : Table Db RefreshToken Auth.key Auth.Fills) where
  open tokens use {rows}

  lift_created :
      (given : RefreshToken) (d : Db) (out : Result DbError RefreshToken × Db) {t : RefreshToken}
      → Creates rows Auth.key Auth.Fills given d out
      → (lift out).0 ≡ ok t
      → (rows (lift out).1 ≡ rows d ++ t ∷ []) × (t ≡ record given { id = t.id })
  lift_created given d (ok r, d') {t} c e = let same : r ≡ t = cc in rw (← same) (c.0, c.1)
  lift_created given d (err x, d') c e = cc

  found_by_hash :
      (hash : String) (d : Db) (out : Result DbError RefreshToken) {t : RefreshToken}
      → Takes rows (by_hash hash) d out
      → from_take out ≡ ok t
      → Elem t (rows d) × (t.token_hash ≡ hash)
  found_by_hash hash d (ok x) {t} k e =
      let same : x ≡ t = cc in rw (← same) (k.0, (eq_iff x.token_hash hash).0 k.1)
  found_by_hash hash d (err record_not_found) k e = cc
  found_by_hash hash d (err (fault text)) k e = cc

  pub find_by_hash-found :
      (hash : String) (d : Db) {t : RefreshToken}
      → Auth.find_by_hash tokens hash d ≡ ok t
      → Elem t (rows d) × (t.token_hash ≡ hash)
  unfolding Auth.find_by_hash
  find_by_hash-found hash d e = found_by_hash hash d _ (tokens.take_law (by_hash hash) d) e

  -- The tokens of an update that succeeds, each revoked where it matches.
  revoked_rows :
      (p : RefreshToken → Bool) (d : Db) (out : Result DbError ℕ × Db)
      → Updates rows p set_revoked d out
      → (no_error out).0 ≡ ok tt
      → rows (no_error out).1 ≡ update_where p set_revoked (rows d)
  revoked_rows p d (ok n, d') u e = u.0
  revoked_rows p d (err x, d') u e = cc

  pub revoke-rows :
      (id : ℕ) (d : Db)
      → (Auth.revoke tokens id d).0 ≡ ok tt
      → rows (Auth.revoke tokens id d).1 ≡ update_where (by_id id) set_revoked (rows d)
  unfolding Auth.revoke
  revoke-rows id d e = revoked_rows (by_id id) d _ (tokens.update_law (by_id id) set_revoked d) e

  pub revoke_all_for_user-rows :
      (user_id : ℕ) (d : Db)
      → (Auth.revoke_all_for_user tokens user_id d).0 ≡ ok tt
      → rows (Auth.revoke_all_for_user tokens user_id d).1
        ≡ update_where (active_of user_id) set_revoked (rows d)
  unfolding Auth.revoke_all_for_user
  revoke_all_for_user-rows user_id d e =
      revoked_rows (active_of user_id) d _ (tokens.update_law (active_of user_id) set_revoked d) e

module _ {Db : Type 0} (lib : Libraries) (users : Table Db User User.key User.Fills)
    (tokens : Table Db RefreshToken Auth.key Auth.Fills) where
  open tokens use {rows}

  -- The row that issuing adds, for the pair that it returns.
  pub record Issued (env : Env) (u : User) (pair : TokenPair) (d d' : Db) : Type 0 where
    pub token : RefreshToken
    pub added : rows d' ≡ rows d ++ token ∷ []
    pub owner : token.user_id ≡ u.id
    pub hashed : token.token_hash ≡ hash_refresh_token lib pair.refresh_token
    pub expires : token.expires_at ≡ env.issued + refresh_ttl
    pub live : token.revoked ≡ false
    pub raw : env.random_token ≡ ok pair.refresh_token

  issued :
      (env : Env) (u : User) (pair : TokenPair) (d d' : Db) (raw : String) (t : RefreshToken)
      → env.random_token ≡ ok raw
      → raw ≡ pair.refresh_token
      → (Auth.create tokens (Service.new_token lib env u raw) d).0 ≡ ok t
      → (Auth.create tokens (Service.new_token lib env u raw) d).1 ≡ d'
      → Issued env u pair d d'
  unfolding Auth.create
  issued env u pair d d' raw t random same stored state =
      let given = Service.new_token lib env u raw in
      let (added, fills) = lift_created tokens given d _ (tokens.create_law given d) stored in
      record {
        token = t;
        added = rw (← state) added;
        owner = rw fills refl;
        hashed = rw (fills, ← same) refl;
        expires = rw fills refl;
        live = rw fills refl;
        raw = rw (← same) random;
      }

  pub issue_tokens-Issued :
      (env : Env) (u : User) (d : Db) {pair : TokenPair} {d' : Db}
      → Service.issue_tokens lib users tokens env u d ≡ (ok pair, d')
      → Issued env u pair d d'
  unfolding Service.issue_tokens
  issue_tokens-Issued env u d {pair} {d'} e =
      let (access, e₁, rest₁) = >>=-ok _ _ d e in
      let (raw, e₂, rest₂) = >>=-ok _ _ d rest₁ in
      let (t, e₃, rest₃) = >>=-ok _ _ d rest₂ in
      let (same, state) = pure-ok rest₃ in
      issued env u pair d d' raw t (from_foreign-ok env.random_token e₂)
        (ap (λ p. p.refresh_token) same) e₃ state
