-- ===== src/Auth/Service/Rotation.antt =====
-- The rotation of refresh tokens: a token that was exchanged or logged out is spent.
use shadraw.Base.{
  ◌≤◌, String, ◌≡◌, refl, sym, ◌∙◌, ◌≢◌, Bool, true, false, List, Result, ok, err, if◌then◌else◌,
  arith, query_then, guard_then, step_then, pure-ok, whole, ◌++◌, [], ◌∷◌, Elem, All, update_where,
}
use shadraw.Table.{Table}
use shadraw.Table.Rows.{All-elem, All-append, All-updated}
use shadraw.User
use shadraw.User.{User}
use shadraw.Auth
use shadraw.Auth.{
  TokenPair, Error, RefreshToken, Libraries, Env, by_hash, by_id, active_of, set_revoked,
  refresh_ttl, hash_refresh_token, refresh_not_found, lift, no_error, from_take, from_user,
}
use shadraw.Auth.Service
use shadraw.Auth.Service.Tokens.{Issued, issue_tokens-Issued, find_by_hash-found, revoke-rows}

-- No two rows have the same hash: the unique index of the table.
abbrev pub HasUniqueHashes : List RefreshToken → Type 0
HasUniqueHashes rows =
    (a b : RefreshToken) → Elem a rows → Elem b rows → a.token_hash ≡ b.token_hash → a ≡ b

-- Every row with this hash is revoked.
abbrev pub IsSpent : String → List RefreshToken → Type 0
IsSpent hash rows = All (λ t. t.token_hash ≡ hash → t.revoked ≡ true) rows

missing_error-ok :
    {A : Type 0} (r : Result Error A) {a : A} → Service.missing_error r ≡ ok a → r ≡ ok a
unfolding Service.missing_error
missing_error-ok (ok x) e = e
missing_error-ok (err refresh_not_found) e = cc
missing_error-ok (err _) e = cc

pub from_user-ok : {A : Type 0} (r : Result User.Error A) {a : A} → from_user r ≡ ok a → r ≡ ok a
from_user-ok (ok x) e = cc
from_user-ok (err x) e = cc

module _ {Db : Type 0} (lib : Libraries) (users : Table Db User User.key User.Fills)
    (tokens : Table Db RefreshToken Auth.key Auth.Fills) where
  open tokens use {rows}

  -- What an exchange reads: a row of the token, neither revoked nor expired, of an enabled account.
  pub record Checked (env : Env) (raw : String) (d : Db) (row : RefreshToken) (account : User)
      : Type 0 where
    pub listed : Elem row (rows d)
    pub hashed : row.token_hash ≡ hash_refresh_token lib raw
    pub unrevoked : row.revoked ≡ false
    pub unexpired : env.now ≤ row.expires_at
    pub found : User.find_by_id users row.user_id d ≡ ok account
    pub enabled : account.disabled ≡ false

  pub refresh_checked-Checked :
      (env : Env) (raw : String) (d : Db) {found : RefreshToken × User} {d' : Db}
      → Service.refresh_checked lib users tokens env raw d ≡ (ok found, d')
      → Checked env raw d found.0 found.1 × (d' ≡ d)
  unfolding Service.refresh_checked
  refresh_checked-Checked env raw d {found} {d'} e = query_then _ _ d e (λ row e₁ rest₁.
      guard_then _ _ _ d rest₁ (λ live rest₂. guard_then _ _ _ d rest₂ (λ fresh rest₃.
        query_then _ _ d rest₃ (λ u e₄ rest₄. guard_then _ _ _ d rest₄ (λ enabled rest₅.
          let (same, state) = pure-ok rest₅ in
          let (m, hashed) = find_by_hash-found tokens _ d (missing_error-ok _ e₁) in
          (
            rw (← same) (record {
              listed = m;
              hashed = hashed;
              unrevoked = live;
              unexpired = ground arith;
              found = from_user-ok _ e₄;
              enabled = enabled;
            }),
            sym state,
          ))))))

  -- What an exchange has read and written.
  pub record Rotated (env : Env) (raw : String) (pair : TokenPair) (d d' : Db) : Type 0 where
    pub row : RefreshToken
    pub account : User
    pub checked : Checked env raw d row account
    pub middle : Db
    pub revoked : rows middle ≡ update_where (by_id row.id) set_revoked (rows d)
    pub issued : Issued lib users tokens env account pair middle d'

  -- An exchange that succeeds was asked with a stored token that is neither revoked nor expired and
  -- whose account is enabled; its row is revoked and one row is added for the same account.
  pub refresh-Rotated :
      (env : Env) (raw : String) (d : Db) {pair : TokenPair} {d' : Db}
      → Service.refresh lib users tokens env raw d ≡ (ok pair, d')
      → Rotated env raw pair d d'
  unfolding Service.refresh Service.refresh_issued
  refresh-Rotated env raw d {pair} {d'} e = step_then _ _ d e (λ found e₀ rest.
      let (c, state) = refresh_checked-Checked env raw d (whole _ e₀ refl) in
      step_then _ _ d (rw state at rest) (λ _ e₁ rest₁. record {
        row = found.0;
        account = found.1;
        checked = c;
        middle = (Auth.revoke tokens found.0.id d).1;
        revoked = revoke-rows tokens found.0.id d e₁;
        issued = issue_tokens-Issued lib users tokens env found.1 _ rest₁;
      }))

  -- Revoking the row of a hash spends it.
  pub revoked-IsSpent :
      (hash : String) (row : RefreshToken) (d d' : Db)
      → HasUniqueHashes (rows d)
      → Elem row (rows d)
      → row.token_hash ≡ hash
      → rows d' ≡ update_where (by_id row.id) set_revoked (rows d)
      → IsSpent hash (rows d')
  revoked-IsSpent hash row d d' unique m same marked = rw marked (
      All-updated (λ t. t.token_hash ≡ hash → t.revoked ≡ true) (by_id row.id) set_revoked (rows d)
        (λ t n. spent t (λ h. unique t row n m (h ∙ sym same))))
    where
      spent :
          (t : RefreshToken)
          → (t.token_hash ≡ hash → t ≡ row)
          → (if by_id row.id t then set_revoked t else t).token_hash ≡ hash
          → (if by_id row.id t then set_revoked t else t).revoked ≡ true
      spent t k = go (by_id row.id t) refl
        where
          go :
              (b : Bool)
              → by_id row.id t ≡ b
              → (if b then set_revoked t else t).token_hash ≡ hash
              → (if b then set_revoked t else t).revoked ≡ true
          go true e h = refl
          go false e h = absurd (ground (arith, k h))

  -- After an exchange the old token is spent, if the new one differs from it.
  pub refresh-IsSpent :
      (env : Env) (raw : String) (d : Db) {pair : TokenPair} {d' : Db}
      → HasUniqueHashes (rows d)
      → hash_refresh_token lib pair.refresh_token ≢ hash_refresh_token lib raw
      → Service.refresh lib users tokens env raw d ≡ (ok pair, d')
      → IsSpent (hash_refresh_token lib raw) (rows d')
  refresh-IsSpent env raw d unique other e =
      let r = refresh-Rotated env raw d e in
      rw r.issued.added (
        All-append (λ t. t.token_hash ≡ hash_refresh_token lib raw → t.revoked ≡ true) _ _
          (revoked-IsSpent _ r.row d r.middle unique r.checked.listed r.checked.hashed r.revoked)
          ((λ h. absurd (other (sym r.issued.hashed ∙ h))), tt))

  -- A spent token is never exchanged.
  pub spent_refused :
      (env : Env) (raw : String) (d : Db) {pair : TokenPair} {d' : Db}
      → IsSpent (hash_refresh_token lib raw) (rows d)
      → Service.refresh lib users tokens env raw d ≢ (ok pair, d')
  spent_refused env raw d spent e =
      let r = refresh-Rotated env raw d e in
      let revoked = All-elem _ r.row (rows d) spent r.checked.listed r.checked.hashed in
      cc (r.checked.unrevoked)

  -- What other requests have done to the table since: any tokens were revoked, or one with another
  -- hash was added.
  pub data Since (hash : String) (d : Db) : Db → Type 0 where
    now : Since hash d d
    revoking :
        {e f : Db} (p : RefreshToken → Bool)
        → Since hash d e
        → rows f ≡ update_where p set_revoked (rows e)
        → Since hash d f
    adding :
        {e f : Db} (t : RefreshToken)
        → Since hash d e
        → t.token_hash ≢ hash
        → rows f ≡ rows e ++ t ∷ []
        → Since hash d f

  Since-IsSpent :
      (hash : String) (d e : Db) → IsSpent hash (rows d) → Since hash d e → IsSpent hash (rows e)
  Since-IsSpent hash d e spent Since.now = spent
  Since-IsSpent hash d e spent (Since.revoking {e = before} p run same) = rw same (
      All-updated (λ t. t.token_hash ≡ hash → t.revoked ≡ true) p set_revoked (rows before)
        (λ t m.
          stays t (p t) (All-elem _ t (rows before) (Since-IsSpent hash d before spent run) m)))
    where
      stays :
          (t : RefreshToken) (b : Bool)
          → (t.token_hash ≡ hash → t.revoked ≡ true)
          → (if b then set_revoked t else t).token_hash ≡ hash
          → (if b then set_revoked t else t).revoked ≡ true
      stays t true k h = refl
      stays t false k h = k h
  Since-IsSpent hash d e spent (Since.adding {e = before} t run other same) = rw same (
      All-append (λ t. t.token_hash ≡ hash → t.revoked ≡ true) _ _
        (Since-IsSpent hash d before spent run) ((λ h. absurd (other h)), tt))

  -- Once an exchange of a token has ended, every exchange of it that starts later is refused, at any
  -- time, whatever other requests have revoked and added in between. The hashes are unique, and the
  -- new tokens have other hashes than the old one. Exchanges that overlap are not covered.
  pub refresh_once :
      (env later : Env) (raw : String) (d : Db) {pair again : TokenPair} {d' e d'' : Db}
      → HasUniqueHashes (rows d)
      → hash_refresh_token lib pair.refresh_token ≢ hash_refresh_token lib raw
      → Service.refresh lib users tokens env raw d ≡ (ok pair, d')
      → Since (hash_refresh_token lib raw) d' e
      → Service.refresh lib users tokens later raw e ≢ (ok again, d'')
  refresh_once env later raw d {d' = d'} {e = e} unique other done since =
      spent_refused later raw e (
        Since-IsSpent (hash_refresh_token lib raw) d' e
          (refresh-IsSpent env raw d unique other done) since)
