-- ===== src/Auth/Service/Tests.antt =====
-- Runs of the service on users and refresh tokens in memory, with libraries that hash nothing.
use shadraw.Base.{
  String, ◌≡◌, ◌≢◌, refl, sym, Bool, true, false, inl, inr, List, [], ◌∷◌, ◌++◌, Result, ok, count,
  str_eq, eq_iff, arith, ◌==◌, ◌>>=◌, Bool-cases, if◌then◌else◌,
}
use shadraw.Table.{Table, Separate}
use shadraw.Table.Memory.{memory}
use shadraw.User
use shadraw.User.{User, Role}
use shadraw.Auth
use shadraw.Auth.{
  RefreshToken, TokenPair, AuthResponse, Libraries, Env, Compared, matches, mismatched, Claims,
  Error, to_user_dto, RegisterReq, LoginReq, hash_refresh_token, invalid_credentials, user_disabled,
}
use shadraw.Auth.Service
use shadraw.Auth.Service.Rotation.{HasUniqueHashes, Rotated, Since, refresh-Rotated, refresh_once}
use shadraw.Auth.Service.Passwords.{
  Changed, change_password-Changed, Replaced, reset_password_by_admin-Replaced, tokens_of,
  logged_out-refresh, logout-refresh,
}

record Db : Type 0 where
  pub users : List User
  pub tokens : List RefreshToken

abbrev users : Table Db User User.key User.Fills
users =
    memory User.key User.Fills (λ d. d.users) (λ rows d. record d { users = rows }) (λ rows d. refl)
      (λ n u. record u { id = n }) (λ n u. refl) (λ n u. refl)

abbrev tokens : Table Db RefreshToken Auth.key Auth.Fills
tokens =
    memory Auth.key Auth.Fills (λ d. d.tokens) (λ rows d. record d { tokens = rows })
      (λ rows d. refl) (λ n t. record t { id = n }) (λ n t. refl) (λ n t. refl)

unless_apart :
    (p : RefreshToken → Bool) (given : RefreshToken) (d : Db)
    → users.rows (tokens.create_unless p given d).1 ≡ users.rows d
unless_apart p given d = elim (Bool-cases (count p d.tokens == 0)) [
  | inl e ↦ rw e refl
  | inr e ↦ rw e refl
]

tokens_apart : Separate tokens users.rows
tokens_apart = record {
  update_apart = λ p f d. refl;
  create_apart = λ given d. refl;
  create_unless_apart = unless_apart;
  delete_apart = λ p d. refl;
}

abbrev same : Bool → Compared
same b = if b then matches else mismatched

compare_generate :
    (salt plain hash : String)
    → ◌≡◌ {A = Result String String} (ok plain) (ok hash)
    → same (str_eq hash plain) ≡ matches
compare_generate salt plain hash e =
    let equal : plain ≡ hash = cc in
    let found : str_eq hash plain ≡ true = (eq_iff hash plain).1 (sym equal) in rw found refl

abbrev lib : Libraries
lib = record {
  generate = λ salt plain. ok plain;
  compare = λ hash plain. same (str_eq hash plain);
  sign = λ claims. ok "access";
  sha256_hex = λ s. s;
  same_email = λ a b. str_eq a b;
  format = record { decimal = λ n. "1"; time = λ n. "2026-01-01T00:00:00Z" };
  compare_generate = compare_generate;
}

abbrev env : String → Env
env random = record {
  now = 1000;
  issued = 1000;
  salt = "";
  jwt_id = "j";
  random_token = ok random;
  random_password = ok "temporary";
}

abbrev ann : User
ann = record {
  id = 1;
  email = "ann@x";
  password_hash = "secret";
  display_name = "Ann";
  role = Role.user;
  disabled = false;
  must_change_password = false;
  created_at = 0;
}

abbrev ann_token : RefreshToken
ann_token = record { id = 5; user_id = 1; token_hash = "old"; expires_at = 2000; revoked = false }

abbrev logged_in : Db
logged_in = record { users = ann ∷ []; tokens = ann_token ∷ [] }

abbrev pair_of : String → TokenPair
pair_of raw = record { access_token = "access"; refresh_token = raw; expires_in = 900 }

abbrev new_token : RefreshToken
new_token = record { id = 6; user_id = 1; token_hash = "new"; expires_at = 605800; revoked = false }

abbrev rotated : Db
rotated = record { users = ann ∷ []; tokens = record ann_token { revoked = true } ∷ new_token ∷ [] }

rotates :
    Service.refresh lib users tokens (env "new") "old" logged_in ≡ (ok (pair_of "new"), rotated)
unfolding Service.refresh Service.refresh_checked Service.refresh_issued Service.issue_tokens
    Service.missing_error Auth.find_by_hash Auth.revoke Auth.create Auth.hash_refresh_token
    Auth.sign_access_token User.find_by_id ◌>>=◌
rotates = refl

refresh-Rotated_example :
    Rotated lib users tokens (env "new") "old" (pair_of "new") logged_in rotated
refresh-Rotated_example = refresh-Rotated lib users tokens (env "new") "old" logged_in rotates

one_hash : HasUniqueHashes (ann_token ∷ [])
one_hash a b (inl e) (inl f) h = cc
one_hash a b (inl e) (inr none_left) h = absurd none_left
one_hash a b (inr none_left) m h = absurd none_left

new_ne : ◌≢◌ {A = String} "new" "old"
new_ne = ground (arith, eq_iff "new" "old")

abbrev other_token : RefreshToken
other_token = record {
  id = 9;
  user_id = 2;
  token_hash = "other";
  expires_at = 2000;
  revoked = false;
}

abbrev with_token : Db → Db
with_token d = record d { tokens = d.tokens ++ other_token ∷ [] }

other_ne : ◌≢◌ {A = String} "other" "old"
other_ne = ground (arith, eq_iff "other" "old")

refresh_once_example :
    Service.refresh lib users tokens (env "third") "old" (with_token rotated)
    ≢ (ok (pair_of "third"), rotated)
unfolding hash_refresh_token
refresh_once_example =
    refresh_once lib users tokens (env "new") (env "third") "old" logged_in one_hash new_ne rotates
      (Since.adding other_token Since.now other_ne refl)

abbrev ann_login : LoginReq
ann_login = record { email = "ann@x"; password = "secret" }

abbrev twice_in : Db
twice_in = record { users = ann ∷ []; tokens = ann_token ∷ new_token ∷ [] }

abbrev ann_response : AuthResponse
ann_response = record { user = to_user_dto lib.format ann; tokens = pair_of "new" }

abbrev bob_login : LoginReq
bob_login = record { email = "bob@x"; password = "secret" }

abbrev bob_request : RegisterReq
bob_request = record { email = "bob@x"; password = "hidden"; display_name = "Bob" }

abbrev bob : User
bob = record (Service.new_user "hidden" bob_request) { id = 2 }

abbrev bob_token : RefreshToken
bob_token = record { id = 6; user_id = 2; token_hash = "new"; expires_at = 605800; revoked = false }

abbrev bob_response : AuthResponse
bob_response = record { user = to_user_dto lib.format bob; tokens = pair_of "new" }

abbrev with_bob : Db
with_bob = record { users = ann ∷ bob ∷ []; tokens = ann_token ∷ bob_token ∷ [] }

abbrev logged_out : Db
logged_out = record {
  users = record ann { password_hash = "better" } ∷ [];
  tokens = record ann_token { revoked = true } ∷ [];
}

changes :
    Service.change_password lib users tokens (env "new") 1 "secret" "better" logged_in
    ≡ (ok tt, logged_out)
unfolding Service.change_password Service.mismatch_error User.find_by_id User.update_password
    Auth.verify_password Auth.hash_password Auth.revoke_all_for_user ◌>>=◌
changes = refl

change_password-Changed_example :
    Changed lib users tokens (env "new") 1 "secret" "better" logged_in logged_out
change_password-Changed_example =
    change_password-Changed lib users tokens tokens_apart (env "new") 1 "secret" "better" logged_in
      changes

abbrev was_reset : Db
was_reset = record {
  users = record ann { password_hash = "temporary"; must_change_password = true } ∷ [];
  tokens = record ann_token { revoked = true } ∷ [];
}

resets :
    Service.reset_password_by_admin lib users tokens (env "new") 1 logged_in
    ≡ (ok "temporary", was_reset)
unfolding Service.reset_password_by_admin User.find_by_id User.update_password Auth.hash_password
    Auth.revoke_all_for_user ◌>>=◌
resets = refl

reset_password_by_admin-Replaced_example :
    (hash : String) × (lib.generate "" "temporary" ≡ ok hash)
    × Replaced lib users tokens 1 hash true logged_in was_reset
reset_password_by_admin-Replaced_example =
    reset_password_by_admin-Replaced lib users tokens tokens_apart (env "new") 1 logged_in resets

-- Another user is logged out.
abbrev with_revoked : Db
with_revoked = record logged_in { tokens = ann_token ∷ record other_token { revoked = true } ∷ [] }

abbrev then_rotated : Db
then_rotated = record logged_in {
  tokens =
      record ann_token { revoked = true }
      ∷ record other_token { revoked = true }
      ∷ record new_token { id = 15 }
      ∷ [];
}

rotates_beside :
    Service.refresh lib users tokens (env "new") "old" with_revoked
    ≡ (ok (pair_of "new"), then_rotated)
unfolding Service.refresh Service.refresh_checked Service.refresh_issued Service.issue_tokens
    Service.missing_error Auth.find_by_hash Auth.revoke Auth.create Auth.hash_refresh_token
    Auth.sign_access_token User.find_by_id ◌>>=◌
rotates_beside = refl

logged_out-refresh_example : tokens_of 2 then_rotated.tokens ≡ tokens_of 2 with_revoked.tokens
logged_out-refresh_example =
    logged_out-refresh lib users tokens (env "new") "old" 2 with_revoked
      ((λ e. ground arith), ((λ e. refl), tt)) rotates_beside

abbrev spent : Db
spent = record { users = ann ∷ []; tokens = record ann_token { revoked = true } ∷ [] }

logs_out : Service.logout lib users tokens "old" logged_in ≡ (ok tt, spent)
unfolding Service.logout Service.logout_found Auth.find_by_hash Auth.revoke Auth.hash_refresh_token
logs_out = refl

logout-refresh_example :
    Service.refresh lib users tokens (env "new") "old" spent ≢ (ok (pair_of "new"), rotated)
logout-refresh_example =
    logout-refresh lib users tokens (env "new") "old" logged_in one_hash logs_out
