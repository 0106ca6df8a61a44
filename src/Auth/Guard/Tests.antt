-- ===== src/Auth/Guard/Tests.antt =====
-- A request with the token of a stored administrator.
use shadraw.Base.{◌≡◌, refl, false, some, List, [], ◌∷◌, Elem, ok, err, str_eq, if◌then◌else◌}
use shadraw.Table.{Table}
use shadraw.Table.Memory.{memory}
use shadraw.User
use shadraw.User.{User, Role}
use shadraw.Auth.{Claims}
use shadraw.Auth.Guard.{Parsing, Identity, passes, bearer_token, require_auth, require_admin}
use shadraw.Auth.Guard.Passing.{Authorized, require_auth-Authorized, require_admin-stored}

abbrev Db : Type 0
Db = List User

abbrev users : Table Db User User.key User.Fills
users =
    memory User.key User.Fills (λ d. d) (λ rows d. rows) (λ rows d. refl)
      (λ n u. record u { id = n }) (λ n u. refl) (λ n u. refl)

abbrev eve : User
eve = record {
  id = 3;
  email = "eve@x";
  password_hash = "h";
  display_name = "Eve";
  role = Role.admin;
  disabled = false;
  must_change_password = false;
  created_at = 0;
}

abbrev claims : Claims
claims = record {
  user_id = 3;
  role = Role.user;
  issued_at = 100;
  expires_at = some 1000;
  not_before = 100;
  jwt_id = "j";
}

abbrev parsing : Parsing
parsing = record {
  parse = λ token. if str_eq token "good" then ok claims else err "bad";
  equal_fold = λ a b. str_eq a b;
  trim = λ s. s;
}

abbrev eve_identity : Identity
eve_identity = record { user_id = 3; role = Role.admin }

lets_in : require_auth parsing users 500 "Bearer good" (eve ∷ []) ≡ passes eve_identity
unfolding require_auth bearer_token User.find_by_id
lets_in = refl

require_auth-Authorized_example : Authorized parsing users 500 "Bearer good" (eve ∷ []) eve_identity
require_auth-Authorized_example =
    require_auth-Authorized parsing users 500 "Bearer good" (eve ∷ []) lets_in

admits :
    require_admin (require_auth parsing users 500 "Bearer good" (eve ∷ [])) ≡ passes eve_identity
unfolding require_auth bearer_token User.find_by_id require_admin
admits = refl

require_admin-stored_example :
    (u : User) × Elem u (eve ∷ []) × (u.id ≡ 3) × (u.role ≡ Role.admin) × (u.disabled ≡ false)
require_admin-stored_example =
    require_admin-stored parsing users 500 "Bearer good" (eve ∷ []) admits
