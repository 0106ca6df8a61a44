-- ===== src/Config/Tests.antt =====
-- An environment with the four required variables, and some of the functions of `strings` on it.
use shadraw.Base.{
  pos, String, ◌≡◌, ◌≢◌, refl, inl, true, false, none, some, [], ◌∷◌, ok, err, str_eq, eq_iff,
  if◌then◌else◌, arith,
}
use shadraw.Config.{Lib, Env, Config, config_of, checked, load, get_env, get_env_int, get_env_bool}
use shadraw.Config.Loaded.{IsLoaded, IsAccepted, load-IsLoaded}

abbrev secret : String
secret = "0123456789abcdef0123456789abcdef"

abbrev lib : Lib
lib = record {
  trim_empty = refl;
  trim_space = λ s. if str_eq s "  " then "" else s;
  to_lower = λ s. if str_eq s "S3" then "s3" else s;
  split = λ s separator. s ∷ "  " ∷ [];
  join = λ parts separator. elim parts [ [] ↦ "" | first ∷ _ ↦ first ];
  byte_length = λ s. if str_eq s secret then 32 else 5;
  atoi = λ s. if str_eq s "80" then ok (pos 80) else err "invalid syntax";
  parse_bool = λ s. err "invalid syntax";
  key_order = λ keys. keys;
}

abbrev env : Env
env key =
    if str_eq key "DB_DSN"
    then some "postgres://db"
    else if str_eq key "JWT_SECRET"
    then some secret
    else if str_eq key "ADMIN_EMAIL"
    then some "admin@example.org"
    else if str_eq key "MASTER_KEY"
    then some "a2V5"
    else if str_eq key "PORT"
    then some "80"
    else if str_eq key "S3_USE_PATH_STYLE"
    then some "maybe"
    else none

abbrev in_s3 : Env
in_s3 key = if str_eq key "BLOB_DRIVER" then some "S3" else env key

abbrev cfg : Config
cfg = record {
  port = pos 80;
  log_level = "info";
  db_dsn = "postgres://db";
  jwt_secret = secret;
  admin_email = "admin@example.org";
  master_key = "a2V5";
  cors_origins = "http://localhost:3000" ∷ [];
  data_dir = "./data";
  blob_driver = "local";
  s3_endpoint = "";
  s3_region = "us-east-1";
  s3_bucket = "";
  s3_access_key = "";
  s3_secret_key = "";
  s3_use_path_style = true;
}

test_config : config_of lib env ≡ cfg
unfolding config_of get_env get_env_int get_env_bool
test_config = refl

test_refused :
    load lib (λ key. none) ≡ err "missing required env: DB_DSN"
    × load lib in_s3 ≡ err "missing required s3 env: S3_ENDPOINT"
unfolding load checked config_of get_env get_env_int get_env_bool
test_refused = (refl, refl)

unlike : (a b : String) → str_eq a b ≡ false → a ≢ b
unlike a b e same = absurd (cc (e, (eq_iff a b).1 same))

accepted : IsAccepted lib env
accepted = record {
  db_dsn = ("postgres://db", ("postgres://db", refl, refl, unlike "postgres://db" "" refl));
  jwt_secret = (secret, (secret, refl, refl, unlike secret "" refl), omega arith);
  admin_email =
      ("admin@example.org", ("admin@example.org", refl, refl, unlike "admin@example.org" "" refl));
  master_key = ("a2V5", ("a2V5", refl, refl, unlike "a2V5" "" refl));
  store = ("local", ((λ text e. cc), (λ m. refl)), inl refl);
}

load-IsLoaded_example :
    ((cfg' : Config) → load lib env ≡ ok cfg' → IsLoaded lib env cfg')
    × (IsAccepted lib env → (cfg' : Config) × (load lib env ≡ ok cfg'))
load-IsLoaded_example = load-IsLoaded lib env

test_loaded : (cfg' : Config) × (load lib env ≡ ok cfg')
test_loaded = (load-IsLoaded lib env).1 accepted
