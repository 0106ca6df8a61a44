-- ===== src/Config.antt =====
-- internal/config/config.go: reading the configuration from the environment. The functions of
-- `strings` and `strconv` are parameters, and so is the order in which the loop over a map finds
-- its keys, which only the text of an error shows.
pub mod Accepted
pub mod Loaded
mod Tests
use Prim.Native.String.{◌++◌ as append}
use shadraw.Base.{
  ℕ, ℤ, pos, String, ◌≡◌, Bool, true, false, not, ◌&&◌, Option, none, some, List, [], ◌∷◌, Result,
  ok, err, str_eq, ltb, keep, map, if◌then◌else◌,
}

pub record Lib : Type 0 where
  pub trim_space : String → String
  pub trim_empty : trim_space "" ≡ ""
  pub to_lower : String → String
  pub split : String → String → List String
  pub join : List String → String → String
  pub byte_length : String → ℕ
  pub atoi : String → Result String ℤ
  pub parse_bool : String → Result String Bool
  pub key_order : List String → List String

pub record Config : Type 0 where
  pub port : ℤ
  pub log_level : String
  pub db_dsn : String
  pub jwt_secret : String
  pub admin_email : String
  pub master_key : String
  pub cors_origins : List String
  pub data_dir : String
  pub blob_driver : String
  pub s3_endpoint : String
  pub s3_region : String
  pub s3_bucket : String
  pub s3_access_key : String
  pub s3_secret_key : String
  pub s3_use_path_style : Bool

-- What `os.LookupEnv` gives.
abbrev pub Env : Type 0
Env = String → Option String

-- `os.Getenv`.
abbrev pub or_empty : Option String → String
or_empty none = ""
or_empty (some v) = v

-- The value of a variable that is set and not empty.
abbrev pub given : Option String → Option String
given none = none
given (some v) = if str_eq v "" then none else some v

abbrev pub or_fallback : {A : Type 0} → (String → Option A) → A → Option String → A
or_fallback parse fallback none = fallback
or_fallback parse fallback (some v) = elim (parse v) [ some a ↦ a | none ↦ fallback ]

abbrev pub without_error : {A : Type 0} → Result String A → Option A
without_error (ok a) = some a
without_error (err text) = none

unfoldable pub get_env : Env → String → String → String
get_env env key fallback = or_fallback some fallback (given (env key))

unfoldable pub get_env_int : Lib → Env → String → ℤ → ℤ
get_env_int lib env key fallback =
    or_fallback (λ v. without_error (lib.atoi v)) fallback (given (env key))

unfoldable pub get_env_bool : Lib → Env → String → Bool → Bool
get_env_bool lib env key fallback =
    or_fallback (λ v. without_error (lib.parse_bool v)) fallback (given (env key))

-- The keys whose values are empty.
abbrev pub missing : List (String × String) → List String
missing [] = []
missing ((key, value) ∷ rest) = if str_eq value "" then key ∷ missing rest else missing rest

abbrev pub refuse_missing : Lib → String → List String → Result String Config → Result String Config
refuse_missing lib text [] next = next
refuse_missing lib text (key ∷ keys) next =
    err (append text (lib.join (lib.key_order (key ∷ keys)) ", "))

-- The configuration that the environment gives, complete or not.
unfoldable pub config_of : Lib → Env → Config
config_of lib env = record {
  port = get_env_int lib env "PORT" (pos 8080);
  log_level = get_env env "LOG_LEVEL" "info";
  db_dsn = lib.trim_space (or_empty (env "DB_DSN"));
  jwt_secret = lib.trim_space (or_empty (env "JWT_SECRET"));
  admin_email = lib.trim_space (or_empty (env "ADMIN_EMAIL"));
  master_key = lib.trim_space (or_empty (env "MASTER_KEY"));
  cors_origins =
      keep (λ o. not (str_eq o ""))
        (map lib.trim_space (lib.split (get_env env "CORS_ORIGINS" "http://localhost:3000") ","));
  data_dir = get_env env "DATA_DIR" "./data";
  blob_driver = lib.to_lower (get_env env "BLOB_DRIVER" "local");
  s3_endpoint = lib.trim_space (get_env env "S3_ENDPOINT" "");
  s3_region = get_env env "S3_REGION" "us-east-1";
  s3_bucket = lib.trim_space (get_env env "S3_BUCKET" "");
  s3_access_key = lib.trim_space (get_env env "S3_ACCESS_KEY_ID" "");
  s3_secret_key = lib.trim_space (get_env env "S3_SECRET_ACCESS_KEY" "");
  s3_use_path_style = get_env_bool lib env "S3_USE_PATH_STYLE" true;
}

abbrev pub required : Config → List (String × String)
required cfg =
    ("DB_DSN", cfg.db_dsn)
    ∷ ("JWT_SECRET", cfg.jwt_secret)
    ∷ ("ADMIN_EMAIL", cfg.admin_email)
    ∷ ("MASTER_KEY", cfg.master_key)
    ∷ []

abbrev pub s3_required : Config → List (String × String)
s3_required cfg =
    ("S3_ENDPOINT", cfg.s3_endpoint)
    ∷ ("S3_BUCKET", cfg.s3_bucket)
    ∷ ("S3_ACCESS_KEY_ID", cfg.s3_access_key)
    ∷ ("S3_SECRET_ACCESS_KEY", cfg.s3_secret_key)
    ∷ []

-- Only the driver s3 needs these variables.
abbrev pub s3_missing : Config → List String
s3_missing cfg = if str_eq cfg.blob_driver "s3" then missing (s3_required cfg) else []

unfoldable pub checked : Lib → Config → Result String Config
checked lib cfg = refuse_missing lib "missing required env: " (missing (required cfg)) (
    if ltb (lib.byte_length cfg.jwt_secret) 32
    then err "JWT_SECRET must be at least 32 characters"
    else if not (str_eq cfg.blob_driver "local") && not (str_eq cfg.blob_driver "s3")
    then err "BLOB_DRIVER must be local or s3"
    else refuse_missing lib "missing required s3 env: " (s3_missing cfg) (ok cfg))

unfoldable pub load : Lib → Env → Result String Config
unfolding config_of checked
load lib env = checked lib (config_of lib env)
