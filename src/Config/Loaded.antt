-- ===== src/Config/Loaded.antt =====
-- Which environments give a configuration, and which one, told by the variables.
use shadraw.Base.{
  pos, String, ◌≡◌, ◌≢◌, ◌↔◌, ◌⊎◌, ◌≤◌, refl, sym, ap, ◌∙◌, inl, inr, true, false, not, Option,
  none, some, List, [], ◌∷◌, Result, ok, err, str_eq, eq_iff, Bool-cases, Elem, keep, map,
}
use shadraw.Config.{
  Lib, Env, Config, or_empty, given, or_fallback, without_error, get_env, get_env_int, get_env_bool,
  config_of, load,
}
use shadraw.Config.Accepted.{IsComplete, checked-ok, checked_complete}

-- A variable that has to be there: its value without the spaces around it, and that is not empty.
abbrev pub Required : Lib → Option String → String → Type 0
Required lib variable value =
    (text : String) × (variable ≡ some text) × (lib.trim_space text ≡ value) × (value ≢ "")

abbrev pub IsMissing : Option String → Type 0
IsMissing variable = (variable ≡ none) ⊎ (variable ≡ some "")

-- A variable with a default.
abbrev pub IsGiven : Option String → String → String → Type 0
IsGiven variable default value =
    ((text : String) → variable ≡ some text → text ≢ "" → value ≡ text)
    × (IsMissing variable → value ≡ default)

-- One whose text is read as a value, with a default also for a text that cannot be read.
abbrev pub IsParsed : {A : Type 0} → (String → Result String A) → Option String → A → A → Type 0
IsParsed parse variable default value =
    ((text : String)
      → variable ≡ some text
      → text ≢ ""
      → ((a : _) → parse text ≡ ok a → value ≡ a)
        × ((e : String) → parse text ≡ err e → value ≡ default))
    × (IsMissing variable → value ≡ default)

-- The origins are the parts between commas that are not blank.
abbrev pub IsOrigins : Lib → String → List String → Type 0
IsOrigins lib v origins =
    (o : String)
    → Elem o origins
      ↔ ((part : String) × Elem part (lib.split v ",") × (lib.trim_space part ≡ o) × (o ≢ ""))

-- The configuration of an environment.
pub record IsLoaded (lib : Lib) (env : Env) (cfg : Config) : Type 0 where
  pub db_dsn : Required lib (env "DB_DSN") cfg.db_dsn
  pub jwt_secret : Required lib (env "JWT_SECRET") cfg.jwt_secret
  pub admin_email : Required lib (env "ADMIN_EMAIL") cfg.admin_email
  pub master_key : Required lib (env "MASTER_KEY") cfg.master_key
  pub long_secret : 32 ≤ lib.byte_length cfg.jwt_secret
  pub port : IsParsed lib.atoi (env "PORT") (pos 8080) cfg.port
  pub log_level : IsGiven (env "LOG_LEVEL") "info" cfg.log_level
  pub data_dir : IsGiven (env "DATA_DIR") "./data" cfg.data_dir
  pub s3_region : IsGiven (env "S3_REGION") "us-east-1" cfg.s3_region
  pub s3_use_path_style :
      IsParsed lib.parse_bool (env "S3_USE_PATH_STYLE") true cfg.s3_use_path_style
  pub cors_origins :
      (v : String) × IsGiven (env "CORS_ORIGINS") "http://localhost:3000" v
      × IsOrigins lib v cfg.cors_origins
  pub driver :
      (v : String) × IsGiven (env "BLOB_DRIVER") "local" v × (lib.to_lower v ≡ cfg.blob_driver)
  pub store :
      (cfg.blob_driver ≡ "local")
      ⊎ ((cfg.blob_driver ≡ "s3")
          × Required lib (env "S3_ENDPOINT") cfg.s3_endpoint
          × Required lib (env "S3_BUCKET") cfg.s3_bucket
          × Required lib (env "S3_ACCESS_KEY_ID") cfg.s3_access_key
          × Required lib (env "S3_SECRET_ACCESS_KEY") cfg.s3_secret_key)

abbrev pub Has : Lib → Option String → Type 0
Has lib variable = (value : String) × Required lib variable value

-- What the variables have to be.
pub record IsAccepted (lib : Lib) (env : Env) : Type 0 where
  pub db_dsn : Has lib (env "DB_DSN")
  pub jwt_secret :
      (secret : String) × Required lib (env "JWT_SECRET") secret × (32 ≤ lib.byte_length secret)
  pub admin_email : Has lib (env "ADMIN_EMAIL")
  pub master_key : Has lib (env "MASTER_KEY")
  pub store :
      (v : String) × IsGiven (env "BLOB_DRIVER") "local" v
      × ((lib.to_lower v ≡ "local")
          ⊎ ((lib.to_lower v ≡ "s3")
              × Has lib (env "S3_ENDPOINT")
              × Has lib (env "S3_BUCKET")
              × Has lib (env "S3_ACCESS_KEY_ID")
              × Has lib (env "S3_SECRET_ACCESS_KEY")))

unlike : (a b : String) → str_eq a b ≡ false → a ≢ b
unlike a b e same = absurd (cc (e, (eq_iff a b).1 same))

fallback-IsGiven :
    (o : Option String) (default : String) → IsGiven o default (or_fallback some default (given o))
fallback-IsGiven none default = ((λ text e. cc), (λ m. refl))
fallback-IsGiven (some v) default = elim (Bool-cases (str_eq v "")) [
  | inl e ↦ rw e (
    (λ text same ne. absurd (let here : v ≡ text = cc in ne (sym here ∙ (eq_iff v "").0 e))),
    (λ m. refl),
  )
  | inr e ↦ rw e (
    (λ text same ne. cc),
    (λ m. elim m [
      | inl no_text ↦ cc
      | inr empty ↦ absurd (let here : v ≡ "" = cc in unlike v "" e here)
    ]),
  )
]

-- A setting has one value.
IsGiven-fallback :
    (o : Option String) (default value : String)
    → IsGiven o default value
    → or_fallback some default (given o) ≡ value
IsGiven-fallback none default value s = sym (s.1 (inl refl))
IsGiven-fallback (some v) default value s = elim (Bool-cases (str_eq v "")) [
  | inl e ↦ rw e (sym (s.1 (inr (ap (λ t. some t) ((eq_iff v "").0 e)))))
  | inr e ↦ rw e (sym (s.0 v refl (unlike v "" e)))
]

fallback-IsParsed :
    {A : Type 0} (parse : String → Result String A) (o : Option String) (default : A)
    → IsParsed parse o default (or_fallback (λ v. without_error (parse v)) default (given o))
fallback-IsParsed parse none default = ((λ text e. cc), (λ m. refl))
fallback-IsParsed parse (some v) default = elim (Bool-cases (str_eq v "")) [
  | inl e ↦ rw e (
    (λ text same ne. absurd (let here : v ≡ text = cc in ne (sym here ∙ (eq_iff v "").0 e))),
    (λ m. refl),
  )
  | inr e ↦ rw e (
    (λ text same ne.
        let here : v ≡ text = cc in
        rw here
          ((λ a read. rw (or_fallback, read) refl), (λ x failed. rw (or_fallback, failed) refl))),
    (λ m. elim m [
      | inl no_text ↦ cc
      | inr empty ↦ absurd (let here : v ≡ "" = cc in unlike v "" e here)
    ]),
  )
]

module _ (lib : Lib) where
  trimmed-Required :
      (o : Option String)
      → lib.trim_space (or_empty o) ≢ ""
      → Required lib o (lib.trim_space (or_empty o))
  trimmed-Required none ne = absurd (ne lib.trim_empty)
  trimmed-Required (some v) ne = (v, refl, refl, ne)

  Required-trimmed :
      (o : Option String) {value : String}
      → Required lib o value
      → lib.trim_space (or_empty o) ≡ value
  Required-trimmed o (text, same, trimmed, ne) = rw same trimmed

  fallback-Required :
      (o : Option String)
      → lib.trim_space (or_fallback some "" (given o)) ≢ ""
      → Required lib o (lib.trim_space (or_fallback some "" (given o)))
  fallback-Required none = λ ne. absurd (ne lib.trim_empty)
  fallback-Required (some v) = elim (Bool-cases (str_eq v "")) [
    | inl e ↦ rw e (λ ne. absurd (ne lib.trim_empty))
    | inr e ↦ rw e (λ ne. (v, refl, refl, ne))
  ]

  Required-fallback :
      (o : Option String) {value : String}
      → Required lib o value
      → lib.trim_space (or_fallback some "" (given o)) ≡ value
  Required-fallback none (text, same, trimmed, ne) = cc
  Required-fallback (some v) {value} (text, same, trimmed, ne) =
      let here : v ≡ text = cc in
      elim (Bool-cases (str_eq v "")) [
        | inl e ↦
            absurd
              (ne (sym trimmed ∙ ap lib.trim_space (sym here ∙ (eq_iff v "").0 e) ∙ lib.trim_empty))
        | inr e ↦ rw e (ap lib.trim_space here ∙ trimmed)
      ]

  origins-IsOrigins :
      (l : List String) (o : String)
      → Elem o (keep (λ x. not (str_eq x "")) (map lib.trim_space l))
        ↔ ((part : String) × Elem part l × (lib.trim_space part ≡ o) × (o ≢ ""))
  origins-IsOrigins [] o = ((λ m. absurd m), (λ (part, m, _, _). absurd m))
  origins-IsOrigins (x ∷ l) o = elim (Bool-cases (str_eq (lib.trim_space x) "")) [
    | inl e ↦ rw e (
      (λ m.
          let (part, listed, same, ne) = (origins-IsOrigins l o).0 m in
          (part, inr listed, same, ne)),
      (λ (part, listed, same, ne). elim listed [
        | inl here ↦
            let same_part : lib.trim_space part ≡ lib.trim_space x = ap lib.trim_space (sym here) in
            let blank : lib.trim_space x ≡ "" = (eq_iff (lib.trim_space x) "").0 e in
            absurd (ne (sym same ∙ same_part ∙ blank))
        | inr later ↦ (origins-IsOrigins l o).1 (part, later, same, ne)
      ]),
    )
    | inr e ↦ rw e (
      (λ m. elim m [
        | inl here ↦ (x, inl refl, here, (λ empty. unlike (lib.trim_space x) "" e (here ∙ empty)))
        | inr later ↦
            let (part, listed, same, ne) = (origins-IsOrigins l o).0 later in
            (part, inr listed, same, ne)
      ]),
      (λ (part, listed, same, ne). elim listed [
        | inl here ↦ inl (ap lib.trim_space here ∙ same)
        | inr later ↦ inr ((origins-IsOrigins l o).1 (part, later, same, ne))
      ]),
    )
  ]

  config_of-IsLoaded :
      (env : Env) → IsComplete lib (config_of lib env) → IsLoaded lib env (config_of lib env)
  unfolding config_of get_env get_env_int get_env_bool
  config_of-IsLoaded env c =
      let (dsn, (secret, (email, (master, _)))) = c.has_required in
      record {
        db_dsn = trimmed-Required (env "DB_DSN") dsn;
        jwt_secret = trimmed-Required (env "JWT_SECRET") secret;
        admin_email = trimmed-Required (env "ADMIN_EMAIL") email;
        master_key = trimmed-Required (env "MASTER_KEY") master;
        long_secret = c.has_secret;
        port = fallback-IsParsed lib.atoi (env "PORT") (pos 8080);
        log_level = fallback-IsGiven (env "LOG_LEVEL") "info";
        data_dir = fallback-IsGiven (env "DATA_DIR") "./data";
        s3_region = fallback-IsGiven (env "S3_REGION") "us-east-1";
        s3_use_path_style = fallback-IsParsed lib.parse_bool (env "S3_USE_PATH_STYLE") true;
        cors_origins = (
          get_env env "CORS_ORIGINS" "http://localhost:3000",
          fallback-IsGiven (env "CORS_ORIGINS") "http://localhost:3000",
          origins-IsOrigins (lib.split (get_env env "CORS_ORIGINS" "http://localhost:3000") ","),
        );
        driver =
            (get_env env "BLOB_DRIVER" "local", fallback-IsGiven (env "BLOB_DRIVER") "local", refl);
        store = elim c.has_driver [
          | inl local ↦ inl local
          | inr (s3, (endpoint, (bucket, (access, (secret_key, _))))) ↦ inr (
            s3,
            fallback-Required (env "S3_ENDPOINT") endpoint,
            fallback-Required (env "S3_BUCKET") bucket,
            fallback-Required (env "S3_ACCESS_KEY_ID") access,
            fallback-Required (env "S3_SECRET_ACCESS_KEY") secret_key,
          )
        ];
      }

  present : (o : Option String) → Has lib o → lib.trim_space (or_empty o) ≢ ""
  present o (value, r) = rw (Required-trimmed o r) r.3

  present_s3 : (o : Option String) → Has lib o → lib.trim_space (or_fallback some "" (given o)) ≢ ""
  present_s3 o (value, r) = rw (Required-fallback o r) r.3

  config_of-IsComplete : (env : Env) → IsAccepted lib env → IsComplete lib (config_of lib env)
  unfolding config_of get_env get_env_int get_env_bool
  config_of-IsComplete env a =
      let (secret, secret_set, long) = a.jwt_secret in
      let (v, chosen, store) = a.store in
      record {
        has_required = (
          present (env "DB_DSN") a.db_dsn,
          (
            present (env "JWT_SECRET") (secret, secret_set),
            (
              present (env "ADMIN_EMAIL") a.admin_email,
              (present (env "MASTER_KEY") a.master_key, tt),
            ),
          ),
        );
        has_secret = rw (Required-trimmed (env "JWT_SECRET") secret_set) long;
        has_driver = rw (IsGiven-fallback (env "BLOB_DRIVER") "local" v chosen) (elim store [
          | inl local ↦ inl local
          | inr (s3, endpoint, bucket, access, secret_key) ↦ inr (
            s3,
            (
              present_s3 (env "S3_ENDPOINT") endpoint,
              (
                present_s3 (env "S3_BUCKET") bucket,
                (
                  present_s3 (env "S3_ACCESS_KEY_ID") access,
                  (present_s3 (env "S3_SECRET_ACCESS_KEY") secret_key, tt),
                ),
              ),
            ),
          )
        ]);
      }

-- A configuration that loads has the values of the variables, or the defaults, and they are enough for
-- the chosen store of blobs; and if the required variables are set, the secret has 32 bytes, and the
-- store is known and has its variables, then a configuration loads.
pub load-IsLoaded :
    (lib : Lib) (env : Env)
    → ((cfg : Config) → load lib env ≡ ok cfg → IsLoaded lib env cfg)
      × (IsAccepted lib env → (cfg : Config) × (load lib env ≡ ok cfg))
unfolding load
load-IsLoaded lib env = (
  (λ cfg h.
      let (complete, same) = checked-ok lib (config_of lib env) cfg h in
      rw same (config_of-IsLoaded lib env complete)),
  (λ a. (
    config_of lib env,
    checked_complete lib (config_of lib env) (config_of-IsComplete lib env a),
  )),
)
