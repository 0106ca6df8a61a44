-- ===== src/Config/Accepted.antt =====
-- Which environments give a configuration.
use shadraw.Base.{
  ℕ, String, ◌≡◌, ◌≢◌, ◌⊎◌, ◌≤◌, refl, ◌∙◌, inl, inr, Bool, true, false, not, ◌&&◌, List, [], ◌∷◌,
  Result, ok, err, str_eq, eq_iff, ltb, if◌then◌else◌, Bool-cases, arith, All,
}
use shadraw.Config.{
  Lib, Config, missing, refuse_missing, required, s3_required, s3_missing, checked,
}

-- The required variables are not empty, the secret has 32 bytes, and the driver is known; the
-- driver s3 has its variables too.
pub record IsComplete (lib : Lib) (cfg : Config) : Type 0 where
  pub has_required : All (λ p. p.1 ≢ "") (required cfg)
  pub has_secret : 32 ≤ lib.byte_length cfg.jwt_secret
  pub has_driver :
      (cfg.blob_driver ≡ "local")
      ⊎ ((cfg.blob_driver ≡ "s3") × All (λ p. p.1 ≢ "") (s3_required cfg))

missing-none : (l : List (String × String)) → missing l ≡ [] → All (λ p. p.1 ≢ "") l
missing-none [] e = tt
missing-none ((key, value) ∷ rest) e = elim (Bool-cases (str_eq value "")) [
  | inl empty ↦ absurd (let found : key ∷ missing rest ≡ [] = rw empty at e in cc)
  | inr full ↦
      (λ same. absurd (cc (full, (eq_iff value "").1 same)), missing-none rest (rw full at e))
]

none-missing : (l : List (String × String)) → All (λ p. p.1 ≢ "") l → missing l ≡ []
none-missing [] all = refl
none-missing ((key, value) ∷ rest) (ne, all) = elim (Bool-cases (str_eq value "")) [
  | inl empty ↦ absurd (ne ((eq_iff value "").0 empty))
  | inr full ↦ rw full (none-missing rest all)
]

refuse_missing-ok :
    (lib : Lib) (text : String) (keys : List String) (next : Result String Config) (cfg : Config)
    → refuse_missing lib text keys next ≡ ok cfg
    → (keys ≡ []) × (next ≡ ok cfg)
refuse_missing-ok lib text [] next cfg h = (refl, h)
refuse_missing-ok lib text (key ∷ keys) next cfg h = cc

none_refused :
    (lib : Lib) (text : String) (keys : List String) (next : Result String Config)
    → keys ≡ []
    → refuse_missing lib text keys next ≡ next
none_refused lib text keys next e = rw e refl

refused_if :
    (b : Bool) (text : String) (next : Result String Config) (cfg : Config)
    → (if b then err text else next) ≡ ok cfg
    → (b ≡ false) × (next ≡ ok cfg)
refused_if false text next cfg h = (refl, h)
refused_if true text next cfg h = cc

ltb-≤ : (a b : ℕ) → ltb a b ≡ false → b ≤ a
ltb-≤ a b h = ground arith

≤-ltb : (a b : ℕ) → b ≤ a → ltb a b ≡ false
≤-ltb a b h = ground arith

known_driver :
    (driver : String)
    → (not (str_eq driver "local") && not (str_eq driver "s3")) ≡ false
    → (driver ≡ "local") ⊎ (driver ≡ "s3")
known_driver driver h = elim (Bool-cases (str_eq driver "local")) [
  | inl e ↦ inl ((eq_iff driver "local").0 e)
  | inr e ↦ elim (Bool-cases (str_eq driver "s3")) [
    | inl e' ↦ inr ((eq_iff driver "s3").0 e')
    | inr e' ↦ absurd (let contrary : true ≡ false = rw (e, e') at h in cc)
  ]
]

pub checked-ok :
    (lib : Lib) (cfg loaded : Config)
    → checked lib cfg ≡ ok loaded
    → IsComplete lib cfg × (loaded ≡ cfg)
unfolding checked
checked-ok lib cfg loaded h =
    let (present, h2) = refuse_missing-ok lib "missing required env: " _ _ loaded h in
    let (long, h3) = refused_if _ _ _ loaded h2 in
    let (known, h4) = refused_if _ _ _ loaded h3 in
    let (s3_present, done) =
      refuse_missing-ok lib "missing required s3 env: " (s3_missing cfg) (ok cfg) loaded h4 in
    (
      record {
        has_required = missing-none (required cfg) present;
        has_secret = ltb-≤ (lib.byte_length cfg.jwt_secret) 32 long;
        has_driver = elim (known_driver cfg.blob_driver known) [
          | inl e ↦ inl e
          | inr e ↦ inr (
            e,
            missing-none (s3_required cfg) (rw ((eq_iff cfg.blob_driver "s3").1 e) at s3_present),
          )
        ];
      },
      (let same : ◌≡◌ {A = Result String Config} (ok cfg) (ok loaded) = done in cc),
    )

s3_missing-none : (lib : Lib) (cfg : Config) → IsComplete lib cfg → s3_missing cfg ≡ []
s3_missing-none lib cfg c = elim c.has_driver [
  | inl e ↦ rw e refl
  | inr (e, all) ↦ rw e (none-missing (s3_required cfg) all)
]

driver_accepted :
    (lib : Lib) (cfg : Config)
    → IsComplete lib cfg
    → (not (str_eq cfg.blob_driver "local") && not (str_eq cfg.blob_driver "s3")) ≡ false
driver_accepted lib cfg c = elim c.has_driver [ inl e ↦ rw e refl | inr (e, _) ↦ rw e refl ]

pub checked_complete : (lib : Lib) (cfg : Config) → IsComplete lib cfg → checked lib cfg ≡ ok cfg
unfolding checked
checked_complete lib cfg c =
    none_refused lib "missing required env: " (missing (required cfg)) _
      (none-missing (required cfg) c.has_required)
    ∙ (rw
        (
          ≤-ltb (lib.byte_length cfg.jwt_secret) 32 c.has_secret,
          driver_accepted lib cfg c,
          s3_missing-none lib cfg c,
        )
        refl)
