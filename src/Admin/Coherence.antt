-- ===== src/Admin/Coherence.antt =====
-- The copy in memory agrees with the stored row, whichever operation ran and whatever it returned.
use shadraw.Base.{
  ℕ, ◌≡◌, refl, ap, ◌∙◌, Bool, true, false, inl, inr, Option, none, some, List, [], ◌∷◌, String,
  Result, ok, err, str_eq, arith, ltb, ◌<◌, All, length, if◌then◌else◌, Bool-cases,
}
use shadraw.Table.{DbError, Table, Updates}
use shadraw.Table.Rows.{All-updated, All-elem}
use shadraw.Crypto
use shadraw.Crypto.{Bytes, Aead}
use shadraw.Crypto.RoundTrip.{encrypt-decrypt}
use shadraw.Admin
use shadraw.Admin.{
  UpstreamConfig, key, Fills, Error, Cache, Text, is_row, UpdateUpstreamArgs, set_upstream,
  set_concurrency, set_title, decrypted, sealed_key, saved, clamp, site_title_or_default,
}

-- What the calls of the API and the list of the models rest on.
pub record Agrees (c row : UpstreamConfig) : Type 0 where
  pub base : row.base_url ≡ c.base_url
  pub cipher : row.api_key_cipher ≡ c.api_key_cipher
  pub models : row.enabled_models ≡ c.enabled_models

-- The cache agrees with the row, and its key is the one that the row's cipher hides.
pub record IsCoherent (text : Text) (aead : Aead) (rows : List UpstreamConfig) (c : Cache)
    : Type 0 where
  pub agrees : All (λ row. is_row row ≡ true → Agrees c.cached row) rows
  pub hides : decrypted text aead c.cached.api_key_cipher ≡ ok c.api_key

-- The cache after an operation: the new one, or after an error the old one.
abbrev pub current : Cache → Result Error Cache → Cache
current c (ok c') = c'
current c (err e) = c

module _ (text : Text) {Db : Type 0} (configs : Table Db UpstreamConfig key Fills)
    (aead : Aead) where
  open configs use {rows}

  -- One assignment to the row and one to the cache.
  saved-IsCoherent :
      (f : UpstreamConfig → UpstreamConfig) (c c' : Cache) (d : Db) (out : Result DbError ℕ × Db)
      → Updates rows is_row f d out
      → ((row : UpstreamConfig) → Agrees c.cached row → Agrees c'.cached (f row))
      → decrypted text aead c'.cached.api_key_cipher ≡ ok c'.api_key
      → ((row : UpstreamConfig) → (f row).id ≡ row.id)
      → IsCoherent text aead (rows d) c
      → IsCoherent text aead
          (rows (saved text configs aead c' out).1)
          (current c (saved text configs aead c' out).0)
  saved-IsCoherent f c c' d (err e, d') u agree hides same h = rw u h
  saved-IsCoherent f c c' d (ok n, d') u agree hides same h = record {
    agrees = rw u.0 (
        All-updated (λ row. is_row row ≡ true → Agrees c'.cached row) is_row f (rows d)
          (λ row m. one row (is_row row) refl (All-elem _ row (rows d) h.agrees m)));
    hides = hides;
  }
    where
      one :
          (row : UpstreamConfig) (b : Bool)
          → is_row row ≡ b
          → (is_row row ≡ true → Agrees c.cached row)
          → is_row (if b then f row else row) ≡ true
          → Agrees c'.cached (if b then f row else row)
      one row true e k found = agree row (k e)
      one row false e k found = absurd (cc (e, found))

  -- A statement that keeps what the copy rests on.
  pub written-IsCoherent :
      (f : UpstreamConfig → UpstreamConfig) (c : Cache) (d : Db) (out : Result DbError ℕ × Db)
      → Updates rows is_row f d out
      → ((row : UpstreamConfig) → Agrees c.cached row → Agrees c.cached (f row))
      → ((row : UpstreamConfig) → (f row).id ≡ row.id)
      → IsCoherent text aead (rows d) c
      → IsCoherent text aead (rows out.1) c
  written-IsCoherent f c d (err e, d') u agree same h =
      saved-IsCoherent f c c d (err e, d') u agree h.hides same h
  written-IsCoherent f c d (ok n, d') u agree same h =
      saved-IsCoherent f c c d (ok n, d') u agree h.hides same h

  decrypted_blob :
      (blob plain : Bytes)
      → 0 < aead.nonce_size
      → Crypto.decrypt aead blob ≡ ok plain
      → decrypted text aead blob ≡ ok (text.to_text plain)
  unfolding Crypto.decrypt
  decrypted_blob [] plain sized e =
      let short : ltb 0 aead.nonce_size ≡ true = ground arith in cc (rw short at e)
  decrypted_blob (b ∷ rest) plain sized e = ap (Admin.as_text text) e

  -- The key of an update is the one that its cipher hides.
  sealed-hides :
      (fresh : Bytes) (given : String) (out : Result Crypto.Error Bytes) {cipher : Bytes}
      {api_key : String}
      → 0 < aead.nonce_size
      → length fresh ≡ aead.nonce_size
      → Crypto.encrypt aead (ok fresh) (text.to_bytes given) ≡ out
      → sealed_key text aead (ok fresh) given out ≡ ok (cipher, api_key)
      → decrypted text aead cipher ≡ ok api_key
  sealed-hides fresh given (err e) sized size out h = cc
  sealed-hides fresh given (ok blob) {cipher} {api_key} sized size out h =
      let first : blob ≡ cipher = cc in
      let second : given ≡ api_key = cc in
      let opens = encrypt-decrypt aead fresh (text.to_bytes given) size out in
      rw (← first, ← second)
        (decrypted_blob blob (text.to_bytes given) sized opens
          ∙ ap ok (text.to_text-to_bytes given))

  next_key-hides :
      (fresh : Bytes) (given : Option String) (c : Cache) {cipher : Bytes} {api_key : String}
      → 0 < aead.nonce_size
      → length fresh ≡ aead.nonce_size
      → decrypted text aead c.cached.api_key_cipher ≡ ok c.api_key
      → Admin.next_key text aead (ok fresh) given c ≡ ok (cipher, api_key)
      → decrypted text aead cipher ≡ ok api_key
  unfolding Admin.next_key
  next_key-hides fresh none c {cipher} {api_key} sized size h e =
      let first : c.cached.api_key_cipher ≡ cipher = cc in
      let second : c.api_key ≡ api_key = cc in rw (← first, ← second) h
  next_key-hides fresh (some given) c {cipher} {api_key} sized size h e =
      elim (Bool-cases (str_eq given "")) [
        | inl empty ↦
            let cleared : ◌≡◌ {A = Result Error (Bytes × String)} (ok ([], ""))
                (ok (cipher, api_key)) =
              rw empty at e in
            let first : [] ≡ cipher = cc in
            let second : "" ≡ api_key = cc in rw (← first, ← second) refl
        | inr full ↦ sealed-hides fresh given _ sized size refl (rw full at e)
      ]

  with_key-IsCoherent :
      (a : UpdateUpstreamArgs) (c : Cache) (d : Db) (out : Result Error (Bytes × String))
      → ((cipher : Bytes) (api_key : String)
          → out ≡ ok (cipher, api_key)
          → decrypted text aead cipher ≡ ok api_key)
      → IsCoherent text aead (rows d) c
      → let r = Admin.update_with_key text configs aead a c out d in
        IsCoherent text aead (rows r.1) (current c r.0)
  unfolding Admin.update_with_key
  with_key-IsCoherent a c d (err e) hides h = h
  with_key-IsCoherent a c d (ok (cipher, api_key)) hides h =
      saved-IsCoherent (set_upstream a cipher) c _ d _ (configs.update_law is_row _ d)
        (λ row k. record { base = refl; cipher = refl; models = refl }) (hides cipher api_key refl)
        (λ row. refl) h

  -- After a change of the upstream configuration, or its failure, the copy in memory agrees with the
  -- stored row if it did before, and its key is the one that the stored cipher hides. The cipher has a
  -- nonce, and the random source gave one of its size.
  pub update_upstream-IsCoherent :
      (fresh : Bytes) (a : UpdateUpstreamArgs) (c : Cache) (d : Db)
      → 0 < aead.nonce_size
      → length fresh ≡ aead.nonce_size
      → IsCoherent text aead (rows d) c
      → let out = Admin.update_upstream text configs aead (ok fresh) a c d in
        IsCoherent text aead (rows out.1) (current c out.0)
  unfolding Admin.update_upstream
  update_upstream-IsCoherent fresh a c d sized size h =
      with_key-IsCoherent a c d (Admin.next_key text aead (ok fresh) a.api_key c)
        (λ cipher api_key e. next_key-hides fresh a.api_key c sized size h.hides e) h
