-- ===== src/Admin.antt =====
-- internal/admin/store.go: the one row of the upstream configuration and its copy in memory. The
-- mutex makes `UpdateUpstream` one step; the two other updates hold it for their second half only. Go's conversions between strings and bytes and its
-- `strings.TrimSpace` are parameters; so is `resizer`, by its effect on nothing that is kept here.
mod Coherence
mod Loading
mod Reach
mod Races
mod Handler
mod Views
mod Tests
use shadraw.Base.{
  ℕ, zero, suc, String, ◌≡◌, Bool, true, false, Option, none, some, List, [], ◌∷◌, ℤ, pos, negsuc,
  Result, ok, err, ltb, ◌==◌, str_eq, if◌then◌else◌,
}
use shadraw.Table.{DbError, record_not_found, fault, Table}
use shadraw.Crypto
use shadraw.Crypto.{Bytes, Aead}
use shadraw.Upstream.{Config}

pub record UpstreamConfig : Type 0 where
  pub id : ℕ
  pub base_url : String
  -- An empty list stands for Go's nil.
  pub api_key_cipher : Bytes
  pub enabled_models : List String
  pub worker_concurrency : ℕ
  pub site_title : String
  pub updated_by : Option ℕ
  pub created_at : ℕ

abbrev pub key : UpstreamConfig → ℕ
key c = c.id

abbrev pub Fills : UpstreamConfig → UpstreamConfig → Type 0
Fills given c = c ≡ record given { id = c.id; created_at = c.created_at }

pub data Error : Type 0 where
  database : DbError → Error
  cipher_error : Crypto.Error → Error

-- `cached` and `apiKey`.
pub record Cache : Type 0 where
  pub cached : UpstreamConfig
  pub api_key : String

pub record Text : Type 0 where
  pub to_bytes : String → Bytes
  pub to_text : Bytes → String
  pub trim : String → String
  pub to_text-to_bytes : (s : String) → to_text (to_bytes s) ≡ s

abbrev pub is_row : UpstreamConfig → Bool
is_row c = c.id == 1

pub record UpdateUpstreamArgs : Type 0 where
  pub base_url : String
  pub api_key : Option String
  pub enabled_models : List String
  pub actor_id : ℕ

abbrev pub seed_row : UpstreamConfig
seed_row = record {
  id = 1;
  base_url = "";
  api_key_cipher = [];
  enabled_models = [];
  worker_concurrency = 4;
  site_title = "shadraw";
  updated_by = none;
  created_at = 0;
}

-- The assignments of the statements, which are those of the cache too.
abbrev pub set_upstream : UpdateUpstreamArgs → Bytes → UpstreamConfig → UpstreamConfig
set_upstream a cipher c = record c {
  base_url = a.base_url;
  enabled_models = a.enabled_models;
  api_key_cipher = cipher;
  updated_by = some a.actor_id;
}

abbrev pub set_concurrency : ℕ → ℕ → UpstreamConfig → UpstreamConfig
set_concurrency n actor_id c = record c { worker_concurrency = n; updated_by = some actor_id }

abbrev pub set_title : String → ℕ → UpstreamConfig → UpstreamConfig
set_title title actor_id c = record c { site_title = title; updated_by = some actor_id }

-- The bounds that `UpdateWorkerConcurrency` puts on its argument.
abbrev pub clamp : ℤ → ℕ
clamp (negsuc n) = 1
clamp (pos zero) = 1
clamp (pos (suc n)) = if ltb 16 (suc n) then 16 else suc n

module _ (text : Text) where
  abbrev pub site_title_or_default : String → String
  site_title_or_default title =
      let trimmed = text.trim title in if str_eq trimmed "" then "shadraw" else trimmed

  -- A blank title of the row is replaced in the cache only.
  abbrev pub with_title : UpstreamConfig → UpstreamConfig
  with_title c = record c {
    site_title = if str_eq (text.trim c.site_title) "" then "shadraw" else c.site_title;
  }

  abbrev pub as_text : Result Crypto.Error Bytes → Result Crypto.Error String
  as_text (ok plain) = ok (text.to_text plain)
  as_text (err e) = err e

  abbrev pub decrypted : Aead → Bytes → Result Crypto.Error String
  decrypted aead [] = ok ""
  decrypted aead (b ∷ rest) = as_text (Crypto.decrypt aead (b ∷ rest))

  -- The cipher and the key that an update of the upstream configuration stores.
  abbrev pub sealed_key :
      Aead
      → Result String Bytes
      → String
      → Result Crypto.Error Bytes
      → Result Error (Bytes × String)
  sealed_key aead fresh api_key (ok blob) = ok (blob, api_key)
  sealed_key aead fresh api_key (err e) = err (cipher_error e)

  unfoldable pub next_key :
      Aead → Result String Bytes → Option String → Cache → Result Error (Bytes × String)
  next_key aead fresh none c = ok (c.cached.api_key_cipher, c.api_key)
  next_key aead fresh (some given) c =
      if str_eq given ""
      then ok ([], "")
      else sealed_key aead fresh given (Crypto.encrypt aead fresh (text.to_bytes given))

  -- The halves of two updates that hold the mutex. The first keeps the old `UpdatedBy`.
  abbrev pub publish_concurrency : ℤ → Cache → Cache
  publish_concurrency n c = record c { cached = record c.cached { worker_concurrency = clamp n } }

  abbrev pub publish_title : String → ℕ → Cache → Cache
  publish_title given actor_id c = record c {
    cached = set_title (site_title_or_default given) actor_id c.cached;
  }

  module _ {Db : Type 0} (configs : Table Db UpstreamConfig key Fills) (aead : Aead) where
    abbrev pub loaded : UpstreamConfig → Result Crypto.Error String → Result Error Cache
    loaded row (ok plain) = ok (record { cached = with_title row; api_key = plain })
    loaded row (err e) = err (cipher_error e)

    unfoldable pub load_row : Result DbError UpstreamConfig → Db → Result Error Cache × Db
    load_row (err e) d = (err (database e), d)
    load_row (ok row) d = (loaded row (decrypted aead row.api_key_cipher), d)

    unfoldable pub load_taken : Result DbError UpstreamConfig → Db → Result Error Cache × Db
    unfolding load_row
    load_taken (err record_not_found) d =
        let out = configs.create seed_row d in load_row out.0 out.1
    load_taken out d = load_row out d

    -- The cache that `Load` fills in, or the error, after which the cache is as it was.
    unfoldable pub load : Db → Result Error Cache × Db
    unfolding load_taken
    load d = load_taken (configs.take is_row d) d

    abbrev pub saved : Cache → Result DbError ℕ × Db → Result Error Cache × Db
    saved c (ok _, d) = (ok c, d)
    saved c (err e, d) = (err (database e), d)

    unfoldable pub update_with_key :
        UpdateUpstreamArgs → Cache → Result Error (Bytes × String) → Db → Result Error Cache × Db
    update_with_key a c (err e) d = (err e, d)
    update_with_key a c (ok (cipher, api_key)) d =
        saved (record { cached = set_upstream a cipher c.cached; api_key = api_key })
          (configs.update is_row (set_upstream a cipher) d)

    unfoldable pub update_upstream :
        Result String Bytes → UpdateUpstreamArgs → Cache → Db → Result Error Cache × Db
    unfolding update_with_key next_key
    update_upstream fresh a c d = update_with_key a c (next_key aead fresh a.api_key c) d

    -- These two write to the database before they take the mutex, so that other requests may run
    -- between the two halves.
    unfoldable pub write_concurrency : ℤ → ℕ → Db → Result DbError ℕ × Db
    write_concurrency n actor_id d = configs.update is_row (set_concurrency (clamp n) actor_id) d

    unfoldable pub write_title : String → ℕ → Db → Result DbError ℕ × Db
    write_title given actor_id d =
        configs.update is_row (set_title (site_title_or_default given) actor_id) d

    unfoldable pub update_worker_concurrency : ℤ → ℕ → Cache → Db → Result Error Cache × Db
    unfolding write_concurrency
    update_worker_concurrency n actor_id c d =
        saved (publish_concurrency n c) (write_concurrency n actor_id d)

    unfoldable pub update_site_config : String → ℕ → Cache → Db → Result Error Cache × Db
    unfolding write_title
    update_site_config given actor_id c d =
        saved (publish_title given actor_id c) (write_title given actor_id d)

-- What the workers read.
unfoldable pub snapshot : Cache → Config
snapshot c = record { base_url = c.cached.base_url; api_key = c.api_key }
