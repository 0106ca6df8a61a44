-- ===== src/Admin/Loading.antt =====
-- What loading the configuration leaves in memory.
use shadraw.Base.{
  ◌≡◌, refl, ap, true, inl, inr, List, [], ◌∷◌, String, Result, ok, err, arith, Elem, All, count,
}
use shadraw.Table.{DbError, record_not_found, fault, Table, Takes, Creates}
use shadraw.Table.Rows.{All-append, All-mono}
use shadraw.Table.Keys.{Distinct, same_row}
use shadraw.Crypto
use shadraw.Crypto.{Bytes, Aead}
use shadraw.Admin
use shadraw.Admin.{
  UpstreamConfig, key, Fills, Error, Cache, Text, is_row, UpdateUpstreamArgs, set_upstream,
  set_concurrency, set_title, decrypted, sealed_key, saved, clamp, site_title_or_default,
}
use shadraw.Admin.Coherence.{IsCoherent}

all_of :
    {P : UpstreamConfig → Type 0} (rows : List UpstreamConfig)
    → ((r : UpstreamConfig) → Elem r rows → P r)
    → All P rows
all_of [] h = tt
all_of (r ∷ rest) h = (h r (inl refl), all_of rest (λ x m. h x (inr m)))

module _ (text : Text) {Db : Type 0} (configs : Table Db UpstreamConfig key Fills)
    (aead : Aead) where
  open configs use {rows}

  loaded-IsCoherent :
      (row : UpstreamConfig) (d : Db) {c : Cache}
      → All (λ x. is_row x ≡ true → x ≡ row) (rows d)
      → Admin.loaded text configs aead row (decrypted text aead row.api_key_cipher) ≡ ok c
      → IsCoherent text aead (rows d) c
  loaded-IsCoherent row d {c} only e = go (decrypted text aead row.api_key_cipher) refl e
    where
      go :
          (out : Result Crypto.Error String)
          → decrypted text aead row.api_key_cipher ≡ out
          → Admin.loaded text configs aead row out ≡ ok c
          → IsCoherent text aead (rows d) c
      go (err x) f h = cc
      go (ok plain) f h =
          let same : record { cached = Admin.with_title text row; api_key = plain } ≡ c = cc in
          rw (← same) (record {
            agrees =
                All-mono _ _ (rows d) only (λ x k found.
                  rw (k found) (record { base = refl; cipher = refl; models = refl }));
            hides = f;
          })

  taken-IsCoherent :
      (d : Db) (out : Result DbError UpstreamConfig) {c : Cache}
      → Distinct key (rows d)
      → Takes rows is_row d out
      → (Admin.load_row text configs aead out d).0 ≡ ok c
      → IsCoherent text aead (rows d) c
  unfolding Admin.load_row
  taken-IsCoherent d (err x) h t e = cc
  taken-IsCoherent d (ok row) h (m, found) e =
      loaded-IsCoherent row d
        (all_of (rows d) (λ x listed same. same_row key x row (rows d) h listed m (ground arith))) e

  load_row_state :
      (out : Result DbError UpstreamConfig) (d : Db)
      → (Admin.load_row text configs aead out d).1 ≡ d
  unfolding Admin.load_row
  load_row_state (ok row) d = refl
  load_row_state (err e) d = refl

  seeded-IsCoherent :
      (d : Db) (out : Result DbError UpstreamConfig × Db) {c : Cache}
      → count is_row (rows d) ≡ 0
      → Creates rows key Fills Admin.seed_row d out
      → (Admin.load_row text configs aead out.0 out.1).0 ≡ ok c
      → IsCoherent text aead (rows out.1) c
  unfolding Admin.load_row
  seeded-IsCoherent d (err x, d') none_yet k e = cc
  seeded-IsCoherent d (ok row, d') none_yet (added, filled, fresh, positive) e =
      loaded-IsCoherent row d'
        (rw added (All-append _ (rows d) _ (absent (rows d) none_yet) ((λ found. refl), tt))) e
    where
      absent :
          (xs : List UpstreamConfig) → count is_row xs ≡ 0 → All (λ x. is_row x ≡ true → x ≡ row) xs
      absent [] z = tt
      absent (x ∷ xs) z = ((λ found. absurd (ground arith)), absent xs (ground arith))

  -- In a table with distinct ids, `Load` leaves a copy that agrees with the stored row, also when it
  -- had to seed it, and the key that the row's cipher hides.
  pub load-IsCoherent :
      (d : Db) {c : Cache} {d' : Db}
      → Distinct key (rows d)
      → Admin.load text configs aead d ≡ (ok c, d')
      → IsCoherent text aead (rows d') c
  unfolding Admin.load Admin.load_taken
  load-IsCoherent d {c} {d'} h e = go (configs.take is_row d) (configs.take_law is_row d) e
    where
      go :
          (out : Result DbError UpstreamConfig)
          → Takes rows is_row d out
          → Admin.load_taken text configs aead out d ≡ (ok c, d')
          → IsCoherent text aead (rows d') c
      go (err record_not_found) t k =
          let made = configs.create Admin.seed_row d in
          let state = ap (λ r. r.1) k in
          rw (← state, load_row_state made.0 made.1)
            (seeded-IsCoherent d made t (configs.create_law Admin.seed_row d) (ap (λ r. r.0) k))
      go (err (fault x)) t k = cc
      go (ok row) t k = rw (← ap (λ r. r.1) k) (taken-IsCoherent d (ok row) h t (ap (λ r. r.0) k))
