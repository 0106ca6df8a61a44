-- ===== src/Admin/Races.antt =====
-- Two changes of the concurrency that overlap.
use shadraw.Base.{ℕ, ◌≡◌, Bool, true, List, ok, All}
use shadraw.Table.{Table}
use shadraw.Crypto.{Aead}
use shadraw.Admin
use shadraw.Admin.{UpstreamConfig, key, Fills, Text, is_row}
use shadraw.Admin.Reach.{Reach}

module _ (text : Text) {Db : Type 0} (configs : Table Db UpstreamConfig key Fills)
    (aead : Aead) where
  open configs use {rows}

  -- Every update gets through.
  abbrev pub Answers : Type 0
  Answers =
      (p : UpstreamConfig → Bool) (f : UpstreamConfig → UpstreamConfig) (d : Db)
      → (n : ℕ) × ((configs.update p f d).0 ≡ ok n)

  abbrev pub HasConcurrency : ℕ → List UpstreamConfig → Type 0
  HasConcurrency n l = All (λ row. is_row row ≡ true → row.worker_concurrency ≡ n) l
