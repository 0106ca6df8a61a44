-- ===== src/Table.antt =====
-- What the repositories use of gorm and Postgres (internal/store opens the connection): the
-- statements on one table. The database is not code of the repository, so its state `Db`, the
-- effects of the statements and their failures are parameters, with documented behaviour as laws.
pub mod Rows
pub mod Keys
pub mod Memory
use shadraw.Base.{
  ℕ, String, ◌<◌, ◌≡◌, Bool, true, false, not, Option, none, some, List, ◌++◌, [], ◌∷◌, count, keep,
  update_where, Elem, All, Result, ok, err, ◌==◌, if◌then◌else◌,
}

-- What gorm reports: its `ErrRecordNotFound`, or an error of the driver with its text.
pub data DbError : Type 0 where
  record_not_found : DbError
  fault : String → DbError

module _ {Db Row : Type 0} (rows : Db → List Row) where
  -- SELECT … WHERE … LIMIT 1 into one struct.
  abbrev pub Takes : (Row → Bool) → Db → Result DbError Row → Type 0
  Takes p d (ok r) = Elem r (rows d) × (p r ≡ true)
  Takes p d (err record_not_found) = count p (rows d) ≡ 0
  Takes p d (err (fault _)) = Unit

  -- SELECT count(*) … WHERE.
  abbrev pub Counts : (Row → Bool) → Db → Result DbError ℕ → Type 0
  Counts p d (ok n) = n ≡ count p (rows d)
  Counts p d (err _) = Unit

  -- UPDATE … SET … WHERE: the number of rows that matched, or an error and no change.
  abbrev pub Updates : (Row → Bool) → (Row → Row) → Db → Result DbError ℕ × Db → Type 0
  Updates p f d (ok n, d') = (rows d' ≡ update_where p f (rows d)) × (n ≡ count p (rows d))
  Updates p f d (err _, d') = rows d' ≡ rows d

  -- DELETE … WHERE.
  abbrev pub Deletes : (Row → Bool) → Db → Result DbError ℕ × Db → Type 0
  Deletes p d (ok n, d') = (rows d' ≡ keep (λ r. not (p r)) (rows d)) × (n ≡ count p (rows d))
  Deletes p d (err _, d') = rows d' ≡ rows d

  -- INSERT … RETURNING: the stored row has a fresh primary key, and the columns that the
  -- statement leaves out have their defaults, which `Fills` states.
  abbrev pub Creates :
      (Row → ℕ) → (Row → Row → Type 0) → Row → Db → Result DbError Row × Db → Type 0
  Creates key Fills given d (ok r, d') =
      (rows d' ≡ rows d ++ r ∷ [])
      × Fills given r
      × (count (λ x. key x == key r) (rows d) ≡ 0)
      × (0 < key r)
  Creates key Fills given d (err _, d') = rows d' ≡ rows d

  -- INSERT … ON CONFLICT DO NOTHING: nothing is stored where a row already passes the test, which
  -- stands for the unique index.
  abbrev pub CreatesUnless :
      (Row → ℕ)
      → (Row → Row → Type 0)
      → (Row → Bool)
      → Row
      → Db
      → Result DbError (Option Row) × Db
      → Type 0
  CreatesUnless key Fills p given d (ok none, d') = (rows d' ≡ rows d) × (0 < count p (rows d))
  CreatesUnless key Fills p given d (ok (some r), d') =
      (count p (rows d) ≡ 0) × Creates key Fills given d (ok r, d')
  CreatesUnless key Fills p given d (err _, d') = rows d' ≡ rows d

  -- SELECT … WHERE … ORDER BY id LIMIT 1 FOR UPDATE SKIP LOCKED: the first row that no other
  -- transaction has locked.
  abbrev pub Locks :
      (Row → ℕ) → (Db → ℕ → Bool) → (Row → Bool) → Db → Result DbError (Option Row) → Type 0
  Locks key locked p d (ok (some r)) =
      Elem r (rows d)
      × (p r ≡ true)
      × (locked d (key r) ≡ false)
      × All (λ x. p x ≡ true → key x < key r → locked d (key x) ≡ true) (rows d)
  Locks key locked p d (ok none) = All (λ x. p x ≡ true → locked d (key x) ≡ true) (rows d)
  Locks key locked p d (err _) = Unit

  -- A transaction commits what its body did, or rolls back.
  abbrev pub Transacts : Result DbError Row × Db → Db → Result DbError Row × Db → Type 0
  Transacts (b, d₁) d (ok r, d') = (b ≡ ok r) × (rows d' ≡ rows d₁)
  Transacts (b, d₁) d (err _, d') = rows d' ≡ rows d

pub record Table (Db Row : Type 0) (key : Row → ℕ) (Fills : Row → Row → Type 0) : Type 0 where
  -- The committed rows.
  pub rows : Db → List Row
  -- The rows, by primary key, that transactions in progress have locked.
  pub locked : Db → ℕ → Bool
  pub take : (Row → Bool) → Db → Result DbError Row
  pub tally : (Row → Bool) → Db → Result DbError ℕ
  pub update : (Row → Bool) → (Row → Row) → Db → Result DbError ℕ × Db
  pub delete : (Row → Bool) → Db → Result DbError ℕ × Db
  pub create : Row → Db → Result DbError Row × Db
  pub create_unless : (Row → Bool) → Row → Db → Result DbError (Option Row) × Db
  pub lock_first : (Row → Bool) → Db → Result DbError (Option Row)
  pub transaction : (Db → Result DbError Row × Db) → Db → Result DbError Row × Db
  pub take_law : (p : Row → Bool) (d : Db) → Takes rows p d (take p d)
  pub tally_law : (p : Row → Bool) (d : Db) → Counts rows p d (tally p d)
  pub update_law : (p : Row → Bool) (f : Row → Row) (d : Db) → Updates rows p f d (update p f d)
  pub delete_law : (p : Row → Bool) (d : Db) → Deletes rows p d (delete p d)
  pub create_law : (given : Row) (d : Db) → Creates rows key Fills given d (create given d)
  pub create_unless_law :
      (p : Row → Bool) (given : Row) (d : Db)
      → CreatesUnless rows key Fills p given d (create_unless p given d)
  pub lock_first_law : (p : Row → Bool) (d : Db) → Locks rows key locked p d (lock_first p d)
  pub transaction_law :
      (body : Db → Result DbError Row × Db) (d : Db)
      → Transacts rows (body d) d (transaction body d)
  -- The error of the body is the transaction's.
  pub transaction_error :
      (body : Db → Result DbError Row × Db) (d : Db) (e : DbError)
      → (body d).0 ≡ err e
      → (transaction body d).0 ≡ err e

-- The statements on one table leave the rows of another alone.
pub record Separate {Db Row Other : Type 0} {key : Row → ℕ} {Fills : Row → Row → Type 0}
    (t : Table Db Row key Fills) (others : Db → List Other) : Type 0 where
  pub update_apart :
      (p : Row → Bool) (f : Row → Row) (d : Db) → others (t.update p f d).1 ≡ others d
  pub create_apart : (given : Row) (d : Db) → others (t.create given d).1 ≡ others d
  pub create_unless_apart :
      (p : Row → Bool) (given : Row) (d : Db) → others (t.create_unless p given d).1 ≡ others d
  pub delete_apart : (p : Row → Bool) (d : Db) → others (t.delete p d).1 ≡ others d
