-- ===== src/Table/Memory.antt =====
-- A table in memory that meets the laws of `Table`: it shows that the laws can hold, and the tests
-- run on it. It never fails and has no other transactions. Its rows are a part of `Db`, read by
-- `get` and written by `put`.
use shadraw.Base.{
  ℕ, ◌+◌, ◌<◌, ◌≤◌, ◌≡◌, refl, Bool, true, false, not, Option, none, some, List, ◌++◌, [], ◌∷◌, inl,
  inr, arith, count, keep, update_where, All, Result, ok, err, ltb, ◌==◌, if◌then◌else◌,
}
use shadraw.Table.{
  DbError, record_not_found, Takes, Locks, Creates, CreatesUnless, Transacts, Table,
}

module _ {Row : Type 0} where
  abbrev pub first : (Row → Bool) → List Row → Result DbError Row
  first p [] = err record_not_found
  first p (x ∷ xs) = if p x then ok x else first p xs

  abbrev pub Found : (Row → Bool) → List Row → Result DbError Row → Type 0
  Found p xs r = Takes {Db = List Row} (λ d. d) p xs r

  Found-skip :
      (p : Row → Bool) (x : Row) (xs : List Row) (r : Result DbError Row)
      → p x ≡ false
      → Found p xs r
      → Found p (x ∷ xs) r
  Found-skip p x xs (ok r) e (m, h) = (inr m, h)
  Found-skip p x xs (err record_not_found) e h = rw e (omega arith)
  Found-skip p x xs (err (DbError.fault _)) e h = tt

  first-step :
      (p : Row → Bool) (x : Row) (xs : List Row) (b : Bool)
      → p x ≡ b
      → Found p xs (first p xs)
      → Found p (x ∷ xs) (if b then ok x else first p xs)
  first-step p x xs true e h = (inl refl, e)
  first-step p x xs false e h = Found-skip p x xs (first p xs) e h

  pub first-Found : (p : Row → Bool) (xs : List Row) → Found p xs (first p xs)
  first-Found p [] = refl
  first-Found p (x ∷ xs) = first-step p x xs (p x) refl (first-Found p xs)

module _ {Row : Type 0} (key : Row → ℕ) where
  abbrev pub lower : Row → Option Row → Option Row
  lower x none = some x
  lower x (some y) = if ltb (key y) (key x) then some y else some x

  -- The row with the least key among those that pass.
  abbrev pub least : (Row → Bool) → List Row → Option Row
  least p [] = none
  least p (x ∷ xs) = if p x then lower x (least p xs) else least p xs

  abbrev pub Least : (Row → Bool) → List Row → Option Row → Type 0
  Least p xs o = Locks {Db = List Row} (λ d. d) key (λ _ _. false) p xs (ok o)

  Below : (Row → Bool) → ℕ → List Row → Type 0
  Below p k xs = All (λ x. p x ≡ true → key x < k → false ≡ true) xs

  Below-le : (p : Row → Bool) (j k : ℕ) (xs : List Row) → j ≤ k → Below p k xs → Below p j xs
  unfolding Below
  Below-le p j k [] le h = tt
  Below-le p j k (x ∷ xs) le h = (λ e lt. h.0 e (omega arith), Below-le p j k xs le h.1)

  Below-none :
      (p : Row → Bool) (k : ℕ) (xs : List Row)
      → All (λ x. p x ≡ true → false ≡ true) xs
      → Below p k xs
  unfolding Below
  Below-none p k [] h = tt
  Below-none p k (x ∷ xs) h = (λ e lt. h.0 e, Below-none p k xs h.1)

  lower-Least :
      (p : Row → Bool) (x : Row) (xs : List Row) (o : Option Row)
      → p x ≡ true
      → Least p xs o
      → Least p (x ∷ xs) (lower x o)
  unfolding Below
  lower-Least p x xs none e h =
      (inl refl, e, refl, (λ q lt. absurd (omega arith), Below-none p (key x) xs h))
  lower-Least p x xs (some y) e (m, q, free, low) = go (ltb (key y) (key x)) refl
    where
      go : (b : Bool) → ltb (key y) (key x) ≡ b → Least p (x ∷ xs) (if b then some y else some x)
      go true t = (inr m, q, refl, (λ u lt. absurd (ground arith), low))
      go false t = (
        inl refl,
        e,
        refl,
        (λ u lt. absurd (omega arith), Below-le p (key x) (key y) xs (ground arith) low),
      )

  skip-Least :
      (p : Row → Bool) (x : Row) (xs : List Row) (o : Option Row)
      → p x ≡ false
      → Least p xs o
      → Least p (x ∷ xs) o
  skip-Least p x xs none e h = (λ q. cc, h)
  skip-Least p x xs (some y) e (m, q, free, low) = (inr m, q, refl, (λ u lt. cc, low))

  least-step :
      (p : Row → Bool) (x : Row) (xs : List Row) (b : Bool)
      → p x ≡ b
      → Least p xs (least p xs)
      → Least p (x ∷ xs) (if b then lower x (least p xs) else least p xs)
  least-step p x xs true e h = lower-Least p x xs (least p xs) e h
  least-step p x xs false e h = skip-Least p x xs (least p xs) e h

  pub least-Least : (p : Row → Bool) (xs : List Row) → Least p xs (least p xs)
  least-Least p [] = tt
  least-Least p (x ∷ xs) = least-step p x xs (p x) refl (least-Least p xs)

  -- A primary key that no row has.
  abbrev pub next_key : List Row → ℕ
  next_key [] = 1
  next_key (x ∷ xs) = key x + next_key xs

  next_key-pos : (xs : List Row) → 0 < next_key xs
  next_key-pos [] = omega arith
  next_key-pos (x ∷ xs) = omega (arith, next_key-pos xs)

  next_key-fresh : (k : ℕ) (xs : List Row) → next_key xs ≤ k → count (λ x. key x == k) xs ≡ 0
  next_key-fresh k [] h = refl
  next_key-fresh k (x ∷ xs) h = ground (arith, next_key-pos xs, next_key-fresh k xs)

-- `stamp` is what the database fills in on an insert, given the new primary key.
module _ {Db Row : Type 0} (key : Row → ℕ) (Fills : Row → Row → Type 0) (get : Db → List Row)
    (put : List Row → Db → Db) (get-put : (l : List Row) (d : Db) → get (put l d) ≡ l)
    (stamp : ℕ → Row → Row) (key-stamp : (n : ℕ) (r : Row) → key (stamp n r) ≡ n)
    (stamp-Fills : (n : ℕ) (r : Row) → Fills r (stamp n r)) where
  abbrev pub store : Row → Db → Result DbError Row × Db
  store given d = let r = stamp (next_key key (get d)) given in (ok r, put (get d ++ r ∷ []) d)

  pub store-Creates : (given : Row) (d : Db) → Creates get key Fills given d (store given d)
  store-Creates given d = (
    get-put _ d,
    stamp-Fills _ given,
    rw (key-stamp (next_key key (get d)) given) (next_key-fresh key _ (get d) (omega arith)),
    rw (key-stamp (next_key key (get d)) given) (next_key-pos key (get d)),
  )

  abbrev pub stored : Result DbError Row × Db → Result DbError (Option Row) × Db
  stored (ok r, d) = (ok (some r), d)
  stored (err e, d) = (err e, d)

  abbrev pub store_unless : (Row → Bool) → Row → Db → Result DbError (Option Row) × Db
  store_unless p given d = if count p (get d) == 0 then stored (store given d) else (ok none, d)

  pub store_unless-law :
      (p : Row → Bool) (given : Row) (d : Db)
      → CreatesUnless get key Fills p given d (store_unless p given d)
  store_unless-law p given d = go (count p (get d) == 0) refl
    where
      go :
          (b : Bool)
          → (count p (get d) == 0) ≡ b
          → CreatesUnless get key Fills p given d
              (if b then stored (store given d) else (ok none, d))
      go true e = (ground arith, store-Creates given d)
      go false e = (refl, ground arith)

  abbrev pub commit : Result DbError Row × Db → Db → Result DbError Row × Db
  commit (ok r, d₁) d = (ok r, d₁)
  commit (err e, d₁) d = (err e, d)

  pub commit-law : (b : Result DbError Row × Db) (d : Db) → Transacts get b d (commit b d)
  commit-law (ok r, d₁) d = (refl, refl)
  commit-law (err e, d₁) d = refl

  pub commit-error :
      (b : Result DbError Row × Db) (d : Db) (e : DbError) → b.0 ≡ err e → (commit b d).0 ≡ err e
  commit-error (ok r, d₁) d e h = cc
  commit-error (err x, d₁) d e h = h

  abbrev pub memory : Table Db Row key Fills
  memory = record {
    rows = get;
    locked = λ _ _. false;
    take = λ p d. first p (get d);
    tally = λ p d. ok (count p (get d));
    update = λ p f d. (ok (count p (get d)), put (update_where p f (get d)) d);
    delete = λ p d. (ok (count p (get d)), put (keep (λ r. not (p r)) (get d)) d);
    create = store;
    create_unless = store_unless;
    lock_first = λ p d. ok (least key p (get d));
    transaction = λ body d. commit (body d) d;
    take_law = λ p d. first-Found p (get d);
    tally_law = λ p d. refl;
    update_law = λ p f d. (get-put _ d, refl);
    delete_law = λ p d. (get-put _ d, refl);
    create_law = store-Creates;
    create_unless_law = store_unless-law;
    lock_first_law = λ p d. least-Least key p (get d);
    transaction_law = λ body d. commit-law (body d) d;
    transaction_error = λ body d e h. commit-error (body d) d e h;
  }
