-- ===== src/Table/Keys.antt =====
-- Rows with distinct primary keys.
use shadraw.Base.{
  ℕ, ◌≡◌, refl, Bool, List, ◌++◌, [], ◌∷◌, inl, inr, arith, count, keep, update_where, Elem, ◌==◌,
  Bool-cases,
}
use shadraw.Table.Rows.{count-pos_of_Elem}

module _ {Row : Type 0} (key : Row → ℕ) where
  abbrev pub has_key : ℕ → Row → Bool
  has_key k x = key x == k

  abbrev pub Distinct : List Row → Type 0
  Distinct [] = Unit
  Distinct (x ∷ xs) = (count (has_key (key x)) xs ≡ 0) × Distinct xs

  count-update_where :
      (k : ℕ) (p : Row → Bool) (f : Row → Row) (xs : List Row)
      → ((r : Row) → key (f r) ≡ key r)
      → count (has_key k) (update_where p f xs) ≡ count (has_key k) xs
  count-update_where k p f [] same = refl
  count-update_where k p f (x ∷ xs) same = ground (arith, same x, count-update_where k p f xs same)

  pub Distinct-update_where :
      (p : Row → Bool) (f : Row → Row) (xs : List Row)
      → ((r : Row) → key (f r) ≡ key r)
      → Distinct xs
      → Distinct (update_where p f xs)
  Distinct-update_where p f [] same h = tt
  Distinct-update_where p f (x ∷ xs) same h = (
    ground (arith, same x, count-update_where (key x) p f xs same),
    Distinct-update_where p f xs same h.1,
  )

  count-keep :
      (k : ℕ) (p : Row → Bool) (xs : List Row)
      → count (has_key k) xs ≡ 0
      → count (has_key k) (keep p xs) ≡ 0
  count-keep k p [] h = refl
  count-keep k p (x ∷ xs) h = ground (arith, count-keep k p xs)

  pub Distinct-keep : (p : Row → Bool) (xs : List Row) → Distinct xs → Distinct (keep p xs)
  Distinct-keep p [] h = tt
  Distinct-keep p (x ∷ xs) h = elim (Bool-cases (p x)) [
    | inl e ↦ rw e (count-keep (key x) p xs h.0, Distinct-keep p xs h.1)
    | inr e ↦ rw e (Distinct-keep p xs h.1)
  ]

  count-snoc :
      (k : ℕ) (xs : List Row) (r : Row)
      → count (has_key k) xs ≡ 0
      → (k ≡ key r → ⊥)
      → count (has_key k) (xs ++ r ∷ []) ≡ 0
  count-snoc k [] r h ne = ground arith
  count-snoc k (x ∷ xs) r h ne = ground (arith, count-snoc k xs r)

  pub Distinct-snoc :
      (xs : List Row) (r : Row)
      → Distinct xs
      → count (has_key (key r)) xs ≡ 0
      → Distinct (xs ++ r ∷ [])
  Distinct-snoc [] r h fresh = (refl, tt)
  Distinct-snoc (x ∷ xs) r h fresh =
      (count-snoc (key x) xs r h.0 (λ e. ground arith), Distinct-snoc xs r h.1 (ground arith))

  -- A primary key determines its row.
  pub same_row :
      (a b : Row) (xs : List Row) → Distinct xs → Elem a xs → Elem b xs → key a ≡ key b → a ≡ b
  same_row a b [] h m n e = absurd m
  same_row a b (x ∷ xs) h (inl m) (inl n) e = cc
  same_row a b (x ∷ xs) h (inl m) (inr n) e =
      absurd (ground (arith, count-pos_of_Elem (has_key (key x)) b xs n))
  same_row a b (x ∷ xs) h (inr m) (inl n) e =
      absurd (ground (arith, count-pos_of_Elem (has_key (key x)) a xs m))
  same_row a b (x ∷ xs) h (inr m) (inr n) e = same_row a b xs h.1 m n e
