-- ===== src/Table/Rows.antt =====
-- Facts about the rows that a statement leaves.
use shadraw.Base.{
  ◌<◌, ◌≡◌, refl, Bool, true, List, ◌++◌, [], ◌∷◌, inl, inr, arith, count, keep, update_where, Elem,
  All, if◌then◌else◌, Bool-cases,
}

module _ {Row : Type 0} where
  pub All-elem : (P : Row → Type 0) (a : Row) (xs : List Row) → All P xs → Elem a xs → P a
  All-elem P a [] h m = absurd m
  All-elem P a (x ∷ xs) h (inl e) = rw (← e) h.0
  All-elem P a (x ∷ xs) h (inr m) = All-elem P a xs h.1 m

  pub All-append : (P : Row → Type 0) (xs ys : List Row) → All P xs → All P ys → All P (xs ++ ys)
  All-append P [] ys hx hy = hy
  All-append P (x ∷ xs) ys hx hy = (hx.0, All-append P xs ys hx.1 hy)

  pub All-mono :
      (P Q : Row → Type 0) (xs : List Row) → All P xs → ((r : Row) → P r → Q r) → All Q xs
  All-mono P Q [] h k = tt
  All-mono P Q (x ∷ xs) h k = (k x h.0, All-mono P Q xs h.1 k)

  -- A statement keeps a property of all rows if it keeps it on the rows that it matches.
  pub All-update_where :
      (P : Row → Type 0) (p : Row → Bool) (f : Row → Row) (xs : List Row)
      → All P xs
      → ((r : Row) → p r ≡ true → P r → P (f r))
      → All P (update_where p f xs)
  All-update_where P p f [] h k = tt
  All-update_where P p f (x ∷ xs) h k =
      let rest = All-update_where P p f xs h.1 k in
      elim (Bool-cases (p x)) [ inl e ↦ rw e (k x e h.0, rest) | inr e ↦ rw e (h.0, rest) ]

  -- It establishes a property if the matching rows get it and the others have it.
  pub All-updated :
      (P : Row → Type 0) (p : Row → Bool) (f : Row → Row) (xs : List Row)
      → ((r : Row) → Elem r xs → P (if p r then f r else r))
      → All P (update_where p f xs)
  All-updated P p f [] k = tt
  All-updated P p f (x ∷ xs) k = (k x (inl refl), All-updated P p f xs (λ r m. k r (inr m)))

  pub All-keep : (P : Row → Type 0) (p : Row → Bool) (xs : List Row) → All P xs → All P (keep p xs)
  All-keep P p [] h = tt
  All-keep P p (x ∷ xs) h = elim (Bool-cases (p x)) [
    | inl e ↦ rw e (h.0, All-keep P p xs h.1)
    | inr e ↦ rw e (All-keep P p xs h.1)
  ]

  pub count-pos_of_Elem :
      (p : Row → Bool) (a : Row) (xs : List Row) → Elem a xs → p a ≡ true → 0 < count p xs
  count-pos_of_Elem p a [] m h = absurd m
  count-pos_of_Elem p a (x ∷ xs) (inl e) h = rw (e, h) (omega arith)
  count-pos_of_Elem p a (x ∷ xs) (inr m) h = omega (arith, count-pos_of_Elem p a xs m h)

  pub Elem-update_where :
      (p : Row → Bool) (f : Row → Row) (a : Row) (xs : List Row)
      → Elem a xs
      → Elem (if p a then f a else a) (update_where p f xs)
  Elem-update_where p f a [] m = absurd m
  Elem-update_where p f a (x ∷ xs) (inl e) = inl (rw e refl)
  Elem-update_where p f a (x ∷ xs) (inr m) = inr (Elem-update_where p f a xs m)

  -- No row matches: nothing changes.
  pub update_where_none :
      (p : Row → Bool) (f : Row → Row) (xs : List Row) → count p xs ≡ 0 → update_where p f xs ≡ xs
  update_where_none p f [] h = refl
  update_where_none p f (x ∷ xs) h = elim (Bool-cases (p x)) [
    | inl e ↦ absurd (omega (arith, (rw e at h)))
    | inr e ↦ rw (e, update_where_none p f xs (omega (arith, (rw e at h))))
  ]

  pub All-keep_mono :
      (P Q : Row → Type 0) (p : Row → Bool) (xs : List Row)
      → All P xs
      → ((r : Row) → p r ≡ true → P r → Q r)
      → All Q (keep p xs)
  All-keep_mono P Q p [] h k = tt
  All-keep_mono P Q p (x ∷ xs) h k = elim (Bool-cases (p x)) [
    | inl e ↦ rw e (k x e h.0, All-keep_mono P Q p xs h.1 k)
    | inr e ↦ rw e (All-keep_mono P Q p xs h.1 k)
  ]

  pub count_none : (p : Row → Bool) (xs : List Row) → All (λ x. ¬ (p x ≡ true)) xs → count p xs ≡ 0
  count_none p [] h = refl
  count_none p (x ∷ xs) h = ground (arith, count_none p xs h.1)

  pub All-with-Elem : (xs : List Row) (P : Row → Type 0) → All P xs → All (λ r. Elem r xs × P r) xs
  All-with-Elem [] P h = tt
  All-with-Elem (x ∷ xs) P h = (
    (inl refl, h.0),
    All-mono (λ r. Elem r xs × P r) (λ r. Elem r (x ∷ xs) × P r) xs (All-with-Elem xs P h.1)
        (λ r m. (inr m.0, m.1)),
  )
