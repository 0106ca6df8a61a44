-- ===== src/Record/Listing/Tests.antt =====
-- Pages of the records in memory.
use shadraw.Base.{
  ℕ, zero, suc, ◌≤◌, ◌≡◌, refl, Bool, true, false, List, [], ◌∷◌, ok, none, pos, arith, length,
  Elem, All, keep, take, drop, inl, inr, str_eq, Bool-cases,
}
use shadraw.Imagegen
use shadraw.Record.Listing
use shadraw.Record.Listing.{Finder, Search, ListParams, PublicListParams, listed}
use shadraw.Record.Tests.{records, gallery, picture}

module _ {A : Type 0} where
  pub All-take : (P : A → Type 0) (n : ℕ) (xs : List A) → All P xs → All P (take n xs)
  All-take P zero xs h = tt
  All-take P (suc n) [] h = tt
  All-take P (suc n) (x ∷ xs) h = (h.0, All-take P n xs h.1)

  pub All-drop : (P : A → Type 0) (n : ℕ) (xs : List A) → All P xs → All P (drop n xs)
  All-drop P zero xs h = h
  All-drop P (suc n) [] h = tt
  All-drop P (suc n) (x ∷ xs) h = All-drop P n xs h.1

  pub length-take : (n : ℕ) (xs : List A) → length (take n xs) ≤ n
  length-take zero xs = omega arith
  length-take (suc n) [] = omega arith
  length-take (suc n) (x ∷ xs) = omega (arith, length-take n xs)

  pub All-found : (p : A → Bool) (xs : List A) → All (λ x. Elem x xs × (p x ≡ true)) (keep p xs)
  All-found p [] = tt
  All-found p (x ∷ xs) =
      let rest = All-wider p x xs (keep p xs) (All-found p xs) in
      elim (Bool-cases (p x)) [ inl e ↦ rw e ((inl refl, e), rest) | inr e ↦ rw e rest ]
    where
      All-wider :
          (p : A → Bool) (x : A) (xs ys : List A)
          → All (λ y. Elem y xs × (p y ≡ true)) ys
          → All (λ y. Elem y (x ∷ xs) × (p y ≡ true)) ys
      All-wider p x xs [] h = tt
      All-wider p x xs (y ∷ ys) h = ((inr h.0.0, h.0.1), All-wider p x xs ys h.1)

-- The order is that of the table.
abbrev finder : Finder records.rows
finder = record {
  find = λ p order offset limit d. ok (take limit (drop offset (keep p d.records)));
  find_law = λ p order offset limit d. (
    All-take _ limit _ (All-drop _ offset _ (All-found p d.records)),
    length-take limit (drop offset (keep p d.records)),
  );
}

abbrev pub searching : Search
searching = record { is_blank = λ s. str_eq s ""; like = λ prompt query. str_eq prompt query }

abbrev own : ListParams
own = record {
  user_id = 7;
  status = none;
  project_id = none;
  project_unclassified = false;
  favorite = none;
  query = "";
  page = pos 1;
  page_size = pos 500;
}

finds : Listing.list records finder searching own gallery gallery ≡ ok (picture ∷ [], 1)
unfolding Listing.list Listing.with_total Listing.page_of Listing.page_size_of
    Imagegen.default_params
finds = refl

abbrev cats : PublicListParams
cats = record { query = "a cat"; page = pos 1; page_size = pos 20 }

shows : Listing.list_public records finder searching cats gallery gallery ≡ ok (picture ∷ [], 1)
unfolding Listing.list_public Listing.with_total Listing.page_of Listing.page_size_of
    Imagegen.default_params
shows = refl
