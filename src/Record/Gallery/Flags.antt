-- ===== src/Record/Gallery/Flags.antt =====
-- Whose favorites the flags of a page show.
use shadraw.Base.{
  ℕ, ◌≡◌, refl, sym, ap, ◌⊎◌, ◌↔◌, inl, inr, Bool, true, false, ◌||◌, List, [], ◌∷◌, map, Result,
  ok, err, ◌==◌, if◌then◌else◌, Bool-cases, Elem, All, arith,
}
use shadraw.Table.{DbError}
use shadraw.Record.{Record, RecordFavorite}
use shadraw.Record.Gallery.{
  is_among, favorite_among, Selects, Selector, is_favorited, with_flag, flag_found,
  apply_favorite_flags,
}

-- The user has a favorite of the record.
abbrev pub Likes : List RecordFavorite → ℕ → ℕ → Type 0
Likes favorites user_id id =
    (f : RecordFavorite) × Elem f favorites × (f.user_id ≡ user_id) × (f.record_id ≡ id)

-- What the flag of a record means.
abbrev pub IsFavorite : List RecordFavorite → ℕ → Record → Type 0
IsFavorite favorites user_id r =
    ((r.user_id ≡ user_id) × (r.favorite ≡ true)) ⊎ Likes favorites user_id r.id

-- A record with another flag.
abbrev pub flagged_as : (Record → Bool) → Record → Record
flagged_as flag r = record r { favorite = flag r }

is_among-Elem : (r : Record) (out : List Record) → Elem r out → is_among out r.id ≡ true
is_among-Elem r [] m = absurd m
is_among-Elem r (x ∷ out) (inl e) = ground (arith, ap (λ y. y.id) e)
is_among-Elem r (x ∷ out) (inr m) = ground (arith, is_among-Elem r out m)

is_favorited-Elem :
    (id : ℕ) (found : List RecordFavorite)
    → is_favorited found id ≡ true
    → (f : RecordFavorite) × Elem f found × (f.record_id ≡ id)
is_favorited-Elem id [] = λ h. cc
is_favorited-Elem id (f ∷ found) = elim (Bool-cases (f.record_id == id)) [
  | inl e ↦ λ h. (f, inl refl, ground arith)
  | inr e ↦ rw e (λ h. let (g, m, same) = is_favorited-Elem id found h in (g, inr m, same))
]

Elem-is_favorited :
    (id : ℕ) (found : List RecordFavorite) (f : RecordFavorite)
    → Elem f found
    → f.record_id ≡ id
    → is_favorited found id ≡ true
Elem-is_favorited id [] f m same = absurd m
Elem-is_favorited id (x ∷ found) f (inl e) same = ground (arith, ap (λ y. y.record_id) e)
Elem-is_favorited id (x ∷ found) f (inr m) same =
    ground (arith, Elem-is_favorited id found f m same)

All-Elem : {A : Type 0} (P : A → Type 0) (xs : List A) → All P xs → (a : A) → Elem a xs → P a
All-Elem P [] h a m = absurd m
All-Elem P (x ∷ xs) h a (inl e) = rw (← e) h.0
All-Elem P (x ∷ xs) h a (inr m) = All-Elem P xs h.1 a m

flag_cases :
    (mine own kept : Bool)
    → (if mine then own || kept else kept) ≡ true
    → ((mine ≡ true) × (own ≡ true)) ⊎ (kept ≡ true)
flag_cases true true kept h = inl (refl, refl)
flag_cases true false kept h = inr h
flag_cases false own kept h = inr h

kept_flag : (mine own kept : Bool) → kept ≡ true → (if mine then own || kept else kept) ≡ true
kept_flag true true kept h = refl
kept_flag true false kept h = h
kept_flag false own kept h = h

module _ {Db : Type 0} {favorites : Db → List RecordFavorite} (selector : Selector favorites) where
  is_favorited-Likes :
      (user_id : ℕ) (out : List Record) (d : Db) (found : List RecordFavorite) (r : Record)
      → Selects favorites (favorite_among user_id out) d (ok found)
      → Elem r out
      → (is_favorited found r.id ≡ true) ↔ Likes (favorites d) user_id r.id
  is_favorited-Likes user_id out d found r (sound, full) m = (
    (λ h.
        let (f, among, same) = is_favorited-Elem r.id found h in
        let (stored, passes) = All-Elem _ found sound f among in (f, stored, ground arith, same)),
    (λ (f, stored, mine, same).
        let passes : favorite_among user_id out f ≡ true =
          ground (arith, mine, same, is_among-Elem r out m) in
        Elem-is_favorited r.id found f (All-Elem _ (favorites d) full f stored passes) same),
  )

  with_flag-IsFavorite :
      (user_id : ℕ) (r : Record) (found : List RecordFavorite) (stored : List RecordFavorite)
      → (is_favorited found r.id ≡ true) ↔ Likes stored user_id r.id
      → ((with_flag user_id found r).favorite ≡ true) ↔ IsFavorite stored user_id r
  with_flag-IsFavorite user_id r found stored (to, from) = (
    (λ h. elim (flag_cases (r.user_id == user_id) r.favorite (is_favorited found r.id) h) [
      | inl (mine, own) ↦ inl (ground arith, own)
      | inr kept ↦ inr (to kept)
    ]),
    (λ known. elim known [
      | inl (mine, own) ↦
          let same : (r.user_id == user_id) ≡ true = ground (arith, mine) in rw (same, own) refl
      | inr liked ↦
          kept_flag (r.user_id == user_id) r.favorite (is_favorited found r.id) (from liked)
    ]),
  )

  flag_found-IsFavorite :
      (user_id : ℕ) (out out' : List Record) (d : Db) (found : Result DbError (List RecordFavorite))
      → Selects favorites (favorite_among user_id out) d found
      → flag_found user_id out found ≡ ok out'
      → (flag : Record → Bool) × (out' ≡ map (flagged_as flag) out)
        × ((r : Record) → Elem r out → (flag r ≡ true) ↔ IsFavorite (favorites d) user_id r)
  flag_found-IsFavorite user_id out out' d (ok found) s h =
      let same : map (with_flag user_id found) out ≡ out' = cc in
      (
        (λ r. (with_flag user_id found r).favorite),
        sym same,
        (λ r m.
            with_flag-IsFavorite user_id r found (favorites d)
              (is_favorited-Likes user_id out d found r s m)),
      )
  flag_found-IsFavorite user_id out out' d (err e) s h = cc

  -- The flags change nothing else in the records of a page, and a record is flagged for a user
  -- exactly if the user has a row for it among the favorites, or owns it and its own flag is set.
  pub apply_favorite_flags-IsFavorite :
      (user_id : ℕ) (out out' : List Record) (d : Db)
      → apply_favorite_flags selector user_id out d ≡ ok out'
      → (flag : Record → Bool) × (out' ≡ map (flagged_as flag) out)
        × ((r : Record) → Elem r out → (flag r ≡ true) ↔ IsFavorite (favorites d) user_id r)
  unfolding apply_favorite_flags
  apply_favorite_flags-IsFavorite user_id out out' d h =
      flag_found-IsFavorite user_id out out' d _
        (selector.select_law (favorite_among user_id out) "" d) h
