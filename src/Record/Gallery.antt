-- ===== src/Record/Gallery.antt =====
-- internal/record/repo.go: the gallery for a user: `ListPublic` with `applyFavoriteFlags`.
pub mod Flags
use shadraw.Base.{
  ℕ, String, ◌≡◌, Bool, true, false, ◌&&◌, ◌||◌, List, [], ◌∷◌, map, Result, ok, err, ltb, ◌==◌,
  if◌then◌else◌, Elem, All,
}
use shadraw.Table.{DbError, Table}
use shadraw.Record.{Record, key, Fills, Error, database, RecordFavorite}
use shadraw.Record.Listing.{Finder, Search, PublicListParams, list_public}

-- `record_id IN (…)`
abbrev pub is_among : List Record → ℕ → Bool
is_among [] id = false
is_among (r ∷ rest) id = r.id == id || is_among rest id

abbrev pub favorite_among : ℕ → List Record → RecordFavorite → Bool
favorite_among user_id out f = f.user_id == user_id && is_among out f.record_id

-- `SELECT … WHERE … ORDER BY` without a limit: the rows that pass the test, and all of them. The order
-- may be empty.
abbrev pub Selects :
    {Db Row : Type 0} → (Db → List Row) → (Row → Bool) → Db → Result DbError (List Row) → Type 0
Selects rows p d (ok l) =
    All (λ f. Elem f (rows d) × (p f ≡ true)) l × All (λ f. p f ≡ true → Elem f l) (rows d)
Selects rows p d (err _) = Unit

pub record Selector {Db Row : Type 0} (rows : Db → List Row) : Type 0 where
  pub select : (Row → Bool) → String → Db → Result DbError (List Row)
  pub select_law : (p : Row → Bool) (order : String) (d : Db) → Selects rows p d (select p order d)

-- `favoriteSet[id]`
abbrev pub is_favorited : List RecordFavorite → ℕ → Bool
is_favorited [] id = false
is_favorited (f ∷ rest) id = f.record_id == id || is_favorited rest id

abbrev pub with_flag : ℕ → List RecordFavorite → Record → Record
with_flag user_id favorites r =
    let favorited = is_favorited favorites r.id in
    record r { favorite = if r.user_id == user_id then r.favorite || favorited else favorited }

abbrev pub flag_found :
    ℕ → List Record → Result DbError (List RecordFavorite) → Result Error (List Record)
flag_found user_id out (ok found) = ok (map (with_flag user_id found) out)
flag_found user_id out (err e) = err (database e)

abbrev pub with_count : ℕ → Result Error (List Record) → Result Error (List Record × ℕ)
with_count total (ok rows) = ok (rows, total)
with_count total (err e) = err e

module _ {Db : Type 0} {favorites : Db → List RecordFavorite} (selector : Selector favorites) where
  unfoldable pub apply_favorite_flags : ℕ → List Record → Db → Result Error (List Record)
  apply_favorite_flags user_id out d =
      flag_found user_id out (selector.select (favorite_among user_id out) "" d)

  -- For a user, and a page that is not empty.
  unfoldable pub flagged : ℕ → Db → Result Error (List Record × ℕ) → Result Error (List Record × ℕ)
  unfolding apply_favorite_flags
  flagged user_id d (err e) = err e
  flagged user_id d (ok ([], total)) = ok ([], total)
  flagged user_id d (ok (r ∷ rest, total)) =
      if ltb 0 user_id
      then with_count total (apply_favorite_flags user_id (r ∷ rest) d)
      else ok (r ∷ rest, total)

  -- The flags are looked up by a third statement, in the database `last`.
  unfoldable pub list_public_for :
      (records : Table Db Record key Fills)
      → Finder records.rows
      → Search
      → ℕ
      → PublicListParams
      → Db
      → Db
      → Db
      → Result Error (List Record × ℕ)
  unfolding flagged
  list_public_for records finder searching user_id p d later last =
      flagged user_id last (list_public records finder searching p d later)
