-- ===== src/Record/Favorites.antt =====
-- What `UpdateFavorite` does to the table of records.
use shadraw.Base.{
  ℕ, ◌≡◌, refl, ◌⊎◌, inl, inr, Bool, true, false, not, ◌||◌, Result, ok, err, ◌==◌, if◌then◌else◌,
}
use shadraw.Table.{Table, Separate}
use shadraw.Record.{
  Record, key, Fills, Error, completed, status_eq, has_image, owned, set_favorite, from_take,
  affected, RecordFavorite, favorite_key, FillsFavorite, by_id,
}
use shadraw.Record.Repo
use shadraw.Record.Outcome.{affected_state, no_error_state}

module _ {Db : Type 0} (records : Table Db Record key Fills)
    (favorites : Table Db RecordFavorite favorite_key FillsFavorite)
    (apart : Separate favorites records.rows) where
  open records use {rows}

  favorite_other-rows :
      (id user_id : ℕ) (b : Bool) (d : Db)
      → rows (Repo.favorite_other records favorites id user_id b d).1 ≡ rows d
  unfolding Repo.favorite_other
  favorite_other-rows id user_id true d = rw no_error_state (apart.create_unless_apart _ _ d)
  favorite_other-rows id user_id false d = rw no_error_state (apart.delete_apart _ d)

  -- Nothing, or the update of the caller's own record.
  abbrev pub Favors : ℕ → ℕ → Bool → Db → Db → Type 0
  Favors id user_id b d d' =
      (rows d' ≡ rows d) ⊎ (d' ≡ (records.update (owned id user_id) (set_favorite b) d).1)

  favorite_own :
      (id user_id : ℕ) (b : Bool) (d : Db) (rec : Record)
      → Favors id user_id b d (Repo.favorite_found records favorites id user_id b d (ok rec)).1
  unfolding Repo.favorite_found
  favorite_own id user_id b d rec =
      go (rec.user_id == user_id) (
        not rec.is_public || not (status_eq rec.status completed) || not (has_image rec.image_path))
    where
      go :
          (mine hidden : Bool)
          → Favors id user_id b d
              (if mine
                then affected (records.update (owned id user_id) (set_favorite b) d)
                else if hidden
                then (err Error.not_found, d)
                else Repo.favorite_other records favorites id user_id b d).1
      go true hidden = inr (affected_state _)
      go false true = inl refl
      go false false = inl (favorite_other-rows id user_id b d)

  favorite_found-Favors :
      (id user_id : ℕ) (b : Bool) (d : Db) (found : Result Error Record)
      → Favors id user_id b d (Repo.favorite_found records favorites id user_id b d found).1
  unfolding Repo.favorite_found
  favorite_found-Favors id user_id b d (err e) = inl refl
  favorite_found-Favors id user_id b d (ok rec) = favorite_own id user_id b d rec

  -- A change of a favorite leaves the records alone, or updates the caller's own record.
  pub update_favorite-Favors :
      (id user_id : ℕ) (b : Bool) (d : Db)
      → Favors id user_id b d (Repo.update_favorite records favorites id user_id b d).1
  unfolding Repo.update_favorite
  update_favorite-Favors id user_id b d =
      favorite_found-Favors id user_id b d (from_take (records.take (by_id id) d))
