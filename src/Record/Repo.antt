-- ===== src/Record/Repo.antt =====
-- internal/record/repo.go: the repository of the records, statement by statement, over the table
-- of records and the table of favorites. A query returns its rows or an error; a statement that
-- writes returns the database too.
use shadraw.Base.{
  ℕ, String, Bool, not, ◌||◌, Option, none, some, Result, ok, err, ◌==◌, str_eq, if◌then◌else◌,
}
use shadraw.Table.{DbError, record_not_found, fault, Table}
use shadraw.Record.{
  completed, status_eq, Record, key, Fills, Error, not_found, empty_image_path, database, has_image,
  by_id, owned, scoped, visible_image, publishable, retryable, is_waiting, is_running, set_favorite,
  set_project, set_public, reset, start, complete, fail, unstart, from_take, affected, lift,
  no_error, RecordFavorite, favorite_key, favorite_of, FillsFavorite,
}

module _ {Db : Type 0} (records : Table Db Record key Fills) where
  -- `Create` writes the stored row back into its argument.
  unfoldable pub create : Record → Db → Result Error Record × Db
  create rec d = lift (records.create rec d)

  unfoldable pub find_by_id : ℕ → ℕ → Db → Result Error Record
  find_by_id id user_id d = from_take (records.take (scoped id user_id) d)

  unfoldable pub find_visible_image_by_id : ℕ → ℕ → Db → Result Error Record
  find_visible_image_by_id id user_id d = from_take (records.take (visible_image id user_id) d)

  unfoldable pub update_public : ℕ → ℕ → ℕ → Bool → Bool → Db → Result Error Unit × Db
  update_public now id user_id is_public prompt_public d =
      affected (records.update (publishable id user_id) (set_public now is_public prompt_public) d)

  unfoldable pub update_project : ℕ → ℕ → Option ℕ → Db → Result Error Unit × Db
  update_project id user_id project_id d =
      affected (records.update (owned id user_id) (set_project project_id) d)

  unfoldable pub then_find : ℕ → ℕ → Result Error Unit × Db → Result Error Record × Db
  then_find id user_id (ok _, d) = (find_by_id id user_id d, d)
  then_find id user_id (err e, d) = (err e, d)

  unfoldable pub retry_failed : ℕ → ℕ → Db → Result Error Record × Db
  unfolding then_find find_by_id
  retry_failed id user_id d =
      then_find id user_id (affected (records.update (retryable id user_id) reset d))

  unfoldable pub with_value : Record → Result DbError ℕ × Db → Result Error Record × Db
  with_value rec (ok _, d) = (ok rec, d)
  with_value rec (err e, d) = (err (database e), d)

  unfoldable pub delete_found : Db → Result Error Record → Result Error Record × Db
  unfolding with_value
  delete_found d (err e) = (err e, d)
  delete_found d (ok rec) = with_value rec (records.delete (by_id rec.id) d)

  unfoldable pub delete : ℕ → ℕ → Db → Result Error Record × Db
  unfolding delete_found find_by_id
  delete id user_id d = delete_found d (find_by_id id user_id d)

  unfoldable pub claim_marked : Record → Result DbError ℕ × Db → Result DbError Record × Db
  claim_marked picked (ok _, d) = (ok picked, d)
  claim_marked picked (err e, d) = (err e, d)

  -- The body of the transaction of `ClaimWaiting`, from the outcome of its `SELECT … FOR UPDATE`.
  unfoldable pub claim_selected :
      ℕ → Db → Result DbError (Option Record) → Result DbError Record × Db
  unfolding claim_marked
  claim_selected now d (err e) = (err e, d)
  claim_selected now d (ok none) = (err record_not_found, d)
  claim_selected now d (ok (some picked)) =
      claim_marked picked (records.update (by_id picked.id) (start now) d)

  unfoldable pub claim_body : ℕ → Db → Result DbError Record × Db
  unfolding claim_selected
  claim_body now d = claim_selected now d (records.lock_first is_waiting d)

  unfoldable pub reread : Result DbError Record × Db → Result Error Record × Db
  unfolding find_by_id
  reread (ok picked, d) = (find_by_id picked.id 0 d, d)
  reread (err record_not_found, d) = (err not_found, d)
  reread (err (fault text), d) = (err (database (fault text)), d)

  unfoldable pub claim_waiting : ℕ → Db → Result Error Record × Db
  unfolding claim_body reread
  claim_waiting now d = reread (records.transaction (claim_body now) d)

  unfoldable pub store_generated : ℕ → ℕ → String → Db → Result Error Unit × Db
  store_generated now id image_path d =
      if str_eq image_path ""
      then (err empty_image_path, d)
      else no_error (records.update (by_id id) (complete now image_path) d)

  unfoldable pub mark_failed_with_upstream_error :
      ℕ → ℕ → String → String → Db → Result Error Unit × Db
  mark_failed_with_upstream_error now id msg upstream_error d =
      no_error (records.update (by_id id) (fail now msg upstream_error) d)

  unfoldable pub mark_failed : ℕ → ℕ → String → Db → Result Error Unit × Db
  unfolding mark_failed_with_upstream_error
  mark_failed now id msg d = mark_failed_with_upstream_error now id msg "" d

  unfoldable pub sweep_running_to_waiting : Db → Result Error ℕ × Db
  sweep_running_to_waiting d = lift (records.update is_running unstart d)

  module _ (favorites : Table Db RecordFavorite favorite_key FillsFavorite) where
    unfoldable pub favorite_other : ℕ → ℕ → Bool → Db → Result Error Unit × Db
    favorite_other id user_id favorite d =
        if favorite
        then no_error (
            favorites.create_unless (favorite_of user_id id)
              (record { id = 0; user_id = user_id; record_id = id }) d)
        else no_error (favorites.delete (favorite_of user_id id) d)

    unfoldable pub favorite_found : ℕ → ℕ → Bool → Db → Result Error Record → Result Error Unit × Db
    unfolding favorite_other
    favorite_found id user_id favorite d (err e) = (err e, d)
    favorite_found id user_id favorite d (ok rec) =
        if rec.user_id == user_id
        then affected (records.update (owned id user_id) (set_favorite favorite) d)
        else if not rec.is_public
            || not (status_eq rec.status completed)
            || not (has_image rec.image_path)
        then (err not_found, d)
        else favorite_other id user_id favorite d

    unfoldable pub update_favorite : ℕ → ℕ → Bool → Db → Result Error Unit × Db
    unfolding favorite_found
    update_favorite id user_id favorite d =
        favorite_found id user_id favorite d (from_take (records.take (by_id id) d))
