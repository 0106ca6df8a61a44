-- ===== src/Record.antt =====
-- internal/record/models.go and repo.go: records of image generations and their repository. Times
-- are natural numbers, given by the caller where the code reads the clock. `UpdatedAt` is left out:
-- a trigger of the database writes it and no code reads it. Ids are positive (BIGSERIAL).
pub mod Repo
mod Outcome
pub mod Consistent
pub mod Favorites
pub mod Lifecycle
pub mod Claim
pub mod Access
pub mod Listing
pub mod Queue
pub mod Gallery
pub mod Dto
pub mod Handler
pub mod Tests
use shadraw.Base.{
  ℕ, zero, suc, String, ◌≡◌, Bool, true, false, ◌&&◌, Option, none, some, List, Result, ok, err,
  ltb, ◌==◌, str_eq, if◌then◌else◌,
}
use shadraw.Table.{DbError, record_not_found, fault, Table}
use shadraw.Imagegen.{Params}

pub data Status : Type 0 where
  waiting running completed failed : Status

abbrev pub status_eq : Status → Status → Bool
status_eq waiting waiting = true
status_eq running running = true
status_eq completed completed = true
status_eq failed failed = true
status_eq _ _ = false

pub record Record : Type 0 where
  pub id : ℕ
  pub uuid : String
  pub user_id : ℕ
  pub project_id : Option ℕ
  pub prompt : String
  pub model : String
  pub image_params : Params
  pub status : Status
  pub favorite : Bool
  pub is_public : Bool
  pub prompt_public : Bool
  pub image_path : Option String
  pub error : Option String
  pub upstream_error : Option String
  pub reference_images : Option (List String)
  pub started_at : Option ℕ
  pub completed_at : Option ℕ
  pub published_at : Option ℕ
  pub created_at : ℕ

abbrev pub key : Record → ℕ
key r = r.id

-- What an insert by `Create` stores: the columns that its `Select` names, and for the others the
-- defaults of the migrations.
abbrev pub Fills : Record → Record → Type 0
Fills given r = r ≡ record given {
  id = r.id;
  uuid = r.uuid;
  is_public = false;
  prompt_public = true;
  image_path = none;
  error = none;
  upstream_error = none;
  started_at = none;
  completed_at = none;
  published_at = none;
  created_at = r.created_at;
}

pub data Error : Type 0 where
  not_found : Error
  empty_image_path : Error
  database : DbError → Error

-- `image_path IS NOT NULL AND image_path <> ''`
abbrev pub has_image : Option String → Bool
has_image none = false
has_image (some path) = if str_eq path "" then false else true

-- The conditions of the statements.
abbrev pub by_id : ℕ → Record → Bool
by_id id r = r.id == id

abbrev pub owned : ℕ → ℕ → Record → Bool
owned id user_id r = r.id == id && r.user_id == user_id

-- `userID == 0` is the administrator, who sees all records.
abbrev pub scoped : ℕ → ℕ → Record → Bool
scoped id user_id r = r.id == id && (if ltb 0 user_id then r.user_id == user_id else true)

abbrev pub visible_image : ℕ → ℕ → Record → Bool
visible_image id user_id r =
    r.id == id
    && has_image r.image_path
    && (if ltb 0 user_id then (if r.user_id == user_id then true else r.is_public) else r.is_public)

abbrev pub publishable : ℕ → ℕ → Record → Bool
publishable id user_id r =
    owned id user_id r && status_eq r.status completed && has_image r.image_path

abbrev pub retryable : ℕ → ℕ → Record → Bool
retryable id user_id r = owned id user_id r && status_eq r.status failed

abbrev pub is_waiting : Record → Bool
is_waiting r = status_eq r.status waiting

abbrev pub is_running : Record → Bool
is_running r = status_eq r.status running

-- The assignments of the statements.
abbrev pub set_favorite : Bool → Record → Record
set_favorite b r = record r { favorite = b }

abbrev pub set_project : Option ℕ → Record → Record
set_project p r = record r { project_id = p }

abbrev pub set_public : ℕ → Bool → Bool → Record → Record
set_public now is_public prompt_public r = record r {
  is_public = is_public;
  prompt_public = if is_public then prompt_public else true;
  published_at = if is_public then some now else none;
}

abbrev pub reset : Record → Record
reset r = record r {
  status = waiting;
  error = none;
  upstream_error = none;
  started_at = none;
  completed_at = none;
  image_path = none;
}

abbrev pub start : ℕ → Record → Record
start now r = record r { status = running; started_at = some now }

abbrev pub complete : ℕ → String → Record → Record
complete now path r = record r {
  status = completed;
  image_path = some path;
  completed_at = some now;
  error = none;
  upstream_error = none;
}

abbrev pub fail : ℕ → String → String → Record → Record
fail now msg upstream_error r = record r {
  status = failed;
  error = some msg;
  completed_at = some now;
  upstream_error = if str_eq upstream_error "" then none else some upstream_error;
}

abbrev pub unstart : Record → Record
unstart r = record r { status = waiting; started_at = none }

-- `errors.Is(err, gorm.ErrRecordNotFound)` becomes `ErrNotFound`.
abbrev pub from_take : {A : Type 0} → Result DbError A → Result Error A
from_take (ok r) = ok r
from_take (err record_not_found) = err not_found
from_take (err (fault text)) = err (database (fault text))

-- `RowsAffected == 0` becomes `ErrNotFound`.
abbrev pub affected : {Db : Type 0} → Result DbError ℕ × Db → Result Error Unit × Db
affected (ok zero, d) = (err not_found, d)
affected (ok (suc _), d) = (ok tt, d)
affected (err e, d) = (err (database e), d)

-- An error of the driver is returned as it is.
abbrev pub lift : {A Db : Type 0} → Result DbError A × Db → Result Error A × Db
lift (ok a, d) = (ok a, d)
lift (err e, d) = (err (database e), d)

-- Only the error of the statement is returned.
abbrev pub no_error : {A Db : Type 0} → Result DbError A × Db → Result Error Unit × Db
no_error (ok _, d) = (ok tt, d)
no_error (err e, d) = (err (database e), d)

-- A user's collection relation for a record.
pub record RecordFavorite : Type 0 where
  pub id : ℕ
  pub user_id : ℕ
  pub record_id : ℕ

abbrev pub favorite_key : RecordFavorite → ℕ
favorite_key f = f.id

abbrev pub favorite_of : ℕ → ℕ → RecordFavorite → Bool
favorite_of user_id record_id f = f.user_id == user_id && f.record_id == record_id

abbrev pub FillsFavorite : RecordFavorite → RecordFavorite → Type 0
FillsFavorite given f = f ≡ record given { id = f.id }
