-- ===== src/Record/Handler.antt =====
-- internal/record/handler.go: the handlers of the records, after the guards. The subject of the token,
-- the parameters of the path and the query, and the body are arguments; `strconv` and the store of
-- blobs are parameters. A subject is the id of a user, so it is not negative. The state is the
-- database with the store of blobs.
pub mod Owners
pub mod Views
mod Lists
mod Foreign
mod Tests
use shadraw.Base.{
  ℕ, zero, suc, ℤ, pos, negsuc, String, ◌≡◌, Bool, true, false, not, ◌&&◌, ◌||◌, Option, none, some,
  List, [], ◌∷◌, map, Result, ok, err, str_eq, if◌then◌else◌, Action, pure, raise, query,
  from_result, raise_if, ◌>>=◌, ◌>>◌,
}
use shadraw.Table.{Table}
use shadraw.Imagegen
use shadraw.Imagegen.{Params}
pub use shadraw.Httpx.Reply.{failing, answering, when_given}
use shadraw.Httpx.Reply.{
  Failure, Reply, fail, internal_error, reply_ok, created, code_not_found, code_conflict,
  code_unauthorized, code_validation_failed,
}
use shadraw.Project
use shadraw.Project.{Project}
use shadraw.Record.{
  Status, waiting, Record, key, Fills, Error, not_found, empty_image_path, database, RecordFavorite,
  favorite_key, FillsFavorite, has_image,
}
use shadraw.Record.Repo
use shadraw.Record.Listing.{Finder, Search, ListParams, PublicListParams, Meta, list, paging_meta}
use shadraw.Record.Gallery.{Selector, list_public_for}
use shadraw.Record.Dto.{RecordDto, Format, CreateRecordReq, UpdateRecordReq, to_dto, to_public_dto}

-- The store of blobs: `Get`, and `Delete`, which leaves the records alone.
pub record Blobs {Db : Type 0} (rows : Db → List Record) : Type 0 where
  pub get : String → Db → Result String (List ℕ)
  pub delete : String → Db → Db
  pub delete_apart : (path : String) (d : Db) → rows (delete path d) ≡ rows d

pub record Services : Type 0 where
  -- `strconv.ParseInt`; and `strconv.Atoi`: the number that it returns, with an error or without.
  pub parse_int : String → Option ℤ
  pub atoi : String → ℤ
  pub format : Format
  pub searching : Search
  pub enabled_models : List String

-- `contains`
unfoldable pub contains : List String → String → Bool
contains [] s = false
contains (v ∷ rest) s = str_eq v s || contains rest s

abbrev pub is_disabled : List String → String → Bool
is_disabled [] model = false
is_disabled (v ∷ rest) model = not (contains (v ∷ rest) model)

-- The answer of `mustUserID` to what `ParseInt` gives.
abbrev pub as_user : Option ℤ → Result Failure ℕ
as_user (some (pos (suc n))) = ok (suc n)
as_user _ = err (fail 401 code_unauthorized "无效会话")

unfoldable pub must_user_id : Services → String → Result Failure ℕ
must_user_id services subject = as_user (services.parse_int subject)

abbrev pub as_id : Option ℤ → Result Failure ℕ
as_id (some (pos (suc n))) = ok (suc n)
as_id _ = err (fail 404 code_not_found "资源不存在")

unfoldable pub parse_id_param : Services → String → Result Failure ℕ
parse_id_param services v = as_id (services.parse_int v)

-- How a handler answers an error of the repository.
abbrev pub internal : Error → Failure
internal e = internal_error

-- `ErrNotFound` has an answer of its own.
abbrev pub or_internal : Failure → Error → Failure
or_internal answer not_found = answer
or_internal answer empty_image_path = internal_error
or_internal answer (database e) = internal_error

abbrev pub record_missing : Error → Failure
record_missing = or_internal (fail 404 code_not_found "record 不存在")

abbrev pub or_false : Option Bool → Bool
or_false none = false
or_false (some b) = b

abbrev pub project_missing : Failure
project_missing = fail 404 code_not_found "project 不存在"

abbrev pub owned_project : ℕ → Result Project.Error Project → Result Failure (Option ℕ)
owned_project id (ok p) = ok (some id)
owned_project id (err e) = err project_missing

-- The columns that the request gives; the others are zero.
abbrev pub new_record : ℕ → Option ℕ → CreateRecordReq → Record
new_record user_id project_id req = record {
  id = 0;
  uuid = "";
  user_id = user_id;
  project_id = project_id;
  prompt = req.prompt;
  model = req.model;
  image_params = Imagegen.normalize req.image_params;
  status = waiting;
  favorite = false;
  is_public = false;
  prompt_public = false;
  image_path = none;
  error = none;
  upstream_error = none;
  reference_images = req.reference_images;
  started_at = none;
  completed_at = none;
  published_at = none;
  created_at = 0;
}

-- The parameters of the query of `List`; a status that is none of the four is left out.
pub record ListQuery : Type 0 where
  pub page : Option String
  pub page_size : Option String
  pub q : String
  pub scope : String
  pub status : Option Status
  pub project_id : String
  pub favorite : String

-- `c.DefaultQuery`
abbrev pub default_query : String → Option String → String
default_query default none = default
default_query default (some v) = v

-- A negative id, like 0, is the id of no project.
abbrev pub filter_of : Option ℤ → Option ℕ
filter_of none = none
filter_of (some (pos id)) = some id
filter_of (some (negsuc n)) = some 0

unfoldable pub project_filter : Services → String → Option ℕ
project_filter services v =
    if str_eq v "" || str_eq v "none" then none else filter_of (services.parse_int v)

unfoldable pub favorite_filter : String → Option Bool
favorite_filter v =
    if str_eq v "true" then some true else if str_eq v "false" then some false else none

abbrev pub page_reply :
    (Record → RecordDto)
    → ℤ
    → ℤ
    → Result Error (List Record × ℕ)
    → Result Failure (Reply (List RecordDto × Meta))
page_reply dto page page_size (ok (rows, total)) =
    ok (reply_ok (map dto rows, paging_meta page page_size total))
page_reply dto page page_size (err e) = err internal_error

-- The statements of a list run one after the other: `d`, `later` and `last` are the database at each.
module _ {Db : Type 0} (records : Table Db Record key Fills) (finder : Finder records.rows)
    {favorites : Db → List RecordFavorite} (selector : Selector favorites)
    (services : Services) where
  unfoldable pub own_params : ℕ → ListQuery → ListParams
  unfolding project_filter favorite_filter
  own_params user_id v = record {
    user_id = user_id;
    status = v.status;
    project_id = project_filter services v.project_id;
    project_unclassified = str_eq v.project_id "none";
    favorite = favorite_filter v.favorite;
    query = v.q;
    page = services.atoi (default_query "1" v.page);
    page_size = services.atoi (default_query "20" v.page_size);
  }

  unfoldable pub list_for :
      ListQuery → Db → Db → Db → ℕ → Result Failure (Reply (List RecordDto × Meta))
  unfolding own_params
  list_for v d later last user_id =
      let page = services.atoi (default_query "1" v.page) in
      let page_size = services.atoi (default_query "20" v.page_size) in
      if str_eq v.scope "public"
      then page_reply (to_public_dto services.format) page page_size (
          list_public_for selector records finder services.searching user_id
            (record { query = v.q; page = page; page_size = page_size }) d later last)
      else page_reply (to_dto services.format) page page_size
          (list records finder services.searching (own_params user_id v) d later)

  abbrev pub list_as :
      ListQuery → Db → Db → Db → Result Failure ℕ → Result Failure (Reply (List RecordDto × Meta))
  list_as v d later last (err failure) = err failure
  list_as v d later last (ok user_id) = list_for v d later last user_id

  unfoldable pub list_records :
      String → ListQuery → Db → Db → Db → Result Failure (Reply (List RecordDto × Meta))
  unfolding list_for
  list_records subject v d later last = list_as v d later last (must_user_id services subject)

module _ {Db : Type 0} (records : Table Db Record key Fills)
    (projects : Table Db Project Project.key Project.Fills)
    (favorites : Table Db RecordFavorite favorite_key FillsFavorite) (services : Services) where
  -- A project with an id that `ParseInt` gave: there is none with a negative id.
  abbrev pub project_of : ℕ → Option ℤ → Db → Result Failure (Option ℕ)
  project_of user_id none d = err (fail 422 code_validation_failed "projectId 非法")
  project_of user_id (some (negsuc n)) d = err project_missing
  project_of user_id (some (pos id)) d = owned_project id (Project.find_by_id projects id user_id d)

  -- The project that a text names, if it is the caller's; none for the empty text.
  unfoldable pub own_project : ℕ → String → Db → Result Failure (Option ℕ)
  own_project user_id text d =
      if str_eq text "" then ok none else project_of user_id (services.parse_int text) d

  abbrev pub given_project : ℕ → Option String → Db → Result Failure (Option ℕ)
  given_project user_id none d = ok none
  given_project user_id (some text) d = own_project user_id text d

  unfoldable pub create :
      String → Result Failure CreateRecordReq → Action Db Failure (Reply RecordDto)
  unfolding own_project ◌>>=◌
  create subject body = from_result body >>= λ req.
      from_result (must_user_id services subject) >>= λ user_id.
      raise_if (is_disabled services.enabled_models req.model)
        (fail 422 code_validation_failed "该模型未启用; 请联系管理员")
      >> (query (given_project user_id req.project_id) >>= λ project_id.
          answering internal (Repo.create records (new_record user_id project_id req)) >>= λ rec.
          answering internal (query (Repo.find_by_id records rec.id user_id)) >>= λ fresh.
          pure (created (to_dto services.format fresh)))

  unfoldable pub get : String → String → Action Db Failure (Reply RecordDto)
  unfolding ◌>>=◌
  get subject id_param = from_result (parse_id_param services id_param) >>= λ id.
      from_result (must_user_id services subject) >>= λ user_id.
      answering record_missing (query (Repo.find_by_id records id user_id)) >>= λ rec.
      pure (reply_ok (to_dto services.format rec))

  unfoldable pub update_parts : ℕ → ℕ → ℕ → UpdateRecordReq → Action Db Failure Unit
  unfolding own_project ◌>>=◌
  update_parts now id user_id req =
      when_given req.favorite
        (λ b. answering record_missing (Repo.update_favorite records favorites id user_id b))
      >> (when_given req.is_public (λ b.
            answering (or_internal (fail 409 code_conflict "只有已完成的图片可以公开"))
              (Repo.update_public records now id user_id b (or_false req.prompt_public)))
          >> when_given req.project_id (λ text. query (own_project user_id text) >>= λ project_id.
              answering record_missing (Repo.update_project records id user_id project_id)))

  unfoldable pub update :
      ℕ → String → String → Result Failure UpdateRecordReq → Action Db Failure (Reply RecordDto)
  unfolding update_parts ◌>>=◌
  update now subject id_param body = from_result (parse_id_param services id_param) >>= λ id.
      from_result body >>= λ req. from_result (must_user_id services subject) >>= λ user_id.
      update_parts now id user_id req
      >> (answering internal (query (Repo.find_by_id records id user_id)) >>= λ rec.
          pure (reply_ok (to_dto services.format rec)))

  unfoldable pub retry : String → String → Action Db Failure (Reply RecordDto)
  unfolding ◌>>=◌
  retry subject id_param = from_result (parse_id_param services id_param) >>= λ id.
      from_result (must_user_id services subject) >>= λ user_id.
      answering (or_internal (fail 409 code_conflict "只能重试失败的记录"))
        (Repo.retry_failed records id user_id)
      >>= λ rec. pure (reply_ok (to_dto services.format rec))

  module _ (blobs : Blobs records.rows) where
    -- The error of the store is ignored.
    abbrev pub delete_blob : Option String → Db → Db
    delete_blob none d = d
    delete_blob (some path) d = if str_eq path "" then d else blobs.delete path d

    unfoldable pub delete : String → String → Action Db Failure (Reply Unit)
    unfolding ◌>>=◌
    delete subject id_param = from_result (parse_id_param services id_param) >>= λ id.
        from_result (must_user_id services subject) >>= λ user_id.
        answering record_missing (Repo.delete records id user_id) >>= λ rec.
        λ d. (ok (reply_ok tt), delete_blob rec.image_path d)

    abbrev pub blob_found :
        Record → Result String (List ℕ) → Result Failure (Reply (String × List ℕ))
    blob_found rec (err e) = err (fail 404 code_not_found "image not found")
    blob_found rec (ok bytes) =
        ok (
          reply_ok
            (Imagegen.mime (Imagegen.normalize (some rec.image_params)).output_format, bytes))

    abbrev pub image_at : Record → Option String → Db → Result Failure (Reply (String × List ℕ))
    image_at rec none d = err (fail 404 code_not_found "image not ready")
    image_at rec (some path) d =
        if str_eq path ""
        then err (fail 404 code_not_found "image not ready")
        else blob_found rec (blobs.get path d)

    unfoldable pub image_of : Record → Db → Result Failure (Reply (String × List ℕ))
    image_of rec d = image_at rec rec.image_path d

    unfoldable pub stream_image : String → String → Action Db Failure (Reply (String × List ℕ))
    unfolding image_of ◌>>=◌
    stream_image subject id_param = from_result (parse_id_param services id_param) >>= λ id.
        from_result (must_user_id services subject) >>= λ user_id.
        answering record_missing (query (Repo.find_visible_image_by_id records id user_id))
        >>= λ rec. query (image_of rec)
