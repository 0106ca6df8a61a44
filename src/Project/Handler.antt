-- ===== src/Project/Handler.antt =====
-- internal/record/handler.go: the handlers of the projects, and `List` of the repository of projects.
use shadraw.Base.{
  ℕ, String, Bool, List, map, Result, ok, err, ◌==◌, Action, pure, query, from_result, ◌>>=◌,
}
use shadraw.Table.{DbError, Table}
pub use shadraw.Httpx.Reply.{failing, answering}
use shadraw.Httpx.Reply.{Failure, Reply, fail, internal_error, reply_ok, created, code_not_found}
use shadraw.Project
use shadraw.Project.{Project, key, Fills, Error, project_not_found, database}
use shadraw.Record.Gallery.{Selector}
use shadraw.Record.Dto.{ProjectDto, to_project_dto}
use shadraw.Record.Handler.{Services, must_user_id, parse_id_param}

abbrev pub of_user : ℕ → Project → Bool
of_user user_id p = p.user_id == user_id

abbrev pub listed : Result DbError (List Project) → Result Error (List Project)
listed (ok rows) = ok rows
listed (err e) = err (database e)

-- `CreateProjectReq` and `RenameProjectReq`
pub record NameReq : Type 0 where
  pub name : String

abbrev pub new_project : ℕ → NameReq → Project
new_project user_id req = record { id = 0; user_id = user_id; name = req.name; created_at = 0 }

abbrev pub internal : Error → Failure
internal e = internal_error

abbrev pub project_missing : Error → Failure
project_missing project_not_found = fail 404 code_not_found "project 不存在"
project_missing (database e) = internal_error

module _ {Db : Type 0} (projects : Table Db Project key Fills) (services : Services) where
  unfoldable pub list : Selector projects.rows → ℕ → Db → Result Error (List Project)
  list selector user_id d = listed (selector.select (of_user user_id) "id DESC" d)

  unfoldable pub create_project :
      String → Result Failure NameReq → Action Db Failure (Reply ProjectDto)
  unfolding ◌>>=◌
  create_project subject body = from_result body >>= λ req.
      from_result (must_user_id services subject) >>= λ user_id.
      answering internal (Project.create projects (new_project user_id req)) >>= λ p.
      answering internal (query (Project.find_by_id projects p.id user_id)) >>= λ fresh.
      pure (created (to_project_dto services.format fresh))

  unfoldable pub list_projects :
      Selector projects.rows → String → Action Db Failure (Reply (List ProjectDto))
  unfolding list ◌>>=◌
  list_projects selector subject = from_result (must_user_id services subject) >>= λ user_id.
      answering internal (query (list selector user_id)) >>= λ rows.
      pure (reply_ok (map (to_project_dto services.format) rows))

  unfoldable pub rename_project :
      String → String → Result Failure NameReq → Action Db Failure (Reply Unit)
  unfolding ◌>>=◌
  rename_project subject id_param body = from_result (parse_id_param services id_param) >>= λ id.
      from_result body >>= λ req. from_result (must_user_id services subject) >>= λ user_id.
      answering project_missing (Project.rename projects id user_id req.name) >>= λ _.
      pure (reply_ok tt)

  unfoldable pub delete_project : String → String → Action Db Failure (Reply Unit)
  unfolding ◌>>=◌
  delete_project subject id_param = from_result (parse_id_param services id_param) >>= λ id.
      from_result (must_user_id services subject) >>= λ user_id.
      answering project_missing (Project.delete projects id user_id) >>= λ _. pure (reply_ok tt)
