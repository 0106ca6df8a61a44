-- ===== src/Record/Dto.antt =====
-- internal/record/dto.go: what the API shows of a record and of a project. The decimal text of an id
-- and the text of a time in UTC are parameters.
use shadraw.Base.{ℕ, String, Bool, Option, none, some, List, if◌then◌else◌, length}
use shadraw.Imagegen
use shadraw.Imagegen.{Params}
use shadraw.Record.{Status, waiting, running, completed, failed, Record, has_image}
use shadraw.Project.{Project}

pub record RecordDto : Type 0 where
  pub id : String
  pub uuid : String
  pub prompt : String
  pub model : String
  pub image_params : Params
  pub status : String
  pub favorite : Bool
  pub is_public : Bool
  pub prompt_public : Bool
  pub has_image : Bool
  pub error : String
  pub upstream_error : String
  pub project_id : String
  pub reference_count : ℕ
  pub started_at : String
  pub completed_at : String
  pub published_at : String
  pub created_at : String

pub record ProjectDto : Type 0 where
  pub id : String
  pub name : String
  pub created_at : String

-- `strconv.FormatInt(n, 10)` and `t.UTC().Format(time.RFC3339)`.
pub record Format : Type 0 where
  pub decimal : ℕ → String
  pub time : ℕ → String

abbrev pub status_text : Status → String
status_text waiting = "waiting"
status_text running = "running"
status_text completed = "completed"
status_text failed = "failed"

-- `if p != nil { out = f(*p) }`
abbrev pub text_of : {A : Type 0} → (A → String) → Option A → String
text_of f none = ""
text_of f (some a) = f a

abbrev pub count_of : Option (List String) → ℕ
count_of none = 0
count_of (some urls) = length urls

unfoldable pub to_dto : Format → Record → RecordDto
to_dto format r = record {
  id = format.decimal r.id;
  uuid = r.uuid;
  prompt = r.prompt;
  model = r.model;
  image_params = Imagegen.normalize (some r.image_params);
  status = status_text r.status;
  favorite = r.favorite;
  is_public = r.is_public;
  prompt_public = r.prompt_public;
  has_image = has_image r.image_path;
  error = text_of (λ s. s) r.error;
  upstream_error = text_of (λ s. s) r.upstream_error;
  project_id = text_of format.decimal r.project_id;
  reference_count = count_of r.reference_images;
  started_at = text_of format.time r.started_at;
  completed_at = text_of format.time r.completed_at;
  published_at = text_of format.time r.published_at;
  created_at = format.time r.created_at;
}

unfoldable pub to_public_dto : Format → Record → RecordDto
unfolding to_dto
to_public_dto format r =
    let out = to_dto format r in
    record out {
      project_id = "";
      upstream_error = "";
      prompt = if out.prompt_public then out.prompt else "";
    }

unfoldable pub to_project_dto : Format → Project → ProjectDto
to_project_dto format p = record {
  id = format.decimal p.id;
  name = p.name;
  created_at = format.time p.created_at;
}

-- `CreateRecordReq`
pub record CreateRecordReq : Type 0 where
  pub prompt : String
  pub model : String
  pub image_params : Option Params
  pub project_id : Option String
  pub reference_images : Option (List String)

-- `UpdateRecordReq`: the empty text for the project clears it.
pub record UpdateRecordReq : Type 0 where
  pub favorite : Option Bool
  pub is_public : Option Bool
  pub prompt_public : Option Bool
  pub project_id : Option String
