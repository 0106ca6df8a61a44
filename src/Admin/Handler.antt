-- ===== src/Admin/Handler.antt =====
-- internal/admin/handler.go: the handlers of the administrators, after their guard. The body, bound, and
-- the texts of the path and the query are arguments. The list of users and the statistics are left
-- out. A test of the upstream runs without the limits of time; its duration is an argument.
pub mod Accounts
use Prim.Native.String.{◌++◌ as append}
use shadraw.Base.{
  ℕ, ℤ, pos, negsuc, String, Bool, true, false, not, ◌&&◌, ◌||◌, Option, none, some, List, [],
  Result, ok, err, str_eq, if◌then◌else◌, length, Action, pure, query, from_result, ◌>>=◌, ◌>>◌,
}
use shadraw.Table.{Table}
use shadraw.Imagegen.{Params, quality_auto}
use shadraw.Crypto.{Bytes, Aead}
use shadraw.Httpx.Reply.{
  Failure, Reply, fail, internal_error, reply_ok, code_not_found, answering, when_given,
}
use shadraw.User
use shadraw.User.{User, Role}
use shadraw.Upstream
use shadraw.Upstream.{ErrorKind, GenerateParams, GenerateResult, generate, is_unset}
use shadraw.Upstream.Calls.{Net, transport, test_connection}
use shadraw.Auth
use shadraw.Auth.{RefreshToken, Libraries, Env}
use shadraw.Auth.Service
use shadraw.Auth.{UserDto, to_user_dto}
use shadraw.Record
use shadraw.Record.{Record, Status}
use shadraw.Record.Repo
use shadraw.Record.Dto.{Format, RecordDto, to_dto}
use shadraw.Record.Listing.{Finder, AdminListParams, Meta, admin_list}
use shadraw.Record.Handler.{page_reply, as_id, record_missing, contains, is_disabled, default_query}
use shadraw.Admin
use shadraw.Admin.{UpstreamConfig, key, Fills, Error, Cache, Text, UpdateUpstreamArgs, snapshot}
use shadraw.Admin.Coherence.{current}
use shadraw.Admin.Reach.{System}
use shadraw.Admin.Views.{UpstreamConfigDto, view, worker_concurrency, site_config, enabled_models}

pub record UpdateUserReq : Type 0 where
  pub disabled : Option Bool
  pub role : Option Role

pub record UpdateUpstreamReq : Type 0 where
  pub base_url : String
  pub api_key : Option String
  pub enabled_models : List String

pub record TestConnectionResp : Type 0 where
  pub is_ok : Bool
  pub status : ℕ
  pub message : String
  pub elapsed_ms : ℕ
  pub image_bytes : ℕ

-- `actorID, _ := strconv.ParseInt(…)`: 0 with an error.
abbrev pub actor_of : Option ℤ → ℕ
actor_of (some (pos n)) = n
actor_of _ = 0

-- An update of the configuration: an internal error, or what the new copy shows.
abbrev pub shown : {B : Type 0} → (Cache → B) → Result Error Cache → Result Failure (Reply B)
shown show (ok c) = ok (reply_ok (show c))
shown show (err e) = err internal_error

abbrev pub saved_reply :
    {Db B : Type 0}
    → (Cache → B)
    → System Db
    → Result Error Cache × Db
    → Result Failure (Reply B) × System Db
saved_reply show s out = (shown show out.0, record s { cache = current s.cache out.0; db = out.1 })

abbrev pub with_body :
    {S A B : Type 0} → Result Failure A → (A → S → Result Failure B × S) → S → Result Failure B × S
with_body (ok req) k s = k req s
with_body (err failure) k s = (err failure, s)

module _ (text : Text) {Db : Type 0} (configs : Table Db UpstreamConfig key Fills)
    (aead : Aead) where
  unfoldable pub get_upstream : System Db → Reply UpstreamConfigDto
  get_upstream s = reply_ok (view text s.cache)

  unfoldable pub update_upstream :
      Result String Bytes
      → Option ℤ
      → Result Failure UpdateUpstreamReq
      → System Db
      → Result Failure (Reply UpstreamConfigDto) × System Db
  update_upstream fresh subject body = with_body body (λ req s. saved_reply (view text) s (
      Admin.update_upstream text configs aead fresh
        (record {
          base_url = req.base_url;
          api_key = req.api_key;
          enabled_models = req.enabled_models;
          actor_id = actor_of subject;
        })
        s.cache s.db))

  unfoldable pub get_runtime : System Db → Reply ℕ
  get_runtime s = reply_ok (worker_concurrency s.cache)

  unfoldable pub update_runtime :
      Option ℤ → Result Failure ℤ → System Db → Result Failure (Reply ℕ) × System Db
  update_runtime subject body = with_body body (λ n s.
      saved_reply worker_concurrency s
        (Admin.update_worker_concurrency text configs aead n (actor_of subject) s.cache s.db))

  unfoldable pub get_site : System Db → Reply String
  get_site s = reply_ok (site_config text s.cache)

  unfoldable pub update_site :
      Option ℤ → Result Failure String → System Db → Result Failure (Reply String) × System Db
  update_site subject body = with_body body (λ title s.
      saved_reply (site_config text) s
        (Admin.update_site_config text configs aead title (actor_of subject) s.cache s.db))

-- `string(ue.Kind)`
abbrev pub kind_text : ErrorKind → String
kind_text Upstream.auth_failed = "auth_failed"
kind_text Upstream.rate_limited = "rate_limited"
kind_text Upstream.bad_request = "bad_request"
kind_text Upstream.not_found = "not_found"
kind_text Upstream.upstream_error = "upstream_error"
kind_text Upstream.network = "network"
kind_text Upstream.unknown = "unknown"

abbrev pub no_answer : ℕ → String → ℕ → TestConnectionResp
no_answer status message elapsed = record {
  is_ok = false;
  status = status;
  message = message;
  elapsed_ms = elapsed;
  image_bytes = 0;
}

abbrev pub failed_test : ℕ → Upstream.Error → TestConnectionResp
failed_test elapsed e =
    no_answer e.status (append (kind_text e.kind) (append ": " e.message)) elapsed

abbrev pub connected : Option Upstream.Error → TestConnectionResp
connected (some e) = failed_test 0 e
connected none = record {
  is_ok = true;
  status = 200;
  message = "/v1/models 可达";
  elapsed_ms = 0;
  image_bytes = 0;
}

abbrev pub generated : ℕ → Result Upstream.Error GenerateResult → TestConnectionResp
generated elapsed (err e) = failed_test elapsed e
generated elapsed (ok result) = record {
  is_ok = true;
  status = 200;
  message = "成功生成测试图片";
  elapsed_ms = elapsed;
  image_bytes = length result.image;
}

abbrev pub test_request : String → GenerateParams
test_request model = record {
  model = model;
  prompt = "a small red circle on a white background, simple test";
  image_params = record {
    size = "1024x1024";
    quality = "low";
    n = pos 0;
    background = "";
    moderation = "";
    output_format = "";
    output_compression = none;
    stream = none;
    partial_images = none;
    input_fidelity = "";
    mask = "";
    response_format = "";
    style = "";
    user = "";
  };
  reference_images = [];
}

-- With the model of the body, which is empty without a body.
unfoldable pub test_upstream : Net → Cache → String → ℕ → Reply TestConnectionResp
test_upstream net c model elapsed =
    let cfg = snapshot c in
    if is_unset cfg
    then reply_ok (no_answer 0 "未配置 baseUrl 或 apiKey" 0)
    else if str_eq model ""
    then reply_ok (connected (test_connection net cfg))
    else if is_disabled (enabled_models c) model
    then reply_ok (no_answer 0 (append "model 不在已启用列表中: " model) 0)
    else reply_ok (generated elapsed (generate (transport net) cfg (test_request model)))

-- `handleUserErr`
abbrev pub user_failure : User.Error → Failure
user_failure User.not_found = fail 404 code_not_found "user 不存在"
user_failure (User.database e) = internal_error

abbrev pub reset_failure : Auth.Error → Failure
reset_failure (Auth.user_error e) = user_failure e
reset_failure _ = internal_error

-- The query of `ListRecords`; a status that is none of the four is left out.
pub record RecordsQuery : Type 0 where
  pub page : ℤ
  pub page_size : ℤ
  pub status : Option Status
  pub user_id : Option ℕ

module _ {Db : Type 0} (users : Table Db User User.key User.Fills) (format : Format) where
  unfoldable pub update_user :
      Option ℤ → Result Failure UpdateUserReq → Action Db Failure (Reply UserDto)
  unfolding ◌>>=◌
  update_user id_param body = from_result (as_id id_param) >>= λ id. from_result body >>= λ req.
      when_given req.disabled (λ b. answering user_failure (User.set_disabled users id b))
      >> (when_given req.role (λ role. answering user_failure (User.set_role users id role))
          >> (answering user_failure (query (User.find_by_id users id)) >>= λ u.
              pure (reply_ok (to_user_dto format u))))

  unfoldable pub reset_password :
      Libraries
      → Table Db RefreshToken Auth.key Auth.Fills
      → Env
      → Option ℤ
      → Action Db Failure (Reply String)
  unfolding ◌>>=◌
  reset_password lib tokens env id_param = from_result (as_id id_param) >>= λ id.
      answering reset_failure (Service.reset_password_by_admin lib users tokens env id) >>= λ temp.
      pure (reply_ok temp)

module _ {Db : Type 0} (records : Table Db Record Record.key Record.Fills) where
  -- An administrator deletes the record of any user; the blob of its image stays.
  unfoldable pub delete_record : Option ℤ → Action Db Failure (Reply Unit)
  unfolding ◌>>=◌
  delete_record id_param = from_result (as_id id_param) >>= λ id.
      answering record_missing (Repo.delete records id 0) >>= λ _. pure (reply_ok tt)

  unfoldable pub list_records :
      Finder records.rows
      → Format
      → RecordsQuery
      → Db
      → Db
      → Result Failure (Reply (List RecordDto × Meta))
  list_records finder format q d later = page_reply (to_dto format) q.page q.page_size (
      admin_list records finder
        (record { status = q.status; user_id = q.user_id; page = q.page; page_size = q.page_size })
        d later)
