-- ===== src/Httpx/Reply.antt =====
-- internal/httpx/response.go, errors.go and validate.go: the replies of the handlers. A handler ends
-- with a reply or with a failure; gin writes either of them as JSON.
use Prim.Native.String.{slice, len, ◌++◌ as append}
use shadraw.Base.{
  ℕ, String, Option, none, some, List, [], map, Result, ok, err, str_eq, if◌then◌else◌, Action,
  pure,
}

abbrev pub code_validation_failed : String
code_validation_failed = "validation_failed"

abbrev pub code_unauthorized : String
code_unauthorized = "unauthorized"

abbrev pub code_forbidden : String
code_forbidden = "forbidden"

abbrev pub code_account_disabled : String
code_account_disabled = "account_disabled"

abbrev pub code_not_found : String
code_not_found = "not_found"

abbrev pub code_conflict : String
code_conflict = "conflict"

abbrev pub code_upstream_error : String
code_upstream_error = "upstream_error"

abbrev pub code_internal_error : String
code_internal_error = "internal_error"

-- An envelope with an error.
pub record Failure : Type 0 where
  pub status : ℕ
  pub code : String
  pub message : String
  pub fields : List (String × String)

-- An envelope with data.
pub record Reply (A : Type 0) : Type 0 where
  pub status : ℕ
  pub body : A

abbrev pub reply_ok : {A : Type 0} → A → Reply A
reply_ok body = record { status = 200; body = body }

abbrev pub created : {A : Type 0} → A → Reply A
created body = record { status = 201; body = body }

abbrev pub fail : ℕ → String → String → Failure
fail status code message = record { status = status; code = code; message = message; fields = [] }

abbrev pub internal_error : Failure
internal_error = fail 500 code_internal_error "internal error"

-- The validator's error of one field.
pub record FieldError : Type 0 where
  pub field : String
  pub tag : String
  pub param : String

-- What `ShouldBindJSON` fails with.
pub data BindError : Type 0 where
  invalid : List FieldError → BindError
  malformed : String → BindError

unfoldable pub humanize_tag : FieldError → String
humanize_tag fe =
    if str_eq fe.tag "required"
    then "必填"
    else if str_eq fe.tag "email"
    then "邮箱格式不合法"
    else if str_eq fe.tag "min"
    then append "至少 " (append fe.param " 个字符")
    else if str_eq fe.tag "max"
    then append "至多 " (append fe.param " 个字符")
    else if str_eq fe.tag "len"
    then append "长度必须为 " fe.param
    else append "不符合规则: " fe.tag

-- `strings.ToLower` is a parameter.
abbrev pub lower_first : (String → String) → String → String
lower_first to_lower s =
    if str_eq s "" then s else append (to_lower (slice s 0 1)) (slice s 1 (len s))

abbrev pub validation_field_map : (String → String) → List FieldError → List (String × String)
validation_field_map to_lower errors =
    map (λ fe. (lower_first to_lower fe.field, humanize_tag fe)) errors

-- The outcome of `ShouldBindJSON`, with its errors as failures.
unfoldable pub bind_json : {A : Type 0} → (String → String) → Result BindError A → Result Failure A
bind_json to_lower (ok req) = ok req
bind_json to_lower (err (invalid errors)) = err (record {
  status = 422;
  code = code_validation_failed;
  message = "参数校验失败";
  fields = validation_field_map to_lower errors;
})
bind_json to_lower (err (malformed text)) =
    err (fail 400 code_validation_failed (append "请求体格式错误: " text))

-- The answer to an error of a repository or a service.
abbrev pub failing : {E A D : Type 0} → (E → Failure) → Result E A × D → Result Failure A × D
failing answer (ok a, d) = (ok a, d)
failing answer (err e, d) = (err (answer e), d)

-- `if err := m; err != nil { httpx.Fail(…); return }`
abbrev pub answering : {E A D : Type 0} → (E → Failure) → Action D E A → Action D Failure A
answering answer m d = failing answer (m d)

-- `if req.X != nil { … }`
abbrev pub when_given :
    {A D : Type 0} → Option A → (A → Action D Failure Unit) → Action D Failure Unit
when_given none k = pure tt
when_given (some a) k = k a
