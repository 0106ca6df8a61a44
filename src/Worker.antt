-- ===== src/Worker.antt =====
-- internal/worker/pool.go: one round of a worker, and the messages that a failed generation leaves.
-- The store of blobs, the text of an error and `strings.ToLower` are parameters. `meanwhile` is
-- what other statements do to the database while the image is generated.
pub mod Protocol
pub mod Outcomes
pub mod Pool
mod Tests
use Prim.Native.String.{slice, len, ◌++◌ as append}
use text.Mathlib.Text.{find?}
use shadraw.Base.{
  ℕ, String, Bool, true, false, ◌||◌, Option, none, some, List, [], ◌∷◌, Result, ok, err, leb,
  str_eq, if◌then◌else◌,
}
use shadraw.Table.{Table}
use shadraw.Record
use shadraw.Record.{Record}
use shadraw.Record.Repo
use shadraw.Upstream
use shadraw.Upstream.{Config, GenerateParams, GenerateResult, Transport}

-- What the worker is given.
pub record Services : Type 0 where
  pub transport : Transport
  pub config : Config
  -- `blob.Put` of the image for a user, a uuid and an extension: the path, or the error's text.
  pub put : ℕ → String → String → List ℕ → Result String String
  pub text : Upstream.Error → String
  pub to_lower : String → String

abbrev pub truncate : String → ℕ → String
truncate s n = if leb (len s) n then s else append (slice s 0 n) "..."

abbrev pub is_some : {A : Type 0} → Option A → Bool
is_some none = false
is_some (some _) = true

abbrev pub contains : String → String → Bool
contains s t = is_some (find? s t)

unfoldable pub is_safety_rejection : (String → String) → String → Bool
is_safety_rejection to_lower message =
    let normalized = to_lower message in
    contains normalized "moderation_blocked"
    || contains normalized "content_policy_violation"
    || contains normalized "image_generation_user_error"
    || contains normalized "rejected by the safety system"

unfoldable pub message_of : (String → String) → Upstream.ErrorKind → String → String
message_of to_lower Upstream.auth_failed message = "上游认证失败，请检查后台上游配置"
message_of to_lower Upstream.rate_limited message = "上游请求过于频繁，请稍后重试"
message_of to_lower Upstream.bad_request message =
    if is_safety_rejection to_lower message then "提示词被安全系统拒绝，请调整提示词后重试" else "生成请求被上游拒绝，请查看详情后重试"
message_of to_lower Upstream.not_found message = "上游接口或模型不存在，请检查后台上游配置"
message_of to_lower Upstream.network message = "无法连接上游服务，请稍后重试"
message_of to_lower Upstream.upstream_error message = "上游服务暂时无法完成生成，请稍后重试"
message_of to_lower Upstream.unknown message = "生成失败，请稍后重试"

-- `Generate` returns errors of the type `*upstream.Error` only.
unfoldable pub user_facing_generation_error : (String → String) → Upstream.Error → String
user_facing_generation_error to_lower e = message_of to_lower e.kind e.message

unfoldable pub upstream_error_detail : (Upstream.Error → String) → Upstream.Error → String
upstream_error_detail text e = truncate (text e) 1000

abbrev pub references : Option (List String) → List String
references none = []
references (some urls) = urls

abbrev pub request_of : Record → GenerateParams
request_of rec = record {
  model = rec.model;
  prompt = rec.prompt;
  image_params = rec.image_params;
  reference_images = references rec.reference_images;
}

module _ {Db : Type 0} (records : Table Db Record Record.key Record.Fills)
    (services : Services) where
  -- The last step: the path is stored, or the error of `Put`.
  unfoldable pub settle_stored : ℕ → Record → Result String String → Db → Db
  settle_stored now rec (ok path) d = (Repo.store_generated records now rec.id path d).1
  settle_stored now rec (err text) d =
      (Repo.mark_failed records now rec.id (append "存储失败: " text) d).1

  unfoldable pub settle_image : ℕ → Record → String → List ℕ → Db → Db
  unfolding settle_stored
  settle_image now rec extension [] d = (Repo.mark_failed records now rec.id "生成失败，请稍后重试" d).1
  settle_image now rec extension (b ∷ image) d =
      settle_stored now rec (services.put rec.user_id rec.uuid extension (b ∷ image)) d

  unfoldable pub settle_result : ℕ → Record → Result Upstream.Error GenerateResult → Db → Db
  unfolding settle_image
  settle_result now rec (err e) d =
      (Repo.mark_failed_with_upstream_error records now rec.id
        (user_facing_generation_error services.to_lower e) (upstream_error_detail services.text e)
        d).1
  settle_result now rec (ok result) d = settle_image now rec result.extension result.image d

  -- What a worker does with the record that it claimed.
  unfoldable pub settle : ℕ → Record → Db → Db
  unfolding settle_result
  settle now rec d =
      if Upstream.is_unset services.config
      then (Repo.mark_failed records now rec.id "管理员未配置上游接口" d).1
      else settle_result now rec
          (Upstream.generate services.transport services.config (request_of rec)) d

  unfoldable pub tick_claimed :
      ℕ → (Db → Db) → Result Record.Error Record × Db → Result Record.Error Bool × Db
  unfolding settle
  tick_claimed now meanwhile (ok rec, d) = (ok true, settle now rec (meanwhile d))
  tick_claimed now meanwhile (err Record.not_found, d) = (ok false, d)
  tick_claimed now meanwhile (err e, d) = (err e, d)

  unfoldable pub tick_once : ℕ → ℕ → (Db → Db) → Db → Result Record.Error Bool × Db
  unfolding tick_claimed
  tick_once start now meanwhile d = tick_claimed now meanwhile (Repo.claim_waiting records start d)
