-- ===== src/Upstream.antt =====
-- internal/upstream/openai.go: `Generate` and its data. The two calls of the API are the fields of
-- `Transport`, which `Calls` fills; the base URL is normalized there. The time that a call takes is
-- left out.
pub mod Kinds
pub mod Json
pub mod Stream
pub mod Requests
pub mod Calls
mod Tests
use Prim.Native.String.{slice, len}
use text.Mathlib.Text.{find?}
use shadraw.Base.{
  ℕ, zero, suc, ◌+◌, String, Bool, true, false, ◌||◌, Option, none, some, List, [], ◌∷◌, Result, ok,
  err, leb, ◌==◌, str_eq, if◌then◌else◌,
}
use shadraw.Imagegen
use shadraw.Imagegen.{Params}

abbrev pub images_api_model : String
images_api_model = "gpt-image-2"

pub data ErrorKind : Type 0 where
  auth_failed rate_limited bad_request not_found upstream_error network unknown : ErrorKind

pub record Error : Type 0 where
  pub kind : ErrorKind
  pub status : ℕ
  pub message : String

pub record Config : Type 0 where
  pub base_url : String
  pub api_key : String

pub record GenerateParams : Type 0 where
  pub model : String
  pub prompt : String
  pub image_params : Params
  -- The data URLs.
  pub reference_images : List String

pub record GenerateResult : Type 0 where
  pub image : List ℕ
  pub mime : String
  pub extension : String

-- `callImages` and `callResponses`, by the configuration.
pub record Transport : Type 0 where
  pub call_images : Config → GenerateParams → Result Error (List ℕ)
  pub call_responses : Config → GenerateParams → Result Error (List ℕ)

abbrev pub is_unset : Config → Bool
is_unset cfg = str_eq cfg.base_url "" || str_eq cfg.api_key ""

abbrev pub packed : GenerateParams → Result Error (List ℕ) → Result Error GenerateResult
packed p (err e) = err e
packed p (ok image) = ok (record {
  image = image;
  mime = Imagegen.mime p.image_params.output_format;
  extension = Imagegen.extension p.image_params.output_format;
})

abbrev pub normalized : GenerateParams → GenerateParams
normalized p = record p { image_params = Imagegen.normalize (some p.image_params) }

unfoldable pub generate : Transport → Config → GenerateParams → Result Error GenerateResult
generate transport cfg given =
    let p = normalized given in
    if is_unset cfg
    then err (record { kind = bad_request; status = 0; message = "upstream config not set" })
    else packed p (
        if str_eq p.model images_api_model
        then transport.call_images cfg p
        else transport.call_responses cfg p)

-- The `switch` of `classifyHTTPError`.
unfoldable pub kind_of : ℕ → ErrorKind
kind_of status =
    if status == 401 || status == 403
    then auth_failed
    else if status == 404
    then not_found
    else if status == 429
    then rate_limited
    else if status == 400 || status == 422
    then bad_request
    else if leb 500 status
    then upstream_error
    else unknown

abbrev pub after_slash : String → Option ℕ → String
after_slash mime (some (suc i)) = slice mime (suc (suc i)) (len mime)
after_slash mime _ = "bin"

unfoldable pub mime_to_ext : String → String
mime_to_ext mime =
    if str_eq mime "image/jpeg"
    then "jpg"
    else if str_eq mime "image/png"
    then "png"
    else if str_eq mime "image/webp"
    then "webp"
    else after_slash mime (find? mime "/")
