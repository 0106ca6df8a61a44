-- ===== src/Upstream/Calls.antt =====
-- internal/upstream/openai.go: the calls of the API. The network and the standard library (URLs, JSON,
-- base64, the text of a number) are the parameter `Net`. The form of an edit is written to memory,
-- where `CreatePart`, `Write` and `Close` do not fail. Headers keep the order of the source.
pub mod Replies
pub mod DataUrl
use Prim.Native.String
use Prim.Native.Char.{code}
use Prim.Native.String.{slice, len, ◌++◌ as append}
use text.Mathlib.Text.{find?, starts_with}
use shadraw.Base.{
  ℕ, zero, suc, ◌-◌, ℤ, pos, String, Bool, true, false, not, ◌&&◌, ◌||◌, Option, none, some, List,
  [], ◌∷◌, ◌++◌, map, Result, ok, err, leb, ◌==◌, str_eq, if◌then◌else◌,
}
use shadraw.Imagegen
use shadraw.Imagegen.{Params}
use shadraw.Upstream.{
  Error, Config, GenerateParams, Transport, bad_request, network, auth_failed, unknown, kind_of,
  mime_to_ext,
}
use shadraw.Upstream.Json.{Json, object, Codec}
use shadraw.Upstream.Stream.{Stream, error_of, from_byte, read_stream}
use shadraw.Upstream.Requests.{Form, generations_body, edits_values, responses_body}

pub data Part : Type 0 where
  value_part : String → String → Part
  -- The name of the file, its type and its bytes, in the field `image`.
  image_part : String → String → List ℕ → Part

pub data Body : Type 0 where
  no_body : Body
  json_body : Json → Body
  form_body : List Part → Body

pub record Request : Type 0 where
  pub method : String
  pub url : String
  pub headers : List (String × String)
  pub body : Body

-- What the readers of the body give: `io.ReadAll` of a `LimitReader`, the decoder of
-- `{"data": [{"b64_json": …}]}`, and the lines.
pub record Response : Type 0 where
  pub status : ℕ
  pub read_all : ℕ → String
  pub images : Result String (List String)
  pub stream : Stream

-- The error of a JSON body: `error.message`, `error.type` and `message`.
pub record Probe : Type 0 where
  pub error_message : String
  pub error_type : String
  pub message : String

pub record Net : Type 0 where
  pub codec : Codec
  -- `http.NewRequest`: the error of a method and a URL.
  pub refuses : String → String → Option String
  -- `http.Client.Do`
  pub send : Request → Result String Response
  -- `json.Unmarshal` into the fields of `Probe`.
  pub probe : String → Option Probe
  -- `%d`
  pub decimal : ℤ → String
  -- The entries of a map, in the order in which `range` finds them.
  pub range : Form → Form
  pub unix_nano : ℕ
  pub form_data_content_type : String

-- `if err != nil { return nil, err }`
abbrev pub and_then : {A B : Type 0} → Result Error A → (A → Result Error B) → Result Error B
and_then (ok a) k = k a
and_then (err e) k = err e

-- `strings.TrimRight(s, "/")`
unfoldable pub trim_right_slashes : String → String
trim_right_slashes String.[] = ""
trim_right_slashes (String.◌∷◌ c s) =
    let rest = trim_right_slashes s in
    if str_eq rest "" && code c == 47 then "" else String.◌∷◌ c rest

abbrev pub has_suffix : String → String → Bool
has_suffix s t = leb (len t) (len s) && str_eq (from_byte s (len s - len t)) t

unfoldable pub normalize_base_url : Codec → String → String
unfolding trim_right_slashes
normalize_base_url codec u =
    let v = trim_right_slashes (codec.trim_space u) in
    if has_suffix v "/v1" then slice v 0 (len v - 3) else v

-- The message of a JSON error, and else the whole text.
abbrev pub probed : String → Option Probe → String
probed raw none = raw
probed raw (some probe) =
    if not (str_eq probe.error_message "")
    then if not (str_eq probe.error_type "")
      then append probe.error_type (append ": " probe.error_message)
      else probe.error_message
    else if not (str_eq probe.message "")
    then probe.message
    else raw

-- The 500th byte is taken to end a character.
abbrev pub shortened : String → String
shortened msg = if leb (len msg) 500 then msg else append (slice msg 0 500) "..."

unfoldable pub classify_http_error : Net → Response → Error
classify_http_error net resp =
    let raw = net.codec.trim_space (resp.read_all 2048) in
    let msg = if starts_with raw "{" then probed raw (net.probe raw) else raw in
    record { kind = kind_of resp.status; status = resp.status; message = shortened msg }

-- `NewRequest`: its error, or what follows.
abbrev pub after_new_request : Option String → Result Error Response → Result Error Response
after_new_request (some text) _ = err (error_of bad_request text)
after_new_request none after = after

abbrev pub replied : Result String Response → Result Error Response
replied (ok resp) = ok resp
replied (err text) = err (error_of network text)

-- `NewRequest`, then `Do`.
unfoldable pub do_request : Net → Request → Result Error Response
do_request net req = after_new_request (net.refuses req.method req.url) (replied (net.send req))

-- `if resp.StatusCode != http.StatusOK { return nil, classifyHTTPError(resp) }`
abbrev pub expect_ok : Net → Response → Result Error Response
expect_ok net resp = if resp.status == 200 then ok resp else err (classify_http_error net resp)

-- `decodeImageData`, from the item at an index on.
unfoldable pub decode_image_data : Net → ℕ → List String → Result Error (List ℕ)
decode_image_data net i [] = err (error_of unknown "empty image payload")
decode_image_data net i (b64 ∷ items) =
    let later = decode_image_data net (suc i) items in
    if str_eq b64 "" then later else elim (net.codec.decode_string b64) [
      | ok raw ↦ ok raw
      | err text ↦
          err
            (error_of unknown (append "base64[" (append (net.decimal (pos i)) (append "]: " text))))
    ]

unfoldable pub image_of_reply : Net → Response → Result Error (List ℕ)
unfolding decode_image_data
image_of_reply net resp = elim resp.images [
  | err text ↦ err (error_of unknown (append "decode: " text))
  | ok [] ↦ err (error_of unknown "empty image payload")
  | ok (b64 ∷ items) ↦ decode_image_data net 0 (b64 ∷ items)
]

-- `strings.Split(meta, ";")[0]`
abbrev pub before_semicolon : String → Option ℕ → String
before_semicolon meta none = meta
before_semicolon meta (some i) = slice meta 0 i

abbrev pub url_payload : Codec → String → Result String (List ℕ) → Result String (String × List ℕ)
url_payload codec mime (ok raw) = ok (mime, raw)
url_payload codec mime (err text) = err (append "base64: " text)

unfoldable pub decode_rest : Codec → String → Option ℕ → Result String (String × List ℕ)
decode_rest codec rest none = err "malformed data url"
decode_rest codec rest (some comma) =
    let meta = slice rest 0 comma in
    url_payload codec (before_semicolon meta (find? meta ";"))
      (codec.decode_string (from_byte rest (suc comma)))

unfoldable pub decode_data_url : Codec → String → Result String (String × List ℕ)
decode_data_url codec d =
    if starts_with d "data:"
    then (let rest = from_byte d 5 in decode_rest codec rest (find? rest ","))
    else err "not a data url"

unfoldable pub image_part_of : Net → ℕ → String × List ℕ → Part
image_part_of net i (mime, raw) =
    image_part
      (append "reference-" (append (net.decimal (pos (suc i))) (append "." (mime_to_ext mime))))
      mime raw

-- One reference image and the parts of those after it.
unfoldable pub reference_part :
    Net → ℕ → Result String (String × List ℕ) → Result Error (List Part) → Result Error (List Part)
unfolding image_part_of
reference_part net i (err text) later =
    err (error_of bad_request (append "ref[" (append (net.decimal (pos i)) (append "]: " text))))
reference_part net i (ok image) later =
    and_then later (λ parts. ok (image_part_of net i image ∷ parts))

-- The parts of the reference images, from the one at an index on.
unfoldable pub reference_parts : Net → ℕ → List String → Result Error (List Part)
unfolding reference_part
reference_parts net i [] = ok []
reference_parts net i (url ∷ urls) =
    reference_part net i (decode_data_url net.codec url) (reference_parts net (suc i) urls)

abbrev pub normalized_params : GenerateParams → Params
normalized_params p = Imagegen.normalize (some p.image_params)

abbrev pub bearer : String → String × String
bearer api_key = ("Authorization", append "Bearer " api_key)

unfoldable pub call_images_generations :
    Net → String → String → GenerateParams → Result Error (List ℕ)
unfolding image_of_reply
call_images_generations net base api_key p =
    and_then
      (do_request net (record {
        method = "POST";
        url = append base "/v1/images/generations";
        headers = ("Content-Type", "application/json") ∷ bearer api_key ∷ [];
        body = json_body (object (generations_body p (normalized_params p)));
      }))
      (λ resp. and_then (expect_ok net resp) (image_of_reply net))

abbrev pub value_parts : List (String × String) → List Part
value_parts values = map (λ kv. value_part kv.0 kv.1) values

abbrev pub edits_request : Net → String → String → GenerateParams → List Part → Request
edits_request net base api_key p images = record {
  method = "POST";
  url = append base "/v1/images/edits";
  headers = ("Content-Type", net.form_data_content_type) ∷ bearer api_key ∷ [];
  body =
      form_body
        (value_parts (edits_values net.decimal net.range p (normalized_params p)) ++ images);
}

unfoldable pub call_images_edits : Net → String → String → GenerateParams → Result Error (List ℕ)
unfolding reference_parts image_of_reply
call_images_edits net base api_key p =
    and_then (reference_parts net 0 p.reference_images) (λ images.
      and_then (do_request net (edits_request net base api_key p images))
        (λ resp. and_then (expect_ok net resp) (image_of_reply net)))

-- `if len(p.ReferenceImages) > 0 { return edits }; return generations`
abbrev pub with_references : {A : Type 0} → List String → A → A → A
with_references [] edits generations = generations
with_references (_ ∷ _) edits generations = edits

unfoldable pub call_images : Net → String → String → GenerateParams → Result Error (List ℕ)
call_images net base api_key p =
    with_references p.reference_images (call_images_edits net base api_key p)
      (call_images_generations net base api_key p)

abbrev pub responses_request : Net → String → String → GenerateParams → Request
responses_request net base api_key p = record {
  method = "POST";
  url = append base "/v1/responses";
  headers =
      ("Content-Type", "application/json")
      ∷ bearer api_key
      ∷ ("Accept", "text/event-stream")
      ∷ ("chatgpt-account-id", "")
      ∷ ("version", "0.122.0")
      ∷ ("originator", "codex_cli_rs")
      ∷ ("session_id", append "server-" (net.decimal (pos net.unix_nano)))
      ∷ [];
  body = json_body (object (responses_body p (normalized_params p)));
}

unfoldable pub call_responses : Net → String → String → GenerateParams → Result Error (List ℕ)
call_responses net base api_key p =
    and_then (do_request net (responses_request net base api_key p))
      (λ resp. and_then (expect_ok net resp) (λ checked. read_stream net.codec checked.stream))

-- What `Generate` calls, with the base URL that it normalizes.
unfoldable pub transport : Net → Transport
unfolding call_images call_responses
transport net = record {
  call_images = λ cfg p. call_images net (normalize_base_url net.codec cfg.base_url) cfg.api_key p;
  call_responses =
      λ cfg p. call_responses net (normalize_base_url net.codec cfg.base_url) cfg.api_key p;
}

abbrev pub test_reply : Response → Option Error
test_reply resp =
    if resp.status == 401 || resp.status == 403
    then some (record { kind = auth_failed; status = resp.status; message = resp.read_all 1024 })
    else if leb 500 resp.status
    then some (record { kind = unknown; status = resp.status; message = resp.read_all 1024 })
    else none

-- The error, or none.
unfoldable pub test_connection : Net → Config → Option Error
unfolding do_request
test_connection net cfg =
    elim (do_request net (record {
      method = "GET";
      url = append (normalize_base_url net.codec cfg.base_url) "/v1/models";
      headers = bearer cfg.api_key ∷ [];
      body = no_body;
    })) [ err e ↦ some e | ok resp ↦ test_reply resp ]
