-- ===== src/Upstream/Tests.antt =====
-- The client with an API that draws one byte, and readers that take every text as it stands.
use shadraw.Base.{ℤ, ◌≡◌, refl, inl, inr, String, true, none, some, ok, err, [], ◌∷◌, Elem}
use mathlib.Core.List.{Perm, reverse, reverse_perm}
use shadraw.Imagegen
use shadraw.Upstream.{Config, GenerateParams, GenerateResult, Transport, generate}
use shadraw.Upstream.Json.{
  Json, str, object, field, no_fields, array, item, no_items, Codec, find_result_base64,
}
use shadraw.Upstream.Json.Search.{Occurs}
use shadraw.Upstream.Stream.{Stream, sse_evt_image_gen, read_stream}
use shadraw.Upstream.Stream.Reading.{
  any_event, first_image, outcome, Carries, read_stream-outcome, read_stream-ok,
}
use shadraw.Upstream.Requests.{generations_body, edits_values}
use shadraw.Upstream.Requests.Optional.{as_form, generations-edits}
use shadraw.Upstream.Calls.{
  Response, Net, transport as client, normalize_base_url, decode_data_url, do_request,
  call_images_generations,
}
use shadraw.Upstream.Calls.Replies.{Drawn, generate-Drawn}
use shadraw.Upstream.Calls.DataUrl.{Refused, generate-Refused}

abbrev transport : Transport
transport = record { call_images = λ cfg p. ok (137 ∷ []); call_responses = λ cfg p. ok (255 ∷ []) }

abbrev config : Config
config = record { base_url = "https://api"; api_key = "sk" }

abbrev request : GenerateParams
request = record {
  model = "gpt-image-2";
  prompt = "a cat";
  image_params = record Imagegen.default_params { output_format = "jpeg" };
  reference_images = [];
}

abbrev drawn : GenerateResult
drawn = record { image = 137 ∷ []; mime = "image/jpeg"; extension = "jpg" }

draws : generate transport config request ≡ ok drawn
unfolding generate Imagegen.normalize Imagegen.default_params Imagegen.mime Imagegen.extension
    Imagegen.or_default
draws = refl

abbrev answer : Json
answer = object (
    field "type" (str "done") (
      field "output" (array (item (object (field "result" (str "iVBORw0K") no_fields)) no_items))
        no_fields))

-- It reads every text as the text of a `result`.
abbrev codec : Codec
codec = record {
  trim_space = λ s. s;
  unmarshal = λ s. some (object (field "result" (str s) no_fields));
  decode_string = λ s. ok (137 ∷ []);
}

abbrev stream : Stream
stream = record {
  lines =
      "event: response.image_generation_call.done" ∷ "data: [DONE]" ∷ "data: iVBORw0K" ∷ "" ∷ [];
  broken = some "connection reset";
}

reads : read_stream codec stream ≡ ok (137 ∷ [])
unfolding read_stream find_result_base64
reads = refl

read_stream-outcome_example :
    read_stream codec stream
    ≡ outcome codec stream.broken
        (record {
          image_event = any_event codec sse_evt_image_gen stream.lines;
          text_event = any_event codec "response.output_text." stream.lines;
        })
        (first_image codec stream.lines)
read_stream-outcome_example = read_stream-outcome codec stream

read_stream-ok_example :
    (line : String) × (obj : Json) × (r : String) × Elem line stream.lines
    × Carries codec line obj
    × Occurs r obj
    × (codec.decode_string r ≡ ok (137 ∷ []))
read_stream-ok_example = read_stream-ok codec stream (137 ∷ []) reads

abbrev decimal : ℤ → String
decimal n = "1"

generations-edits_example :
    Perm
      (edits_values decimal
        (λ form. reverse form)
        request
        (record request.image_params { stream = some true; user = "u" }))
      (as_form decimal
        (generations_body request (record request.image_params { stream = some true; user = "u" })))
generations-edits_example =
    generations-edits decimal (λ form. reverse form) request
      (record request.image_params { stream = some true; user = "u" }) (λ form. reverse_perm form)

abbrev reply : Response
reply = record {
  status = 200;
  read_all = λ n. "";
  images = ok ("" ∷ "iVBORw0K" ∷ []);
  stream = stream;
}

abbrev net : Net
net = record {
  codec = codec;
  refuses = λ method url. none;
  send = λ req. ok reply;
  probe = λ s. none;
  decimal = decimal;
  range = λ form. form;
  unix_nano = 0;
  form_data_content_type = "multipart/form-data; boundary=b";
}

calls : generate (client net) config request ≡ ok drawn
unfolding generate client Imagegen.normalize Imagegen.default_params Imagegen.mime
    Imagegen.extension Imagegen.or_default call_images_generations do_request
calls = refl

generate-Drawn_example : Drawn net "sk" (137 ∷ [])
generate-Drawn_example = generate-Drawn net config request drawn calls

abbrev edit : GenerateParams
edit = record request {
  reference_images = "data:image/png;base64,iVBORw0K" ∷ "https://cat.png" ∷ [];
}

malformed : decode_data_url codec "https://cat.png" ≡ err "not a data url"
unfolding decode_data_url
malformed = refl

strips : normalize_base_url codec "https://api/v1//" ≡ "https://api"
unfolding normalize_base_url
strips = refl

generate-Refused_example : Refused net (λ n. generate (client n) config edit)
generate-Refused_example =
    generate-Refused net config edit "https://cat.png" "not a data url" refl refl (inr (inl refl))
      malformed
