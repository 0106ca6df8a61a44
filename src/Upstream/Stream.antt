-- ===== src/Upstream/Stream.antt =====
-- internal/upstream/openai.go: the loop of `callResponses` that reads the stream of events.
pub mod Reading
use Prim.Native.String.{slice, len, ◌++◌ as append}
use text.Mathlib.Text.{starts_with}
use shadraw.Base.{
  ℕ, String, Bool, true, false, not, ◌&&◌, ◌||◌, Option, none, some, List, [], ◌∷◌, Result, ok, err,
  str_eq, if◌then◌else◌,
}
use shadraw.Upstream.{Error, ErrorKind, bad_request, network, unknown}
use shadraw.Upstream.Json.{Json, Codec, find_result_base64}

-- What `ReadString('\n')` gives: the lines, of which the text before the end of the stream is the
-- last one, and the error of a stream that breaks off, whose last text is dropped.
pub record Stream : Type 0 where
  pub lines : List String
  pub broken : Option String

-- `sawImageEvent` and `sawTextEvent`.
pub record Seen : Type 0 where
  pub image_event : Bool
  pub text_event : Bool

pub data LineStep : Type 0 where
  go_on : Seen → LineStep
  return : Result Error (List ℕ) → LineStep

abbrev pub sse_evt_image_gen : String
sse_evt_image_gen = "response.image_generation_call"

abbrev pub error_of : ErrorKind → String → Error
error_of kind message = record { kind = kind; status = 0; message = message }

abbrev pub from_byte : String → ℕ → String
from_byte s n = slice s n (len s)

abbrev pub decoded : Result String (List ℕ) → Result Error (List ℕ)
decoded (ok png) = ok png
decoded (err text) = err (error_of unknown (append "base64: " text))

-- What follows `json.Unmarshal`: none where it fails.
unfoldable pub json_step : Codec → Seen → Option Json → LineStep
json_step codec seen none = go_on seen
json_step codec seen (some obj) =
    let b64 = find_result_base64 obj in
    if str_eq b64 "" then go_on seen else return (decoded (codec.decode_string b64))

unfoldable pub data_step : Codec → Seen → String → LineStep
unfolding json_step
data_step codec seen data_str =
    if str_eq data_str "" || str_eq data_str "[DONE]"
    then go_on seen
    else json_step codec seen (codec.unmarshal data_str)

abbrev pub event_step : Seen → String → Seen
event_step seen ev = record {
  image_event = seen.image_event || starts_with ev sse_evt_image_gen;
  text_event = seen.text_event || starts_with ev "response.output_text.";
}

-- One line, without the space around it.
unfoldable pub trimmed_step : Codec → Seen → String → LineStep
unfolding data_step
trimmed_step codec seen trim =
    if str_eq trim ""
    then go_on seen
    else if starts_with trim "event: "
    then go_on (event_step seen (codec.trim_space (from_byte trim 7)))
    else if starts_with trim "data: "
    then data_step codec seen (codec.trim_space (from_byte trim 6))
    else go_on seen

-- After the loop.
unfoldable pub end_error : Option String → Seen → Error
end_error (some text) seen = error_of network text
end_error none seen =
    if not seen.image_event && seen.text_event
    then error_of bad_request "模型未调用 image_generation 工具，请检查 prompt"
    else error_of unknown "SSE 流结束但未捕获到图片"

unfoldable pub read_lines : Codec → Option String → Seen → List String → Result Error (List ℕ)
unfolding trimmed_step end_error
read_lines codec broken seen [] = err (end_error broken seen)
read_lines codec broken seen (line ∷ rest) =
    elim (trimmed_step codec seen (codec.trim_space line)) [
      | go_on seen' ↦ read_lines codec broken seen' rest
      | return result ↦ result
    ]

unfoldable pub read_stream : Codec → Stream → Result Error (List ℕ)
unfolding read_lines
read_stream codec stream =
    read_lines codec stream.broken (record { image_event = false; text_event = false }) stream.lines
