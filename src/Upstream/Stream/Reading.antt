-- ===== src/Upstream/Stream/Reading.antt =====
-- The loop that reads the stream, against a description of the stream as a whole.
use text.Mathlib.Text.{starts_with}
use shadraw.Base.{
  ℕ, ◌≡◌, ◌≢◌, refl, sym, ap, ◌∙◌, inl, inr, String, Bool, true, false, not, ◌&&◌, ◌||◌, Option,
  none, some, List, [], ◌∷◌, Result, ok, err, str_eq, eq_iff, if◌then◌else◌, Bool-cases,
  Option-cases, Elem,
}
use shadraw.Upstream.{Error}
use shadraw.Upstream.Json.{Json, Codec, find_result_base64}
use shadraw.Upstream.Json.Search.{Occurs, find_result_base64-Occurs}
use shadraw.Upstream.Stream.{
  Stream, Seen, LineStep, go_on, return, sse_evt_image_gen, from_byte, decoded, json_step,
  data_step, trimmed_step, end_error, read_lines, read_stream,
}

abbrev pub is_event : Codec → String → String → Bool
is_event codec name trim =
    starts_with trim "event: " && starts_with (codec.trim_space (from_byte trim 7)) name

-- The text after `data: `, and the empty text for another line.
abbrev pub data_of : Codec → String → String
data_of codec trim =
    if not (starts_with trim "event: ") && starts_with trim "data: "
    then codec.trim_space (from_byte trim 6)
    else ""

unfoldable pub found_in : Option Json → String
found_in none = ""
found_in (some obj) = find_result_base64 obj

-- The image in base64 that a line carries, and the empty text for a line without one.
unfoldable pub image_text : Codec → String → String
image_text codec trim =
    let body = data_of codec trim in
    if str_eq body "" || str_eq body "[DONE]" then "" else found_in (codec.unmarshal body)

unfoldable pub first_image : Codec → List String → String
first_image codec [] = ""
first_image codec (line ∷ rest) =
    let later = first_image codec rest in
    let here = image_text codec (codec.trim_space line) in if str_eq here "" then later else here

unfoldable pub any_event : Codec → String → List String → Bool
any_event codec name [] = false
any_event codec name (line ∷ rest) =
    is_event codec name (codec.trim_space line) || any_event codec name rest

abbrev pub seen_in : Codec → Seen → List String → Seen
seen_in codec seen lines = record {
  image_event = seen.image_event || any_event codec sse_evt_image_gen lines;
  text_event = seen.text_event || any_event codec "response.output_text." lines;
}

abbrev pub outcome : Codec → Option String → Seen → String → Result Error (List ℕ)
outcome codec broken seen image =
    if str_eq image "" then err (end_error broken seen) else decoded (codec.decode_string image)

or_false : (b : Bool) → (b || false) ≡ b
or_false true = refl
or_false false = refl

or_assoc : (a b c : Bool) → ((a || b) || c) ≡ (a || (b || c))
or_assoc true b c = refl
or_assoc false b c = refl

module _ (codec : Codec) where
  abbrev with_event : Seen → String → Seen
  with_event seen trim = record {
    image_event = seen.image_event || is_event codec sse_evt_image_gen trim;
    text_event = seen.text_event || is_event codec "response.output_text." trim;
  }

  abbrev step_on : Seen → String → LineStep
  step_on seen image =
      if str_eq image "" then go_on seen else return (decoded (codec.decode_string image))

  json_step-found_in :
      (seen : Seen) (obj : Option Json) → json_step codec seen obj ≡ step_on seen (found_in obj)
  unfolding json_step found_in
  json_step-found_in seen none = refl
  json_step-found_in seen (some obj) = refl

  no_event :
      (seen : Seen) (trim : String)
      → starts_with trim "event: " ≡ false
      → with_event seen trim ≡ seen
  no_event seen trim e = rw (e, or_false seen.image_event, or_false seen.text_event) refl

  data_step-found_in :
      (seen : Seen) (body : String)
      → data_step codec seen body
        ≡ step_on seen
            (if str_eq body "" || str_eq body "[DONE]" then "" else found_in (codec.unmarshal body))
  unfolding data_step
  data_step-found_in seen body = elim (Bool-cases (str_eq body "" || str_eq body "[DONE]")) [
    | inl e ↦ rw e refl
    | inr e ↦ rw e (json_step-found_in seen (codec.unmarshal body))
  ]

  trimmed_step-image_text :
      (seen : Seen) (trim : String)
      → trimmed_step codec seen trim ≡ step_on (with_event seen trim) (image_text codec trim)
  unfolding trimmed_step image_text
  trimmed_step-image_text seen trim = elim (Bool-cases (str_eq trim "")) [
    | inl empty ↦
        rw ((eq_iff trim "").0 empty)
          (rw (or_false seen.image_event, or_false seen.text_event) refl)
    | inr has ↦ elim (Bool-cases (starts_with trim "event: ")) [
      | inl e ↦ rw (has, e) refl
      | inr e ↦
          rw (no_event seen trim e, has, e)
            (elim (Bool-cases (starts_with trim "data: ")) [
              | inl f ↦ rw f (data_step-found_in seen (codec.trim_space (from_byte trim 6)))
              | inr f ↦ rw f refl
            ])
    ]
  ]

  seen_in-cons :
      (seen : Seen) (line : String) (rest : List String)
      → seen_in codec (with_event seen (codec.trim_space line)) rest
        ≡ seen_in codec seen (line ∷ rest)
  unfolding any_event
  seen_in-cons seen line rest =
      let trim = codec.trim_space line in
      rw
        (
          or_assoc seen.image_event (is_event codec sse_evt_image_gen trim) _,
          or_assoc seen.text_event (is_event codec "response.output_text." trim) _,
        )
        refl

  read_lines-outcome :
      (broken : Option String) (seen : Seen) (lines : List String)
      → read_lines codec broken seen lines
        ≡ outcome codec broken (seen_in codec seen lines) (first_image codec lines)
  unfolding read_lines first_image any_event
  read_lines-outcome broken seen [] = rw (or_false seen.image_event, or_false seen.text_event) refl
  read_lines-outcome broken seen (line ∷ rest) =
      let trim = codec.trim_space line in
      rw (read_lines, trimmed_step-image_text seen trim)
        (elim (Bool-cases (str_eq (image_text codec trim) "")) [
          | inl e ↦ rw e (
              read_lines-outcome broken (with_event seen trim) rest
              ∙ ap (λ s. outcome codec broken s (first_image codec rest))
                  (seen_in-cons seen line rest))
          | inr e ↦ rw e (rw e refl)
        ])

-- Reading a stream line by line gives the image of the first line that carries one, decoded, whatever
-- comes before or after it and even if the stream breaks off; without such a line it gives the
-- error of the connection, and else the error that tells a reply without an image from a reply in
-- words, by the events of the whole stream.
pub read_stream-outcome :
    (codec : Codec) (stream : Stream)
    → read_stream codec stream
      ≡ outcome codec stream.broken
          (record {
            image_event = any_event codec sse_evt_image_gen stream.lines;
            text_event = any_event codec "response.output_text." stream.lines;
          })
          (first_image codec stream.lines)
unfolding read_stream
read_stream-outcome codec stream =
    read_lines-outcome codec stream.broken (record { image_event = false; text_event = false })
      stream.lines

decoded-ok :
    (result : Result String (List ℕ)) (image : List ℕ)
    → decoded result ≡ ok image
    → result ≡ ok image
decoded-ok (ok png) image h = cc
decoded-ok (err text) image h = cc

outcome-ok :
    (codec : Codec) (broken : Option String) (seen : Seen) (text : String) (image : List ℕ)
    → outcome codec broken seen text ≡ ok image
    → (text ≢ "") × (codec.decode_string text ≡ ok image)
outcome-ok codec broken seen text image = elim (Bool-cases (str_eq text "")) [
  | inl e ↦ rw e (λ h. cc)
  | inr e ↦ rw e (λ h.
      ((λ empty. cc (e, (eq_iff text "").1 empty)), decoded-ok (codec.decode_string text) image h))
]

-- The data of a line: a value that the library reads in the text after `data: `.
abbrev pub Carries : Codec → String → Json → Type 0
Carries codec trim obj = codec.unmarshal (data_of codec trim) ≡ some obj

image_text-Carries :
    (codec : Codec) (trim : String)
    → image_text codec trim ≢ ""
    → (obj : Json) × Carries codec trim obj × Occurs (image_text codec trim) obj
unfolding image_text found_in
image_text-Carries codec trim =
    let body = data_of codec trim in
    elim (Bool-cases (str_eq body "" || str_eq body "[DONE]")) [
      | inl e ↦ rw e (λ ne. absurd (ne refl))
      | inr e ↦ elim (Option-cases (codec.unmarshal body)) [
        | inl f ↦ rw (e, f) (λ ne. absurd (ne refl))
        | inr (obj, f) ↦ rw (e, f) (λ ne. (obj, refl, find_result_base64-Occurs obj ne))
      ]
    ]

first_image-Elem :
    (codec : Codec) (lines : List String)
    → first_image codec lines ≢ ""
    → (line : String) × Elem line lines
      × (image_text codec (codec.trim_space line) ≡ first_image codec lines)
unfolding first_image
first_image-Elem codec [] = λ ne. absurd (ne refl)
first_image-Elem codec (line ∷ rest) =
    elim (Bool-cases (str_eq (image_text codec (codec.trim_space line)) "")) [
      | inl e ↦ rw e (λ ne. let (l, i, same) = first_image-Elem codec rest ne in (l, inr i, same))
      | inr e ↦ rw e (λ ne. (line, inl refl, refl))
    ]

-- An image that reading a stream gives is the decoded text of a `result` field in the JSON value of
-- one of the stream's lines.
pub read_stream-ok :
    (codec : Codec) (stream : Stream) (image : List ℕ)
    → read_stream codec stream ≡ ok image
    → (line : String) × (obj : Json) × (r : String) × Elem line stream.lines
      × Carries codec (codec.trim_space line) obj
      × Occurs r obj
      × (codec.decode_string r ≡ ok image)
read_stream-ok codec stream image h =
    let (ne, decodes) =
      outcome-ok codec stream.broken _ (first_image codec stream.lines) image
        (sym (read_stream-outcome codec stream) ∙ h) in
    let (line, i, same) = first_image-Elem codec stream.lines ne in
    let (obj, carries, occurs) =
      image_text-Carries codec (codec.trim_space line) (λ empty. ne (sym same ∙ empty)) in
    (
      line,
      obj,
      image_text codec (codec.trim_space line),
      i,
      carries,
      occurs,
      ap codec.decode_string same ∙ decodes,
    )
