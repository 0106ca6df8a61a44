-- ===== src/Upstream/Requests.antt =====
-- internal/upstream/openai.go: the fields of the requests. A map of fields is a list without an order
-- of its own: `set` replaces the value of a key, or adds the key at the end.
pub mod Optional
use Prim.Native.String.{◌++◌ as append}
use shadraw.Base.{
  ℤ, pos, String, Bool, true, false, not, ◌&&◌, Option, none, some, List, [], ◌∷◌, str_eq,
  if◌then◌else◌,
}
use shadraw.Imagegen.{Params}
use shadraw.Upstream.{GenerateParams}
use shadraw.Upstream.Json.{
  Json, str, number, flag, array, object, Items, no_items, item, Fields, no_fields, field,
}

abbrev pub Form : Type 0
Form = List (String × String)

-- `fields[key] = value`, on a map that is a JSON value and on one of texts.
unfoldable pub set : String → Json → Fields → Fields
set key value no_fields = field key value no_fields
set key value (field k v fs) =
    let rest = set key value fs in if str_eq k key then field k value fs else field k v rest

unfoldable pub set_text : String → String → Form → Form
set_text key value [] = (key, value) ∷ []
set_text key value ((k, v) ∷ fs) =
    let rest = set_text key value fs in if str_eq k key then (k, value) ∷ fs else (k, v) ∷ rest

abbrev pub set_unless_empty : String → String → Fields → Fields
set_unless_empty key value fs = if str_eq value "" then fs else set key (str value) fs

abbrev pub set_number : String → Option ℤ → Fields → Fields
set_number key none fs = fs
set_number key (some n) fs = set key (number n) fs

abbrev pub set_flag : String → Option Bool → Fields → Fields
set_flag key none fs = fs
set_flag key (some b) fs = set key (flag b) fs

abbrev pub set_images_only : Bool → String → String → Fields → Fields
set_images_only include key value fs =
    if not (str_eq value "") && include then set key (str value) fs else fs

unfoldable pub add_optional_image_fields : Fields → Params → Bool → Fields
add_optional_image_fields dst params include_images_only =
    let dst1 = set_unless_empty "background" params.background dst in
    let dst2 = set_unless_empty "moderation" params.moderation dst1 in
    let dst3 = set_unless_empty "output_format" params.output_format dst2 in
    let dst4 = set_number "output_compression" params.output_compression dst3 in
    let dst5 = set_flag "stream" params.stream dst4 in
    let dst6 = set_number "partial_images" params.partial_images dst5 in
    let dst7 = set_unless_empty "input_fidelity" params.input_fidelity dst6 in
    let dst8 = set_images_only include_images_only "response_format" params.response_format dst7 in
    let dst9 = set_images_only include_images_only "style" params.style dst8 in
    set_images_only include_images_only "user" params.user dst9

abbrev pub put_unless_empty : String → String → Form → Form
put_unless_empty key value fs = if str_eq value "" then fs else set_text key value fs

abbrev pub put_number : (ℤ → String) → String → Option ℤ → Form → Form
put_number decimal key none fs = fs
put_number decimal key (some n) fs = set_text key (decimal n) fs

-- `fmt.Sprintf("%t", b)`
abbrev pub truth : Bool → String
truth true = "true"
truth false = "false"

abbrev pub put_flag : String → Option Bool → Form → Form
put_flag key none fs = fs
put_flag key (some b) fs = set_text key (truth b) fs

abbrev pub put_images_only : Bool → String → String → Form → Form
put_images_only include key value fs =
    if not (str_eq value "") && include then set_text key value fs else fs

-- The fields that it writes to the form, in the order in which the loop over the map, `range`, finds
-- them.
unfoldable pub write_optional_image_fields : (ℤ → String) → (Form → Form) → Params → Bool → Form
write_optional_image_fields decimal range params include_images_only =
    let fields1 = put_unless_empty "background" params.background [] in
    let fields2 = put_unless_empty "moderation" params.moderation fields1 in
    let fields3 = put_unless_empty "output_format" params.output_format fields2 in
    let fields4 = put_number decimal "output_compression" params.output_compression fields3 in
    let fields5 = put_flag "stream" params.stream fields4 in
    let fields6 = put_number decimal "partial_images" params.partial_images fields5 in
    let fields7 = put_unless_empty "input_fidelity" params.input_fidelity fields6 in
    let fields8 =
      put_images_only include_images_only "response_format" params.response_format fields7 in
    let fields9 = put_images_only include_images_only "style" params.style fields8 in
    range (put_images_only include_images_only "user" params.user fields9)

-- The body of `callImagesGenerations`, of the normalized parameters.
unfoldable pub generations_body : GenerateParams → Params → Fields
unfolding add_optional_image_fields
generations_body p params =
    add_optional_image_fields
      (field "model" (str p.model) (
        field "prompt" (str p.prompt) (
          field "size" (str params.size)
            (field "quality" (str params.quality) (field "n" (number params.n) no_fields)))))
      params true

-- The values of the form of `callImagesEdits`.
unfoldable pub edits_values : (ℤ → String) → (Form → Form) → GenerateParams → Params → Form
unfolding write_optional_image_fields
edits_values decimal range p params =
    ("model", p.model)
    ∷ ("prompt", p.prompt)
    ∷ ("size", params.size)
    ∷ ("quality", params.quality)
    ∷ ("n", decimal params.n)
    ∷ write_optional_image_fields decimal range params true

abbrev pub input_images : List String → Items
input_images [] = no_items
input_images (url ∷ urls) =
    item (object (field "type" (str "input_image") (field "image_url" (str url) no_fields)))
      (input_images urls)

unfoldable pub build_responses_user_content : String → List String → Json
build_responses_user_content prompt [] = str (append "请生成以下描述的图片:" prompt)
build_responses_user_content prompt (url ∷ urls) = array (
    item
      (object (
        field "type" (str "input_text")
          (field "text" (str (append "请基于下方参考图生成新的图片,描述:" prompt)) no_fields)))
      (input_images (url ∷ urls)))

abbrev pub system_prompt_for_codex : String
system_prompt_for_codex =
    "你是一个图片生成助手。用户要求你生成图片时,你必须调用 image_generation 工具来生成图片,不要用文字描述图片内容。直接生成图片,不要多说任何话。"

abbrev pub role_content : String → Json → Json
role_content role content = object (field "role" (str role) (field "content" content no_fields))

unfoldable pub responses_tool : Params → Fields
unfolding add_optional_image_fields
responses_tool params =
    add_optional_image_fields
      (field "type" (str "image_generation")
        (field "size" (str params.size) (field "quality" (str params.quality) no_fields)))
      params false

unfoldable pub responses_body : GenerateParams → Params → Fields
unfolding build_responses_user_content responses_tool
responses_body p params = field "model" (str p.model) (
    field "input"
      (array (
        item (role_content "system" (str system_prompt_for_codex)) (
          item (role_content "user" (build_responses_user_content p.prompt p.reference_images))
            no_items)))
      (field "tools" (array (item (object (responses_tool params)) no_items)) (
        field "tool_choice" (object (field "type" (str "image_generation") no_fields))
          (field "stream" (flag true) no_fields))))
