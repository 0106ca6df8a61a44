-- ===== src/Upstream/Json.antt =====
-- internal/upstream/openai.go: JSON values (Go's `any`), what the client uses of the standard
-- library on them, and `findResultBase64`, the search of a decoded value for an image. Go ranges over a map in any order: the order of the fields here is the one that it took.
pub mod Search
use Prim.Native.String.{len}
use text.Mathlib.Text.{starts_with}
use shadraw.Base.{
  ℕ, ℤ, List, Option, Result, String, Bool, true, false, ◌||◌, ltb, str_eq, if◌then◌else◌,
}

mutual
  pub data Json : Type 0 where
    str : String → Json
    number : ℤ → Json
    flag : Bool → Json
    array : Items → Json
    object : Fields → Json
    -- Null, and a number with a fraction.
    other : Json

  pub data Items : Type 0 where
    no_items : Items
    item : Json → Items → Items

  pub data Fields : Type 0 where
    no_fields : Fields
    field : String → Json → Fields → Fields

-- The standard library: `strings.TrimSpace`, `json.Unmarshal` into `any`, and the decoder of
-- base64's standard encoding.
pub record Codec : Type 0 where
  pub trim_space : String → String
  pub unmarshal : String → Option Json
  pub decode_string : String → Result String (List ℕ)

abbrev pub looks_like_image : String → Bool
looks_like_image s = starts_with s "iVBOR" || ltb 1000 (len s)

-- The text of a `result` field, if it looks like an image, and else the empty text.
unfoldable pub own_result : String → Json → String
own_result key (str s) = if str_eq key "result" then (if looks_like_image s then s else "") else ""
own_result key _ = ""

-- `if a != "" { return a }`, and else what follows.
abbrev pub first_of : String → String → String
first_of a b = if str_eq a "" then b else a

unfoldable mutual
  unfolding own_result

  pub find_result_base64 : Json → String
  find_result_base64 (array xs) = find_in_items xs
  find_result_base64 (object fs) = find_in_fields fs
  find_result_base64 _ = ""

  pub find_in_items : Items → String
  find_in_items no_items = ""
  find_in_items (item x xs) = first_of (find_result_base64 x) (find_in_items xs)

  pub find_in_fields : Fields → String
  find_in_fields no_fields = ""
  find_in_fields (field key x fs) =
      first_of (own_result key x) (first_of (find_result_base64 x) (find_in_fields fs))
