-- ===== src/Upstream/Requests/Optional.antt =====
-- The two ways of writing the optional fields.
use shadraw.Base.{
  ℤ, ◌≡◌, refl, ap, ◌∙◌, inl, inr, String, Bool, true, not, ◌&&◌, Option, none, some, [], ◌∷◌,
  str_eq, Bool-cases,
}
use mathlib.Core.List.{Perm}
use mathlib.Core.List.Perm
use shadraw.Imagegen.{Params}
use shadraw.Upstream.{GenerateParams}
use shadraw.Upstream.Json.{Json, str, number, flag, Fields, no_fields, field}
use shadraw.Upstream.Requests.{
  Form, set, set_text, set_unless_empty, set_number, set_flag, set_images_only,
  add_optional_image_fields, put_unless_empty, put_number, truth, put_flag, put_images_only,
  write_optional_image_fields, generations_body, edits_values,
}

-- The text of a value in a form.
abbrev pub as_value : (ℤ → String) → Json → String
as_value decimal (str s) = s
as_value decimal (number n) = decimal n
as_value decimal (flag b) = truth b
as_value decimal _ = ""

abbrev pub as_form : (ℤ → String) → Fields → Form
as_form decimal no_fields = []
as_form decimal (field key value fs) = (key, as_value decimal value) ∷ as_form decimal fs

module _ (decimal : ℤ → String) where
  set-as_form :
      (key : String) (value : Json) (fs : Fields)
      → as_form decimal (set key value fs)
        ≡ set_text key (as_value decimal value) (as_form decimal fs)
  unfolding set set_text
  set-as_form key value no_fields = refl
  set-as_form key value (field k v fs) = elim (Bool-cases (str_eq k key)) [
    | inl e ↦ rw e refl
    | inr e ↦ rw e (ap (λ form. (k, as_value decimal v) ∷ form) (set-as_form key value fs))
  ]

  set_unless_empty-as_form :
      (key value : String) (fs : Fields)
      → as_form decimal (set_unless_empty key value fs)
        ≡ put_unless_empty key value (as_form decimal fs)
  set_unless_empty-as_form key value fs = elim (Bool-cases (str_eq value "")) [
    | inl e ↦ rw e refl
    | inr e ↦ rw e (set-as_form key (str value) fs)
  ]

  set_number-as_form :
      (key : String) (value : Option ℤ) (fs : Fields)
      → as_form decimal (set_number key value fs)
        ≡ put_number decimal key value (as_form decimal fs)
  set_number-as_form key none fs = refl
  set_number-as_form key (some n) fs = set-as_form key (number n) fs

  set_flag-as_form :
      (key : String) (value : Option Bool) (fs : Fields)
      → as_form decimal (set_flag key value fs) ≡ put_flag key value (as_form decimal fs)
  set_flag-as_form key none fs = refl
  set_flag-as_form key (some b) fs = set-as_form key (flag b) fs

  set_images_only-as_form :
      (include : Bool) (key value : String) (fs : Fields)
      → as_form decimal (set_images_only include key value fs)
        ≡ put_images_only include key value (as_form decimal fs)
  set_images_only-as_form include key value fs =
      elim (Bool-cases (not (str_eq value "") && include)) [
        | inl e ↦ rw e (set-as_form key (str value) fs)
        | inr e ↦ rw e refl
      ]

  -- The fields that `write_optional_image_fields` collects, from those that are there.
  abbrev written : Params → Bool → Form → Form
  written params include fs = put_images_only include "user" params.user (
      put_images_only include "style" params.style (
        put_images_only include "response_format" params.response_format (
          put_unless_empty "input_fidelity" params.input_fidelity (
            put_number decimal "partial_images" params.partial_images (
              put_flag "stream" params.stream (
                put_number decimal "output_compression" params.output_compression (
                  put_unless_empty "output_format" params.output_format (
                    put_unless_empty "moderation" params.moderation
                      (put_unless_empty "background" params.background fs)))))))))

  add-written :
      (dst : Fields) (params : Params) (include : Bool)
      → as_form decimal (add_optional_image_fields dst params include)
        ≡ written params include (as_form decimal dst)
  unfolding add_optional_image_fields
  add-written dst params include =
      rw
        (
          set_images_only-as_form include "user",
          set_images_only-as_form include "style",
          set_images_only-as_form include "response_format",
          set_unless_empty-as_form "input_fidelity",
          set_number-as_form "partial_images",
          set_flag-as_form "stream",
          set_number-as_form "output_compression",
          set_unless_empty-as_form "output_format",
          set_unless_empty-as_form "moderation",
          set_unless_empty-as_form "background",
        )
        refl

  -- The fields in front do not have a key.
  module _ (front : Form → Form) (key : String)
      (misses : (value : String) (fs : Form)
        → set_text key value (front fs) ≡ front (set_text key value fs)) where
    put_unless_empty-front :
        (value : String) (fs : Form)
        → put_unless_empty key value (front fs) ≡ front (put_unless_empty key value fs)
    put_unless_empty-front value fs = elim (Bool-cases (str_eq value "")) [
      | inl e ↦ rw e refl
      | inr e ↦ rw e (misses value fs)
    ]

    put_number-front :
        (value : Option ℤ) (fs : Form)
        → put_number decimal key value (front fs) ≡ front (put_number decimal key value fs)
    put_number-front none fs = refl
    put_number-front (some n) fs = misses (decimal n) fs

    put_flag-front :
        (value : Option Bool) (fs : Form)
        → put_flag key value (front fs) ≡ front (put_flag key value fs)
    put_flag-front none fs = refl
    put_flag-front (some b) fs = misses (truth b) fs

    put_images_only-front :
        (include : Bool) (value : String) (fs : Form)
        → put_images_only include key value (front fs)
          ≡ front (put_images_only include key value fs)
    put_images_only-front include value fs = elim (Bool-cases (not (str_eq value "") && include)) [
      | inl e ↦ rw e (misses value fs)
      | inr e ↦ rw e refl
    ]

  abbrev values_before : GenerateParams → Params → Form → Form
  values_before p params fs =
      ("model", p.model)
      ∷ ("prompt", p.prompt)
      ∷ ("size", params.size)
      ∷ ("quality", params.quality)
      ∷ ("n", decimal params.n)
      ∷ fs

  written-values_before :
      (p : GenerateParams) (params : Params) (include : Bool) (fs : Form)
      → written params include (values_before p params fs)
        ≡ values_before p params (written params include fs)
  unfolding set_text
  written-values_before p params include fs =
      let front = values_before p params in
      rw
        (
          put_unless_empty-front front "background" (λ _ _. refl),
          put_unless_empty-front front "moderation" (λ _ _. refl),
          put_unless_empty-front front "output_format" (λ _ _. refl),
          put_number-front front "output_compression" (λ _ _. refl),
          put_flag-front front "stream" (λ _ _. refl),
          put_number-front front "partial_images" (λ _ _. refl),
          put_unless_empty-front front "input_fidelity" (λ _ _. refl),
          put_images_only-front front "response_format" (λ _ _. refl),
          put_images_only-front front "style" (λ _ _. refl),
          put_images_only-front front "user" (λ _ _. refl),
        )
        refl

-- An edit sends the same values as a generation: the values of its form are those of the fields of the
-- JSON body that the same parameters give, each once, in some order; numbers and truth values are written
-- as texts. The loop over a map finds each of its entries once.
pub generations-edits :
    (decimal : ℤ → String) (range : Form → Form) (p : GenerateParams) (params : Params)
    → ((form : Form) → Perm (range form) form)
    → Perm (edits_values decimal range p params) (as_form decimal (generations_body p params))
unfolding generations_body edits_values write_optional_image_fields
generations-edits decimal range p params ranges =
    let same : as_form decimal (generations_body p params)
        ≡ values_before decimal p params (written decimal params true []) =
      add-written decimal _ params true ∙ written-values_before decimal p params true [] in
    rw same (
      Perm.cons _ (
        Perm.cons _
          (Perm.cons _ (Perm.cons _ (Perm.cons _ (ranges (written decimal params true [])))))))
