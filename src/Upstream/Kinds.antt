-- ===== src/Upstream/Kinds.antt =====
-- The kinds of errors and the types of images.
use shadraw.Base.{ℕ, String, ◌≡◌, refl, false, inl, inr, str_eq, Bool-cases, Result, ok, err, List}
use shadraw.Imagegen
use shadraw.Upstream.{
  Error, Config, GenerateParams, GenerateResult, Transport, is_unset, packed, mime_to_ext,
  normalized, generate,
}

-- The extension that the client gives to a reference image of a type is the one that the
-- parameters give to the format.
mime_to_ext-mime :
    (format : String) → mime_to_ext (Imagegen.mime format) ≡ Imagegen.extension format
unfolding mime_to_ext Imagegen.mime Imagegen.extension
mime_to_ext-mime format = elim (Bool-cases (str_eq format "jpeg")) [
  | inl e ↦ rw e refl
  | inr e ↦ elim (Bool-cases (str_eq format "webp")) [
    | inl f ↦ rw (e, f) refl
    | inr f ↦ rw (e, f) refl
  ]
]

packed-extension :
    (p : GenerateParams) (out : Result Error (List ℕ)) {r : GenerateResult}
    → packed p out ≡ ok r
    → mime_to_ext r.mime ≡ r.extension
packed-extension p (err e) h = cc
packed-extension p (ok image) {r} h =
    let same : r ≡ record {
      image = image;
      mime = Imagegen.mime p.image_params.output_format;
      extension = Imagegen.extension p.image_params.output_format;
    } =
      cc in
    rw same (mime_to_ext-mime p.image_params.output_format)

-- A generation that succeeds had credentials, and its type and extension are those of one format.
pub generate-ok :
    (transport : Transport) (cfg : Config) (p : GenerateParams) {r : GenerateResult}
    → generate transport cfg p ≡ ok r
    → (is_unset cfg ≡ false) × (mime_to_ext r.mime ≡ r.extension)
unfolding generate
generate-ok transport cfg p e = elim (Bool-cases (is_unset cfg)) [
  | inl unset ↦ cc (rw unset at e)
  | inr set ↦ (set, packed-extension (normalized p) _ (rw set at e))
]
