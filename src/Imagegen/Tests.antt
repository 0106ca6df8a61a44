-- ===== src/Imagegen/Tests.antt =====
-- Runs of imagegen, and its theorems at concrete inputs.
use shadraw.Base.{◌≡◌, refl, some, none, pos}
use shadraw.Imagegen.{Params, extension, normalize}
use shadraw.Imagegen.Defaults.{IsReady, normalize-IsReady}

jpeg : extension "jpeg" ≡ "jpg"
unfolding extension
jpeg = refl

-- Four images of a size are asked for, and nothing else.
abbrev four_wide : Params
four_wide = record {
  size = "1536x1024";
  quality = "";
  n = pos 4;
  background = "";
  moderation = "";
  output_format = "webp";
  output_compression = none;
  stream = none;
  partial_images = none;
  input_fidelity = "";
  mask = "";
  response_format = "";
  style = "";
  user = "";
}

normalize-IsReady_example : IsReady (normalize (some four_wide))
normalize-IsReady_example = normalize-IsReady (some four_wide)
