-- ===== src/Imagegen.antt =====
-- internal/imagegen/params.go: the parameters of an image generation and their defaults. The
-- named string types (`Quality`, `OutputFormat`, …) are strings, as in Go. The JSON of `Value` and
-- `Scan` is not modelled.
pub mod Defaults
mod Tests
use shadraw.Base.{ℤ, pos, String, Bool, Option, none, some, str_eq, if◌then◌else◌}

pub record Params : Type 0 where
  pub size : String
  pub quality : String
  pub n : ℤ
  pub background : String
  pub moderation : String
  pub output_format : String
  pub output_compression : Option ℤ
  pub stream : Option Bool
  pub partial_images : Option ℤ
  pub input_fidelity : String
  pub mask : String
  pub response_format : String
  pub style : String
  pub user : String

abbrev pub background_auto : String
background_auto = "auto"

abbrev pub moderation_auto : String
moderation_auto = "auto"

abbrev pub output_format_png : String
output_format_png = "png"

abbrev pub output_format_jpeg : String
output_format_jpeg = "jpeg"

abbrev pub output_format_webp : String
output_format_webp = "webp"

abbrev pub quality_auto : String
quality_auto = "auto"

-- The fields that the literal leaves out have Go's zero values.
unfoldable pub default_params : Params
default_params = record {
  size = "auto";
  quality = quality_auto;
  n = pos 1;
  background = background_auto;
  moderation = moderation_auto;
  output_format = output_format_png;
  output_compression = none;
  stream = none;
  partial_images = none;
  input_fidelity = "";
  mask = "";
  response_format = "";
  style = "";
  user = "";
}

-- `if out.X == "" { out.X = defaults.X }`
unfoldable pub or_default : String → String → String
or_default given default = if str_eq given "" then default else given

unfoldable pub normalize : Option Params → Params
unfolding or_default default_params
normalize none = default_params
normalize (some params) =
    let defaults = default_params in
    record params {
      size = or_default params.size defaults.size;
      quality = or_default params.quality defaults.quality;
      n = defaults.n;
      background = or_default params.background defaults.background;
      moderation = or_default params.moderation defaults.moderation;
      output_format = or_default params.output_format defaults.output_format;
    }

unfoldable pub extension : String → String
extension format =
    if str_eq format output_format_jpeg
    then "jpg"
    else if str_eq format output_format_webp
    then "webp"
    else "png"

unfoldable pub mime : String → String
mime format =
    if str_eq format output_format_jpeg
    then "image/jpeg"
    else if str_eq format output_format_webp
    then "image/webp"
    else "image/png"
