-- ===== src/Imagegen/Defaults.antt =====
-- What `normalize` guarantees of the parameters that go upstream.
use shadraw.Base.{pos, String, ◌≡◌, refl, ◌≢◌, Option, none, some, arith, eq_iff}
use shadraw.Imagegen.{Params, or_default, normalize}

-- The parameters can be sent: one image, and no required field is empty.
pub record IsReady (p : Params) : Type 0 where
  pub one_image : p.n ≡ pos 1
  pub sized : p.size ≢ ""
  pub graded : p.quality ≢ ""
  pub backed : p.background ≢ ""
  pub moderated : p.moderation ≢ ""
  pub formatted : p.output_format ≢ ""

or_default-ne : (given default : String) → default ≢ "" → or_default given default ≢ ""
unfolding or_default
or_default-ne given default h = ground (arith, eq_iff given "")

or_default-keep : (given default : String) → given ≢ "" → or_default given default ≡ given
unfolding or_default
or_default-keep given default h = ground (arith, eq_iff given "")

auto_ne : ◌≢◌ {A = String} "auto" ""
auto_ne = ground (arith, eq_iff "auto" "")

png_ne : ◌≢◌ {A = String} "png" ""
png_ne = ground (arith, eq_iff "png" "")

-- Whatever a client sends, or if it sends no parameters, the normalised parameters ask for one
-- image and leave no required field empty.
pub normalize-IsReady : (given : Option Params) → IsReady (normalize given)
unfolding normalize
normalize-IsReady none = record {
  one_image = refl;
  sized = auto_ne;
  graded = auto_ne;
  backed = auto_ne;
  moderated = auto_ne;
  formatted = png_ne;
}
normalize-IsReady (some p) = record {
  one_image = refl;
  sized = or_default-ne p.size "auto" auto_ne;
  graded = or_default-ne p.quality "auto" auto_ne;
  backed = or_default-ne p.background "auto" auto_ne;
  moderated = or_default-ne p.moderation "auto" auto_ne;
  formatted = or_default-ne p.output_format "png" png_ne;
}

-- Parameters that can be sent are left as they are.
pub normalize_of_IsReady : (p : Params) → IsReady p → normalize (some p) ≡ p
unfolding normalize
normalize_of_IsReady p h = cc (
  h.one_image,
  or_default-keep p.size "auto" h.sized,
  or_default-keep p.quality "auto" h.graded,
  or_default-keep p.background "auto" h.backed,
  or_default-keep p.moderation "auto" h.moderated,
  or_default-keep p.output_format "png" h.formatted,
)
