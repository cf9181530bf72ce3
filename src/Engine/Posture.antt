-- ===== src/Engine/Posture.antt =====
-- internal/engine/posture.go: what remedik may do in a namespace.
pub mod Overrides
use text.Mathlib.Text.{◌==◌ as str_eq}
use remedik.Base.{String, Bool, true, false, not, none, some, List, if◌then◌else◌}
use remedik.Base.Assoc
use remedik.Base.Assoc.{string_eq}

-- `unset` is the empty string, the mode of the zero posture.
pub data Mode : Type 0 where
  unset live dry : Mode

pub record Posture : Type 0 where
  pub default_mode : Mode
  pub overrides : List (String × Mode)

unfoldable pub is_live : Mode → Bool
is_live live = true
is_live _ = false

unfoldable pub is_dry : Mode → Bool
is_dry dry = true
is_dry _ = false

unfoldable pub new_posture : Bool → List (String × Mode) → Posture
new_posture dry_run overrides = record {
  default_mode = if dry_run then dry else live;
  overrides = overrides;
}

-- An empty namespace takes the default, and so does one without an override.
unfoldable pub dry_run_for : Posture → String → Bool
unfolding is_live is_dry
dry_run_for p namespace =
    let otherwise = not (is_live p.default_mode) in
    if str_eq namespace ""
    then otherwise
    else elim (Assoc.get p.overrides namespace) [ none ↦ otherwise | some mode ↦ is_dry mode ]
