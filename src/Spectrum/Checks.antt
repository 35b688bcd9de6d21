-- ===== src/Spectrum/Checks.antt =====
-- The finite check on the sum that a block has at hand (include/mutap/watchdog.h: finite_power()).
use mu_tap.Common.{◌≡◌, refl, Bool, true, false, if◌then◌else◌}
use mu_tap.Common.Float.{Float}

-- To check the sum that is chosen is to choose a check.
pub check_either :
    {S : Type 0} ⦃f : Float S⦄ (frozen : Bool) (power slot : S)
    → (if frozen then f.is_finite power else f.is_finite slot)
      ≡ f.is_finite (if frozen then power else slot)
check_either true power slot = refl
check_either false power slot = refl
