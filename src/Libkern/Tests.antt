-- ===== src/Libkern/Tests.antt =====
-- Numbers rendered, and the theorems at them.
use rkernel.Base.{[], ◌∷◌, some, ◌≡◌, negsuc, refl}
use rkernel.Libkern.Numbers.{i2a, digits_loop, with_sign}

minus_ten : i2a (negsuc 9) ≡ some (45 ∷ 49 ∷ 48 ∷ [])
unfolding i2a with_sign digits_loop
minus_ten = refl
