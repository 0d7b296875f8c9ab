-- ===== src/Libkern/Info/Width.antt =====
-- system/libkern/printinfo.c: the numbers in a fixed width.
use rkernel.Base.{
  ◌∙◌, ◌∷◌, ◌*◌, ◌%◌, ◌/◌, ◌+◌, ap, [], ◌≡◌, ◌^◌, length, ◌<◌, List, ℕ, arith, zero, suc,
}
use native.Mathlib.Nat.{pow-suc}
use rkernel.Libkern.Numbers.{hexlow, hexhig}
use rkernel.Libkern.Numbers.Reads.{read, low_value, high_value, low_inverse, high_inverse}
use rkernel.Libkern.Info.{
  render_loop, render_phys_low, render_phys_high, render_virt_low, render_virt_high,
}

-- A string of exactly `width` characters that reads as `n`.
abbrev pub ReadsWide : (ℕ → ℕ) → ℕ → ℕ → List ℕ → Type 0
ReadsWide value width n s = (read value 16 s 0 ≡ n) × (length s ≡ width)

length-render_loop :
    (digit : ℕ → ℕ) (n p : ℕ) (s : List ℕ) → length (render_loop digit n p s) ≡ n + length s
unfolding render_loop
length-render_loop digit zero p s = omega arith
length-render_loop digit (suc n) p s =
    omega (arith, length-render_loop digit n (p / 2 ^ 4) (digit (p % 2 ^ 4) ∷ s))

module _ (digit value : ℕ → ℕ) (inverse : (d : ℕ) → d < 16 → value (digit d) ≡ d) where
  digit_back : (p : ℕ) → p / 2 ^ 4 * 16 + value (digit (p % 2 ^ 4)) ≡ p
  digit_back p = omega (arith, inverse (p % 2 ^ 4) (omega arith))

  read-render_loop :
      (n p : ℕ) (s : List ℕ)
      → p < 16 ^ n
      → read value 16 (render_loop digit n p s) 0 ≡ read value 16 s p
  unfolding render_loop
  read-render_loop zero p s small = ap (read value 16 s) (omega arith)
  read-render_loop (suc n) p s small =
      read-render_loop n (p / 2 ^ 4) (digit (p % 2 ^ 4) ∷ s) (omega (arith, small, pow-suc 16 n))
      ∙ ap (read value 16 s) (digit_back p)

  wide : (n p : ℕ) → p < 16 ^ n → ReadsWide value n p (render_loop digit n p [])
  wide n p small = (read-render_loop n p [] small, omega (arith, length-render_loop digit n p []))

-- The functions for addresses give a string of exactly 8 digits that reads
-- back as the address.
pub render_phys_low-ReadsWide :
    (p v : ℕ)
    → p < 2 ^ 32
    → v < 2 ^ 32
    → (ReadsWide low_value 8 p (render_phys_low p) × ReadsWide high_value 8 p (render_phys_high p))
      × (ReadsWide low_value 8 v (render_virt_low v)
          × ReadsWide high_value 8 v (render_virt_high v))
unfolding render_phys_low render_phys_high render_virt_low render_virt_high
render_phys_low-ReadsWide p v ps vs = (
  (wide hexlow low_value low_inverse 8 p ps, wide hexhig high_value high_inverse 8 p ps),
  (wide hexlow low_value low_inverse 8 v vs, wide hexhig high_value high_inverse 8 v vs),
)
