-- ===== src/Kern/Zalloc/Bufsize.antt =====
-- system/kern/zalloc.c: the loop of calc_bufsize.
use rkernel.Base.{
  ◌≡◌, subst, zero, arith, ltb→ge, ltb→lt, inr, lt→ltb, ge→ltb, inl, ltb, Bool-cases, ◌%◌, suc,
  none, ◌^◌, ◌*◌, ◌≤◌, some, ◌<◌, ◌+◌, Option, ℕ,
}
use rkernel.Base.{arith, zero, suc}
use rkernel.Kern.Zalloc.{bufsize_loop, calc_bufsize}

abbrev pub Fits : ℕ → Option ℕ → Type 0
Fits size none = ⊥
Fits size (some n) = (size ≤ n) × ((n ≤ 2 * size) × (n < size + 128))

-- A round where `num` is below a cache line.
double-Fits :
    (fuel size num mul : ℕ)
    → num < 128
    → num ≤ 2 * size
    → (num < size → Fits size (bufsize_loop fuel size (mul * 2 % 2 ^ 32) (mul * 2 % 2 ^ 32)))
    → Fits size (bufsize_loop (suc fuel) size num mul)
unfolding bufsize_loop
double-Fits fuel size num mul short near rest = elim (Bool-cases (ltb num size)) [
  | inl go ↦ rw (bufsize_loop, go, lt→ltb num 128 short) (rest (ltb→lt num size go))
  | inr done ↦
      rw (bufsize_loop, done) (ltb→ge num size done, (near, omega (arith, ltb→ge num size done)))
]

no_wrap : (size num : ℕ) → size + 128 ≤ 2 ^ 32 → num < size → num + 128 ≡ (num + 128) % 2 ^ 32
no_wrap size num small near = omega arith

-- The rounds in steps of a cache line.
lines-Fits :
    (fuel size num : ℕ)
    → size + 128 ≤ 2 ^ 32
    → size + 128 ≤ num + fuel
    → 128 ≤ num
    → num ≤ 2 * size
    → num < size + 128
    → Fits size (bufsize_loop fuel size num 128)
unfolding bufsize_loop
lines-Fits zero size num small enough long near close = absurd (omega arith)
lines-Fits (suc fuel) size num small enough long near close = elim (Bool-cases (ltb num size)) [
  | inl go ↦
      rw (bufsize_loop, go, ge→ltb num 128 long)
        (subst (λ n. Fits size (bufsize_loop fuel size n 128))
          (no_wrap size num small (ltb→lt num size go))
          (lines-Fits fuel size (num + 128) small (omega arith) (omega arith)
            (omega (arith, ltb→lt num size go)) (omega (arith, ltb→lt num size go))))
  | inr done ↦ rw (bufsize_loop, done) (ltb→ge num size done, (near, close))
]

doubled-Fits :
    (f size : ℕ)
    → 4 ≤ size
    → size + 128 ≤ 2 ^ 32
    → size ≤ f
    → Fits size (bufsize_loop (suc (suc (suc (suc (suc (suc (suc (suc f)))))))) size 0 1)
doubled-Fits f size pos small enough = double-Fits _ size 0 1 (omega arith) (omega arith) (λ h.
    double-Fits _ size 2 2 (omega arith) (omega arith) (λ h.
      double-Fits _ size 4 4 (omega arith) (omega arith) (λ h.
        double-Fits _ size 8 8 (omega arith) (omega arith) (λ h.
          double-Fits _ size 16 16 (omega arith) (omega arith) (λ h.
            double-Fits _ size 32 32 (omega arith) (omega arith) (λ h.
              double-Fits _ size 64 64 (omega arith) (omega arith) (λ h.
                lines-Fits (suc f) size 128 small (omega arith) (omega arith) (omega arith)
                  (omega arith))))))))

fuel_shape : (size : ℕ) → suc (suc (suc (suc (suc (suc (suc (suc (size + 8)))))))) ≡ size + 16
fuel_shape size = omega arith

small_mod : (size : ℕ) → size + 132 ≤ 2 ^ 32 → size + 4 ≡ (size + 4) % 2 ^ 32
small_mod size small = omega arith

-- For an object of at most 2 ^ 32 - 132 bytes, the loop of calc_bufsize ends, with a buffer size
-- that has room for the object and the word in front of it, and wastes at most half of the buffer
-- and less than a cache line.
pub calc_bufsize-Fits :
    (size : ℕ) → size + 132 ≤ 2 ^ 32 → Fits (size + 4) (calc_bufsize (size + 16) size)
unfolding calc_bufsize
calc_bufsize-Fits size small =
    subst (λ f. Fits (size + 4) (bufsize_loop f ((size + 4) % 2 ^ 32) 0 1)) (fuel_shape size)
      (subst
        (λ n.
          Fits (size + 4)
            (bufsize_loop (suc (suc (suc (suc (suc (suc (suc (suc (size + 8))))))))) n 0 1))
        (small_mod size small)
        (doubled-Fits (size + 8) (size + 4) (omega arith) (omega arith) (omega arith)))
