-- ===== src/Libkern/Bytes/Move.antt =====
-- system/libkern/string.c: memmove on stretches that may overlap.
use rkernel.Base.{
  ltb→ge, ltb→lt, inr, inl, ◌==◌, refl, ltb, ap, ◌∙◌, Bool-cases, ◌≤◌, ◌≢◌, ◌≡◌, ◌<◌, ◌+◌, ℕ, arith,
  zero, suc,
}
use rkernel.Libkern.Bytes.{put, memcpy, move_down, memmove}

put-same : (m : ℕ → ℕ) (p v q : ℕ) → q ≡ p → put m p v q ≡ v
put-same m p v q e = ground arith

put-ne : (m : ℕ → ℕ) (p v q : ℕ) → q ≢ p → put m p v q ≡ m q
put-ne m p v q n = ground arith

memcpy-below : (o i n : ℕ) (m : ℕ → ℕ) (q : ℕ) → q < o → memcpy o i n m q ≡ m q
unfolding memcpy
memcpy-below o i zero m q below = refl
memcpy-below o i (suc n) m q below =
    memcpy-below (o + 1) (i + 1) n (put m o (m i)) q (omega arith)
    ∙ put-ne m o (m i) q (omega arith)

move_down-above : (o i n : ℕ) (m : ℕ → ℕ) (q : ℕ) → o + n ≤ q → move_down o i n m q ≡ m q
unfolding move_down
move_down-above o i zero m q above = refl
move_down-above o i (suc n) m q above =
    move_down-above o i n (put m (o + n) (m (i + n))) q (omega arith)
    ∙ put-ne m (o + n) (m (i + n)) q (omega arith)

copied_up : (o i n : ℕ) (m : ℕ → ℕ) (k : ℕ) → o < i → k < n → memcpy o i n m (o + k) ≡ m (i + k)
unfolding memcpy
copied_up o i zero m k left small = absurd (omega arith)
copied_up o i (suc n) m zero left small =
    memcpy-below (o + 1) (i + 1) n (put m o (m i)) (o + 0) (omega arith)
    ∙ (put-same m o (m i) (o + 0) (omega arith) ∙ ap m (omega arith))
copied_up o i (suc n) m (suc k) left small =
    ap (memcpy (o + 1) (i + 1) n (put m o (m i))) (omega arith)
    ∙ (copied_up (o + 1) (i + 1) n (put m o (m i)) k (omega arith) (omega arith)
        ∙ (put-ne m o (m i) (i + 1 + k) (omega arith) ∙ ap m (omega arith)))

copied_down :
    (o i n : ℕ) (m : ℕ → ℕ) (k : ℕ) → i ≤ o → k < n → move_down o i n m (o + k) ≡ m (i + k)
unfolding move_down
copied_down o i zero m k right small = absurd (omega arith)
copied_down o i (suc n) m k right small = elim (Bool-cases (k == n)) [
  | inl last ↦
      move_down-above o i n (put m (o + n) (m (i + n))) (o + k) (ground (arith, last))
      ∙ (put-same m (o + n) (m (i + n)) (o + k) (ground (arith, last))
          ∙ ap m (ground (arith, last)))
  | inr before ↦
      copied_down o i n (put m (o + n) (m (i + n))) k right (ground (arith, before))
      ∙ put-ne m (o + n) (m (i + n)) (i + k) (ground (arith, before))
]

-- Whether the stretches overlap or not, after `memmove` each byte of the destination is the one that
-- the source held before.
pub memmove_lem :
    (dest src n : ℕ) (m : ℕ → ℕ) (k : ℕ) → k < n → memmove dest src n m (dest + k) ≡ m (src + k)
unfolding memmove
memmove_lem dest src n m k small = elim (Bool-cases (ltb dest src)) [
  | inl left ↦ rw left (copied_up dest src n m k (ltb→lt dest src left) small)
  | inr right ↦ rw right (copied_down dest src n m k (ltb→ge dest src right) small)
]
