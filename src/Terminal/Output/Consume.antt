-- ===== src/Terminal/Output/Consume.antt =====
-- system/terminal/ccterm_output.c: the consumer empties the buffer.
use rkernel.Base.{
  inr, ==→eq, inl, ◌==◌, Bool-cases, ◌≤◌, ◌%◌, ◌-◌, refl, ◌≡◌, ◌+◌, none, some, List, ◌<◌, ℕ,
  Option, arith, zero, suc,
}
use rkernel.Terminal.Output.{
  Call, Class, CctermBuffer, cctb_cut, consume_loop, consumed, ccterm_std_ops_consume,
  ccterm_lite_ops_consume,
}

abbrev StopsAtEnd : CctermBuffer → Option (List Call × ℕ) → Type 0
StopsAtEnd buf none = ⊥
StopsAtEnd buf (some (calls, i)) = cctb_cut (buf.o_begin + i) ≡ buf.o_end

abbrev pub Empties : CctermBuffer → Option CctermBuffer → Type 0
Empties buf none = ⊥
Empties buf (some buf') = (buf'.o_begin ≡ buf'.o_end) × (buf'.o_end ≡ buf.o_end)

consume_loop-StopsAtEnd :
    (op : ℕ → Class → List Call) (fuel i : ℕ) (buf : CctermBuffer) (calls : List Call)
    → buf.o_begin < 1024
    → buf.o_end < 1024
    → (buf.o_end + 1024 - buf.o_begin) % 1024 < i + fuel
    → i ≤ (buf.o_end + 1024 - buf.o_begin) % 1024
    → StopsAtEnd buf (consume_loop op fuel i buf calls)
unfolding consume_loop
consume_loop-StopsAtEnd op zero i buf calls b e enough near = absurd (omega arith)
consume_loop-StopsAtEnd op (suc fuel) i buf calls b e enough near =
    elim (Bool-cases (cctb_cut (buf.o_begin + i) == buf.o_end)) [
      | inl done ↦ rw (consume_loop, done) (==→eq (cctb_cut (buf.o_begin + i)) buf.o_end done)
      | inr more ↦
          rw (consume_loop, more)
            (consume_loop-StopsAtEnd op fuel (i + 1) buf _ b e (omega arith) (ground (arith, more)))
    ]

consumed-Empties :
    (buf : CctermBuffer) (o : Option (List Call × ℕ))
    → StopsAtEnd buf o
    → Empties buf (consumed buf o)
unfolding consumed
consumed-Empties buf none h = h
consumed-Empties buf (some (calls, i)) h = (h, refl)

-- Both consumers end, and leave the buffer empty and its end where it was.
pub ccterm_lite_ops_consume-Empties :
    (buf : CctermBuffer)
    → buf.o_begin < 1024
    → buf.o_end < 1024
    → Empties buf (ccterm_lite_ops_consume buf) × Empties buf (ccterm_std_ops_consume buf)
unfolding ccterm_lite_ops_consume ccterm_std_ops_consume
ccterm_lite_ops_consume-Empties buf b e = (
  consumed-Empties buf _
      (consume_loop-StopsAtEnd _ 1024 0 buf buf.calls b e (omega arith) (omega arith)),
  consumed-Empties buf _
      (consume_loop-StopsAtEnd _ 1024 0 buf buf.calls b e (omega arith) (omega arith)),
)
