-- ===== src/Arch/Hal/Tables.antt =====
-- system/arch/i686/hal.c: the segments and gates that a processor finds in the tables.
use rkernel.Base.{
  inr, eq→==, ==→eq, inl, ◌==◌, true, Bool-cases, zero, ◌∙◌, suc, false, ◌+◌, ltb, ◌&&◌, leb, arith,
  ◌^◌, if◌then◌else◌, ◌≡◌, ◌<◌, ℕ, refl,
}
use rkernel.Arch.Segments.{Gatedesc, set_gate, sts_ig32, sts_t32a}
use rkernel.Arch.Segments.Decode.{
  decoded, gate_decoded, seg-decoded, segment, set_gate-decoded, system-decoded,
}
use rkernel.Arch.Window.Fill.{past_range, first_range, later_range}
use rkernel.Arch.Hal.{CpuArch, hal_initcpu, set_gates, setup_idt}

-- The table of segments of a processor: all memory for the kernel and for the user, the task state, and
-- the memory of the processor's own.
abbrev pub Segments : ℕ → ℕ → CpuArch → Type 0
Segments tss cpu_local c =
    (decoded (c.gdt 1) ≡ segment 0xA 0 0xFFFFFFFF 0 1)
    × ((decoded (c.gdt 2) ≡ segment 0x2 0 0xFFFFFFFF 0 1)
        × ((decoded (c.gdt 3) ≡ segment 0x2 cpu_local 0xFFF 0 1)
            × ((decoded (c.gdt 4) ≡ segment 0xA 0 0xFFFFFFFF 3 1)
                × ((decoded (c.gdt 5) ≡ segment 0x2 0 0xFFFFFFFF 3 1)
                    × (decoded (c.gdt 6) ≡ segment sts_t32a tss 103 0 0)))))

-- After hal_initcpu a processor that decodes the table of segments finds the code and data of the
-- kernel and of the user over all memory, the memory of its own, and the task state, where the
-- two addresses are of 32 bits.
pub hal_initcpu-Segments :
    (gdt tss cpu_local : ℕ) (c : CpuArch)
    → tss < 2 ^ 32
    → cpu_local < 2 ^ 32
    → Segments tss cpu_local (hal_initcpu gdt tss cpu_local c)
unfolding hal_initcpu
hal_initcpu-Segments gdt tss cpu_local c t l = (
  seg-decoded 0xA 0 0xFFFFFFFF 0 (omega arith) (omega arith) (omega arith) (omega arith),
  (
    seg-decoded 0x2 0 0xFFFFFFFF 0 (omega arith) (omega arith) (omega arith) (omega arith),
    (
      seg-decoded 0x2 cpu_local 12 0 (omega arith) l (omega arith) (omega arith),
      (
        seg-decoded 0xA 0 0xFFFFFFFF 3 (omega arith) (omega arith) (omega arith) (omega arith),
        (
          seg-decoded 0x2 0 0xFFFFFFFF 3 (omega arith) (omega arith) (omega arith) (omega arith),
          system-decoded sts_t32a tss 103 0 (omega arith) t (omega arith) (omega arith),
        ),
      ),
    ),
  ),
)

set_gates-at :
    (vectors : ℕ → ℕ) (n i : ℕ) (idt : ℕ → Gatedesc) (j : ℕ)
    → set_gates vectors n i idt j
      ≡ (if leb i j && ltb j (i + n) then set_gate false 8 (vectors j) 0 else idt j)
unfolding set_gates
set_gates-at vectors zero i idt j = rw empty refl
  where
    empty : (leb i j && ltb j (i + 0)) ≡ false
    empty = ground arith
set_gates-at vectors (suc n) i idt j = elim (Bool-cases (j == i)) [
  | inl at ↦
      set_gates-at vectors n (i + 1) _ j
      ∙ rw (==→eq j i at, past_range n i, first_range n i, eq→== i i refl) refl
  | inr other ↦ set_gates-at vectors n (i + 1) _ j ∙ rw (later_range n i j other, other) refl
]

-- The table of gates leads every interrupt to its vector, in the code of the kernel, with interrupts off.
pub setup_idt-Gates :
    (vectors : ℕ → ℕ) (address : ℕ) (idt : ℕ → Gatedesc) (c : CpuArch) (i : ℕ)
    → i < 256
    → vectors i < 2 ^ 32
    → gate_decoded ((setup_idt vectors address idt c).0 i)
      ≡ record { selector = 8; offset = vectors i; kind = sts_ig32; level = 0; present = 1 }
unfolding setup_idt
setup_idt-Gates vectors address idt c i few small =
    rw (set_gates-at vectors 256 0 idt i, inside)
      (set_gate-decoded false 8 (vectors i) 0 (omega arith) small (omega arith))
  where
    inside : (leb 0 i && ltb i (0 + 256)) ≡ true
    inside = ground arith
