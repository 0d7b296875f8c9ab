-- ===== src/Arch/Irq/Tests.antt =====
-- system/arch/i686/irq_pic.c: the mask that the kernel starts with, and an interrupt.
use rkernel.Base.{arith, ◌≡◌, refl, [], ◌∷◌}
use rkernel.Arch.Irq.{interrupt, outb, picinit, piceoi, timerinit}
use rkernel.Arch.Irq.Programmed.{all_written, Chip, programmed, start, timerinit-programmed}

-- A controller that waits for the rest of its words.
abbrev half_way : Chip
half_way = record { vector = 0; cascade = 0; mode = 0; mask = 0; expects = 2 }

timerinit-programmed_example :
    (all_written ((picinit (start 0xFFFB)).writes) (half_way, half_way) ≡ programmed 0xFFFB)
    × (all_written ((timerinit (picinit (start 0xFFFB))).writes) (half_way, half_way)
        ≡ programmed 0xFFFA)
timerinit-programmed_example = timerinit-programmed 0xFFFB (half_way, half_way) (omega arith)

-- The trap number of an interrupt of the first controller goes to both.
keyboard :
    (interrupt 33 (start 0xFFFA) (record { lapic = 0; writes = [] })).pic.writes
    ≡ (0xA0, 0x20) ∷ (0x20, 0x20) ∷ []
unfolding interrupt piceoi outb
keyboard = refl
