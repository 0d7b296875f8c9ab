-- ===== src/Arch/Irq/Programmed.antt =====
-- system/arch/i686/irq_pic.c: what the two controllers make of the writes. A controller is documented to
-- take four words, the first at its first port with bit 4 set, which clears its mask, and the others at
-- its second port; a word at its second port is a mask otherwise.
use rkernel.Base.{
  ap, ◌∙◌, arith, bit_and, ◌-◌, ◌*◌, ne→==, ◌≡◌, ◌==◌, ◌/◌, ◌≢◌, ◌∷◌, ◌%◌, if◌then◌else◌, [], ℕ,
  List, refl,
}
use rkernel.Base.Bits.{bit_and-digit, bit_and-zero}
use rkernel.Arch.Irq.{outb, outb_all, Pic, picenable, picinit, picsetmask, timerinit}

-- `expects` is the number of words still to come.
pub record Chip : Type 0 where
  pub vector : ℕ
  pub cascade : ℕ
  pub mode : ℕ
  pub mask : ℕ
  pub expects : ℕ

pub command : ℕ → Chip → Chip
command value c = if value / 16 % 2 == 1 then record c { expects = 3; mask = 0 } else c

pub second_port : ℕ → Chip → Chip
second_port value c =
    if c.expects == 3
    then record c { vector = value / 8 * 8; expects = 2 }
    else if c.expects == 2
    then record c { cascade = value; expects = 1 }
    else if c.expects == 1
    then record c { mode = value; expects = 0 }
    else record c { mask = value }

-- The master and the slave behind a write.
pub written : ℕ × ℕ → Chip × Chip → Chip × Chip
written (port, value) (master, slave) =
    if port == 0x20
    then (command value master, slave)
    else if port == 0x21
    then (second_port value master, slave)
    else if port == 0xA0
    then (master, command value slave)
    else if port == 0xA1
    then (master, second_port value slave)
    else (master, slave)

pub all_written : List (ℕ × ℕ) → Chip × Chip → Chip × Chip
all_written [] chips = chips
all_written (w ∷ ws) chips = all_written ws (written w chips)

-- Programmed chips with the mask `irqmask`.
abbrev pub programmed : ℕ → Chip × Chip
programmed irqmask = (
  record { vector = 32; cascade = 4; mode = 3; mask = irqmask % 256; expects = 0 },
  record { vector = 40; cascade = 2; mode = 3; mask = irqmask / 256 % 256; expects = 0 },
)

abbrev pub start : ℕ → Pic
start irqmask = record { irqmask = irqmask; writes = [] }

-- The controllers, in whatever state they were.
picinit-programmed :
    (irqmask : ℕ) (chips : Chip × Chip)
    → irqmask ≢ 0xFFFF
    → all_written ((picinit (start irqmask)).writes) chips ≡ programmed irqmask
unfolding picinit picsetmask outb outb_all all_written written command second_port
picinit-programmed irqmask (master, slave) some_line =
    rw (ne→== irqmask 0xFFFF some_line, picinit) refl

lowest_cleared : (mask : ℕ) → mask - bit_and mask 1 ≡ mask / 2 * 2
lowest_cleared mask = omega (arith, bit_and-digit mask 1, bit_and-zero (mask / 2))

timerinit-cleared :
    (irqmask : ℕ) (chips : Chip × Chip)
    → irqmask ≢ 0xFFFF
    → all_written ((timerinit (picinit (start irqmask))).writes) chips
      ≡ programmed (irqmask - bit_and irqmask 1)
unfolding picinit timerinit picenable picsetmask outb outb_all all_written written command
    second_port
timerinit-cleared irqmask (master, slave) some_line =
    rw (ne→== irqmask 0xFFFF some_line, picinit) refl

-- From any state of the two interrupt controllers, and a mask other than 0xFFFF, the writes of
-- picinit leave both of them programmed with their vectors and that mask, and those of timerinit
-- behind it let the timer's interrupt through too.
pub timerinit-programmed :
    (irqmask : ℕ) (chips : Chip × Chip)
    → irqmask ≢ 0xFFFF
    → (all_written ((picinit (start irqmask)).writes) chips ≡ programmed irqmask)
      × (all_written ((timerinit (picinit (start irqmask))).writes) chips
          ≡ programmed (irqmask / 2 * 2))
timerinit-programmed irqmask chips some_line = (
  picinit-programmed irqmask chips some_line,
  timerinit-cleared irqmask chips some_line ∙ ap programmed (lowest_cleared irqmask),
)
