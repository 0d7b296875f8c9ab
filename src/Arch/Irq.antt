-- ===== src/Arch/Irq.antt =====
-- system/arch/i686/irq_pic.c and irq_lapic.c, and __i686_interrupt of hal.c: the interrupt controllers.
-- A write to a port or a register is its address and its value, and the writes are kept in order.
pub mod Programmed
mod Tests
use rkernel.Base.{
  false, true, ◌||◌, some, none, [], ◌∷◌, ◌^◌, ◌==◌, ◌%◌, not, leb, bit_and, Option, ◌/◌, ◌-◌, ◌+◌,
  ◌++◌, if◌then◌else◌, List, Bool, ℕ,
}

-- The mask of the interrupts, and the bytes written to ports.
pub record Pic : Type 0 where
  pub irqmask : ℕ
  pub writes : List (ℕ × ℕ)

abbrev pub io_pic1 : ℕ
io_pic1 = 0x20

abbrev pub io_pic2 : ℕ
io_pic2 = 0xA0

abbrev pub irq_slave : ℕ
irq_slave = 2

abbrev pub pic_eoi : ℕ
pic_eoi = 0x20

abbrev pub t_irq0 : ℕ
t_irq0 = 32

abbrev pub io_timer1 : ℕ
io_timer1 = 0x40

abbrev pub timer_freq : ℕ
timer_freq = 1193182

abbrev pub timer_div : ℕ → ℕ
timer_div x = (timer_freq + x / 2) / x

unfoldable pub outb : ℕ → ℕ → Pic → Pic
outb port value s = record s { writes = s.writes ++ ((port, value % 256) ∷ []) }

unfoldable pub outb_all : List (ℕ × ℕ) → Pic → Pic
outb_all [] s = s
outb_all ((port, value) ∷ rest) s = outb_all rest (outb port value s)

unfoldable pub picsetmask : ℕ → Pic → Pic
picsetmask mask s =
    outb (io_pic2 + 1) (mask / 2 ^ 8) (outb (io_pic1 + 1) mask (record s { irqmask = mask }))

-- `irqmask & ~(1<<irq)`
unfoldable pub picenable : ℕ → Pic → Pic
picenable irq s = picsetmask (s.irqmask - bit_and s.irqmask (2 ^ irq)) s

-- The writes of `__i686_picinit` before it sets the mask.
abbrev pub init_writes : List (ℕ × ℕ)
init_writes =
    (io_pic1 + 1, 0xFF)
    ∷ (io_pic2 + 1, 0xFF)
    ∷ (io_pic1, 0x11)
    ∷ (io_pic1 + 1, t_irq0)
    ∷ (io_pic1 + 1, 2 ^ irq_slave)
    ∷ (io_pic1 + 1, 0x3)
    ∷ (io_pic2, 0x11)
    ∷ (io_pic2 + 1, t_irq0 + 8)
    ∷ (io_pic2 + 1, irq_slave)
    ∷ (io_pic2 + 1, 0x3)
    ∷ (io_pic1, 0x68)
    ∷ (io_pic1, 0x0A)
    ∷ (io_pic2, 0x68)
    ∷ (io_pic2, 0x0A)
    ∷ []

unfoldable pub picinit : Pic → Pic
picinit s =
    let s' = outb_all init_writes s in
    if not (s'.irqmask == 0xFFFF) then picsetmask s'.irqmask s' else s'

unfoldable pub piceoi : ℕ → Pic → Pic
piceoi irq s = outb io_pic1 pic_eoi (if leb 8 irq then outb io_pic2 pic_eoi s else s)

-- 50 interrupts of the timer in a second, IRQ_TIMER being 0.
unfoldable pub timerinit : Pic → Pic
timerinit s =
    let time = timer_div 50 in
    picenable 0
      (outb io_timer1 (time / 256) (outb io_timer1 (time % 256) (outb (io_timer1 + 3) 0x34 s)))

-- The local APIC: its address, 0 where there is none, and the values written to its registers.
pub record Lapic : Type 0 where
  pub lapic : ℕ
  pub writes : List (ℕ × ℕ)

unfoldable pub lapicw : ℕ → ℕ → Lapic → Lapic
lapicw index value s = record s { writes = s.writes ++ ((index, value) ∷ []) }

unfoldable pub lapicw_all : List (ℕ × ℕ) → Lapic → Lapic
lapicw_all [] s = s
lapicw_all ((index, value) ∷ rest) s = lapicw_all rest (lapicw index value s)

-- The loop that waits for a delivery; `polls` is whether it is still pending, as the register is read.
unfoldable pub wait_delivery : List Bool → Lapic → Option Lapic
wait_delivery [] s = none
wait_delivery (true ∷ polls) s = wait_delivery polls s
wait_delivery (false ∷ polls) s = some s

abbrev pub masked : ℕ
masked = 0x00010000

-- `version` is what the register VER holds; the registers are indices of words.
unfoldable pub lapic_registers : ℕ → Lapic → Lapic
lapic_registers version s =
    let s1 =
      lapicw_all
        ((0xF0 / 4, 0x13F)
          ∷ (0x3E0 / 4, 0xB)
          ∷ (0x320 / 4, 0x20020)
          ∷ (0x380 / 4, 10000000)
          ∷ (0x350 / 4, masked)
          ∷ (0x360 / 4, masked)
          ∷ [])
        s in
    let s2 = if leb 4 (version / 2 ^ 16 % 256) then lapicw (0x340 / 4) masked s1 else s1 in
    lapicw_all
      ((0x370 / 4, t_irq0 + 19)
        ∷ (0x280 / 4, 0)
        ∷ (0x280 / 4, 0)
        ∷ (0xB0 / 4, 0)
        ∷ (0x310 / 4, 0)
        ∷ (0x300 / 4, 0x88500)
        ∷ [])
      s2

unfoldable pub lapicinit : ℕ → List Bool → Lapic → Option Lapic
lapicinit version polls s =
    if s.lapic == 0 then some s else elim (wait_delivery polls (lapic_registers version s)) [
      | none ↦ none
      | some s' ↦ some (lapicw (0x80 / 4) 0 s')
    ]

unfoldable pub lapiceoi : Lapic → Lapic
lapiceoi s = if s.lapic == 0 then s else lapicw (0xB0 / 4) 0 s

-- What `__i686_interrupt` works on, and whether it switches threads.
pub record Interrupted : Type 0 where
  pub pic : Pic
  pub apic : Lapic
  pub switches : Bool

abbrev pub has_lapic_eoi : ℕ → Bool
has_lapic_eoi trapno =
    trapno == 32
    || (trapno == 33 || (trapno == 36 || (trapno == 46 || (trapno == 39 || trapno == 63))))

unfoldable pub interrupt : ℕ → Pic → Lapic → Interrupted
interrupt trapno pic apic = record {
  pic = piceoi trapno pic;
  apic = if has_lapic_eoi trapno then lapiceoi apic else apic;
  switches = trapno == 32;
}
