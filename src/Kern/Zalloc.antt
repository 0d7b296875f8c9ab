-- ===== src/Kern/Zalloc.antt =====
-- system/kern/zalloc.c: zones, collections of memory buffers of one size. A free buffer's first word
-- points to the next free one; a used buffer's first word points to its zone. Memory is the word at
-- each address: buffers stand at least a word apart, so that no two first words overlap. Zones are
-- looked up by their pointer, 0 being the null pointer. The spinlock makes each operation one step.
pub mod Chunks
pub mod Cram
pub mod Bufsize
mod Tests
use rkernel.Base.{
  false, zero, ◌^◌, true, ltb, bit_and, ◌==◌, ◌%◌, none, leb, ◌-◌, ◌+◌, ◌*◌, suc, some,
  if◌then◌else◌, Option, ℕ,
}
use rkernel.Vm.Kmem.{KernelVm, vm_alloc_critical, vm_kalloc_ll, Grown}

-- `struct zone`
pub record Zone : Type 0 where
  pub bufsize : ℕ
  pub freelist : ℕ
  pub count : ℕ
  pub memtype : ℕ

-- What the allocator reads and writes.
pub record Memory : Type 0 where
  pub word : ℕ → ℕ
  pub zone : ℕ → Zone
  pub vm : KernelVm

pub data Result (A : Type 0) : Type 0 where
  ok : A → Memory → Result A
  panicked : Result A
  out_of_fuel : Result A

abbrev pub pointer_size : ℕ
pointer_size = 4

abbrev pub buf_line : ℕ
buf_line = 128

abbrev pub zone_auto_refill : ℕ
zone_auto_refill = 1

abbrev pub zone_ar_critical : ℕ
zone_ar_critical = 2

abbrev pub write : {A : Type 0} → (ℕ → A) → ℕ → A → ℕ → A
write f p v q = if q == p then v else f q

abbrev pub put_zone : Memory → ℕ → Zone → Memory
put_zone s z zone = record s { zone = write s.zone z zone }

-- The loop of `calc_bufsize`; `none` when the fuel runs out.
unfoldable pub bufsize_loop : ℕ → ℕ → ℕ → ℕ → Option ℕ
bufsize_loop zero size num mul = none
bufsize_loop (suc fuel) size num mul = elim (ltb num size) [
  | true ↦ elim (ltb num buf_line) [
    | true ↦ bufsize_loop fuel size (mul * 2 % 2 ^ 32) (mul * 2 % 2 ^ 32)
    | false ↦ bufsize_loop fuel size ((num + mul) % 2 ^ 32) mul
  ]
  | false ↦ some num
]

unfoldable pub calc_bufsize : ℕ → ℕ → Option ℕ
calc_bufsize fuel size = bufsize_loop fuel ((size + pointer_size) % 2 ^ 32) 0 1

-- The pointer returned is 0 where the zone has no free buffer.
unfoldable pub remove_top : ℕ → Memory → ℕ × Memory
remove_top z s =
    let zone = s.zone z in
    let top = zone.freelist in
    if top == 0 then (0, s) else (
      top + pointer_size,
      record s {
        word = write s.word top z;
        zone =
            write s.zone z
              (record zone { freelist = s.word top; count = (zone.count + 2 ^ 32 - 1) % 2 ^ 32 });
      },
    )

-- One buffer put at the head of a zone's free list.
unfoldable pub give : ℕ → ℕ → Memory → Memory
give z chunk s =
    let zone = s.zone z in
    record s {
      word = write s.word chunk zone.freelist;
      zone = write s.zone z (record zone { freelist = chunk; count = (zone.count + 1) % 2 ^ 32 });
    }

-- The loop of `_zcram`.
unfoldable pub cram_loop : ℕ → ℕ → ℕ → ℕ → ℕ → Memory → Result (Unit {0})
cram_loop zero z bufsize mem size s = out_of_fuel
cram_loop (suc fuel) z bufsize mem size s = elim (leb bufsize size) [
  | true ↦ cram_loop fuel z bufsize ((mem + bufsize) % 2 ^ 32) (size - bufsize) (give z mem s)
  | false ↦ ok tt s
]

-- `zcram`, and `_zcram` under it. The loop goes round at most `size` times over buffers of at least
-- one byte, so that is the fuel.
unfoldable pub zcram : ℕ → ℕ → ℕ → Memory → Result (Unit {0})
zcram z mem size s =
    let bufsize = (s.zone z).bufsize in
    let loop = cram_loop (suc size) z bufsize mem size s in if mem == 0 then panicked else loop

-- The part of `_zrefill` behind the growth of the kernel's memory.
unfoldable pub cram_grown : ℕ → Memory → Grown → Result (Unit {0})
cram_grown z s (none, vm) = ok tt (record s { vm = vm })
cram_grown z s (some (begin, size), vm) = zcram z begin size (record s { vm = vm })

-- `zrefill`, and `_zrefill` under it; `vm_refill` does nothing.
unfoldable pub zrefill : ℕ → ℕ → ℕ → Memory → Result (Unit {0})
zrefill z min num s =
    let zone = s.zone z in
    let size = zone.bufsize * num % 2 ^ 32 in
    let critical = cram_grown z s (vm_alloc_critical s.vm size) in
    let plain = cram_grown z s (vm_kalloc_ll s.vm size) in
    if ltb zone.count min
    then if bit_and zone.memtype zone_ar_critical == 0 then plain else critical
    else ok tt s

-- The end of `zalloc`, behind the refill.
unfoldable pub take_top : ℕ → Result (Unit {0}) → Result ℕ
take_top z (ok u s) = let (p, s') = remove_top z s in ok p s'
take_top z panicked = panicked
take_top z out_of_fuel = out_of_fuel

unfoldable pub zalloc : ℕ → Memory → Result ℕ
zalloc z s =
    let refilled = take_top z (zrefill z 32 32 s) in
    let plain = take_top z (ok tt s) in
    if z == 0
    then panicked
    else if bit_and (s.zone z).memtype zone_auto_refill == 0
    then plain
    else refilled

-- The zone is the one that the buffer's first word names.
unfoldable pub zfree : ℕ → Memory → Memory
zfree object s =
    let chunk = object - pointer_size in if object == 0 then s else give (s.word chunk) chunk s

-- `zinit` behind its call of `zalloc`; it leaves `zn_count` as it finds it.
unfoldable pub init_zone : ℕ → Option ℕ → Result ℕ → Result ℕ
init_zone memtype bufsize panicked = panicked
init_zone memtype bufsize out_of_fuel = out_of_fuel
init_zone memtype none (ok z s) = out_of_fuel
init_zone memtype (some bufsize) (ok z s) =
    if z == 0
    then panicked
    else ok z (
        put_zone s z
          (record { bufsize = bufsize; freelist = 0; count = (s.zone z).count; memtype = memtype }))

-- `zone_zone` is the pointer to the zone of zones, 0 before `zone_bootstrap`. The loop of
-- `calc_bufsize` goes round fewer than `size + 16` times.
unfoldable pub zinit : ℕ → ℕ → ℕ → Memory → Result ℕ
zinit zone_zone size memtype s =
    let made = init_zone memtype (calc_bufsize (size + 16) size) (zalloc zone_zone s) in
    if zone_zone == 0 then panicked else made

-- The zone of zones gets the static buffer `szz_buf` at `mem`, of `size` bytes.
unfoldable pub zone_bootstrap : ℕ → ℕ → ℕ → ℕ → Memory → Result (Unit {0})
zone_bootstrap zone_zone zone_size mem size s = elim (calc_bufsize (zone_size + 16) zone_size) [
  | none ↦ out_of_fuel
  | some bufsize ↦ zcram zone_zone mem size (
      put_zone s zone_zone (record {
        bufsize = bufsize;
        freelist = 0;
        count = 0;
        memtype = (s.zone zone_zone).memtype;
      }))
]

unfoldable pub zcount : ℕ → Memory → ℕ
zcount z s = (s.zone z).count

unfoldable pub zbufsize : ℕ → Memory → ℕ
zbufsize z s = (s.zone z).bufsize
