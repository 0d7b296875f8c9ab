-- ===== src/Arch/Segments.antt =====
-- system/arch/i686/include/x86/gdt.h: the descriptors of segments and of interrupt gates. Their bit fields
-- are laid out from the lowest bit on.
pub mod Decode
use rkernel.Base.{if◌then◌else◌, ◌^◌, ◌*◌, ◌/◌, ◌+◌, ◌%◌, Bool, ℕ}

pub record Segdesc : Type 0 where
  pub lim_15_0 : ℕ
  pub base_15_0 : ℕ
  pub base_23_16 : ℕ
  pub kind : ℕ  -- `type`
  pub s : ℕ
  pub dpl : ℕ
  pub p : ℕ
  pub lim_19_16 : ℕ
  pub avl : ℕ
  pub rsv1 : ℕ
  pub db : ℕ
  pub g : ℕ
  pub base_31_24 : ℕ

-- The two words of a descriptor.
abbrev pub low_word : Segdesc → ℕ
low_word d = d.lim_15_0 + d.base_15_0 * 2 ^ 16

abbrev pub high_word : Segdesc → ℕ
high_word d =
    d.base_23_16
    + d.kind * 2 ^ 8
    + d.s * 2 ^ 12
    + d.dpl * 2 ^ 13
    + d.p * 2 ^ 15
    + d.lim_19_16 * 2 ^ 16
    + d.avl * 2 ^ 20
    + d.rsv1 * 2 ^ 21
    + d.db * 2 ^ 22
    + d.g * 2 ^ 23
    + d.base_31_24 * 2 ^ 24

-- `SEG` and `SEG16`; a field keeps the low bits of its value.
unfoldable pub seg : ℕ → ℕ → ℕ → ℕ → Segdesc
seg kind base lim dpl = record {
  lim_15_0 = lim / 2 ^ 12 % 2 ^ 16;
  base_15_0 = base % 2 ^ 16;
  base_23_16 = base / 2 ^ 16 % 2 ^ 8;
  kind = kind % 2 ^ 4;
  s = 1;
  dpl = dpl % 2 ^ 2;
  p = 1;
  lim_19_16 = lim / 2 ^ 28 % 2 ^ 4;
  avl = 0;
  rsv1 = 0;
  db = 1;
  g = 1;
  base_31_24 = base / 2 ^ 24 % 2 ^ 8;
}

unfoldable pub seg16 : ℕ → ℕ → ℕ → ℕ → Segdesc
seg16 kind base lim dpl = record {
  lim_15_0 = lim % 2 ^ 16;
  base_15_0 = base % 2 ^ 16;
  base_23_16 = base / 2 ^ 16 % 2 ^ 8;
  kind = kind % 2 ^ 4;
  s = 1;
  dpl = dpl % 2 ^ 2;
  p = 1;
  lim_19_16 = lim / 2 ^ 16 % 2 ^ 4;
  avl = 0;
  rsv1 = 0;
  db = 1;
  g = 0;
  base_31_24 = base / 2 ^ 24 % 2 ^ 8;
}

pub record Gatedesc : Type 0 where
  pub off_15_0 : ℕ
  pub cs : ℕ
  pub args : ℕ
  pub rsv1 : ℕ
  pub kind : ℕ  -- `type`
  pub s : ℕ
  pub dpl : ℕ
  pub p : ℕ
  pub off_31_16 : ℕ

abbrev pub gate_low_word : Gatedesc → ℕ
gate_low_word d = d.off_15_0 + d.cs * 2 ^ 16

abbrev pub gate_high_word : Gatedesc → ℕ
gate_high_word d =
    d.args
    + d.rsv1 * 2 ^ 5
    + d.kind * 2 ^ 8
    + d.s * 2 ^ 12
    + d.dpl * 2 ^ 13
    + d.p * 2 ^ 15
    + d.off_31_16 * 2 ^ 16

abbrev pub sts_t32a : ℕ
sts_t32a = 0x9

abbrev pub sts_ig32 : ℕ
sts_ig32 = 0xE

abbrev pub sts_tg32 : ℕ
sts_tg32 = 0xF

-- `SETGATE`
unfoldable pub set_gate : Bool → ℕ → ℕ → ℕ → Gatedesc
set_gate istrap sel off d = record {
  off_15_0 = off % 2 ^ 16;
  cs = sel % 2 ^ 16;
  args = 0;
  rsv1 = 0;
  kind = if istrap then sts_tg32 else sts_ig32;
  s = 0;
  dpl = d % 2 ^ 2;
  p = 1;
  off_31_16 = off / 2 ^ 16 % 2 ^ 16;
}
