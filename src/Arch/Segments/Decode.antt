-- ===== src/Arch/Segments/Decode.antt =====
-- system/arch/i686/include/x86/gdt.h: descriptors as the processor reads their two words.
use rkernel.Base.{
  false, true, ◌∙◌, Bool, refl, ◌==◌, if◌then◌else◌, ◌*◌, ◌^◌, ◌+◌, ◌%◌, arith, ◌≡◌, ◌<◌, ◌/◌, ℕ,
}
use rkernel.Arch.Segments.{
  sts_ig32, sts_tg32, gate_high_word, gate_low_word, set_gate, seg16, seg, Gatedesc, high_word,
  low_word, Segdesc,
}

-- What a processor knows of a segment: where it begins, its last byte, and its rights.
pub record Segment : Type 0 where
  pub base : ℕ
  pub limit : ℕ
  pub kind : ℕ
  pub is_code_or_data : ℕ
  pub level : ℕ
  pub present : ℕ

abbrev raw_limit : ℕ → ℕ → ℕ
raw_limit low high = low % 2 ^ 16 + high / 2 ^ 16 % 2 ^ 4 * 2 ^ 16

pub decode : ℕ → ℕ → Segment
decode low high = record {
  base = low / 2 ^ 16 + high % 2 ^ 8 * 2 ^ 16 + high / 2 ^ 24 * 2 ^ 24;
  limit =
      if high / 2 ^ 23 % 2 == 1 then raw_limit low high * 2 ^ 12 + 0xFFF else raw_limit low high;
  kind = high / 2 ^ 8 % 2 ^ 4;
  is_code_or_data = high / 2 ^ 12 % 2;
  level = high / 2 ^ 13 % 2 ^ 2;
  present = high / 2 ^ 15 % 2;
}

pub decoded : Segdesc → Segment
decoded d = decode (low_word d) (high_word d)

-- Every descriptor with fields in their widths is read back as it is.
pub record IsNarrow (d : Segdesc) : Type 0 where
  pub lim_15_0 : d.lim_15_0 < 2 ^ 16
  pub base_15_0 : d.base_15_0 < 2 ^ 16
  pub base_23_16 : d.base_23_16 < 2 ^ 8
  pub kind : d.kind < 2 ^ 4
  pub s : d.s < 2
  pub dpl : d.dpl < 2 ^ 2
  pub p : d.p < 2
  pub lim_19_16 : d.lim_19_16 < 2 ^ 4
  pub avl : d.avl < 2
  pub rsv1 : d.rsv1 < 2
  pub db : d.db < 2
  pub g : d.g < 2
  pub base_31_24 : d.base_31_24 < 2 ^ 8

module _ (d : Segdesc) (n : IsNarrow d) where
  base-decode : (decoded d).base ≡ d.base_15_0 + d.base_23_16 * 2 ^ 16 + d.base_31_24 * 2 ^ 24
  unfolding decoded decode
  base-decode = omega arith

  granularity : high_word d / 2 ^ 23 % 2 ≡ d.g
  granularity = omega arith

  raw_limit-word : raw_limit (low_word d) (high_word d) ≡ d.lim_15_0 + d.lim_19_16 * 2 ^ 16
  raw_limit-word = omega arith

  kind-decode : (decoded d).kind ≡ d.kind
  unfolding decoded decode
  kind-decode = omega arith

  flags-decode :
      ((decoded d).is_code_or_data ≡ d.s)
      × (((decoded d).level ≡ d.dpl) × ((decoded d).present ≡ d.p))
  unfolding decoded decode
  flags-decode = (omega arith, (omega arith, omega arith))

  limit-decode : (decoded d).limit ≡ (
      if d.g == 1
      then (d.lim_15_0 + d.lim_19_16 * 2 ^ 16) * 2 ^ 12 + 0xFFF
      else d.lim_15_0 + d.lim_19_16 * 2 ^ 16)
  unfolding decoded decode
  limit-decode = rw (granularity, raw_limit-word) refl

seg-IsNarrow : (kind base lim dpl : ℕ) → IsNarrow (seg kind base lim dpl)
unfolding seg
seg-IsNarrow kind base lim dpl = omega arith

seg16-IsNarrow : (kind base lim dpl : ℕ) → IsNarrow (seg16 kind base lim dpl)
unfolding seg16
seg16-IsNarrow kind base lim dpl = omega arith

abbrev pub segment : ℕ → ℕ → ℕ → ℕ → ℕ → Segment
segment kind base limit level is = record {
  base = base;
  limit = limit;
  kind = kind;
  is_code_or_data = is;
  level = level;
  present = 1;
}

Segment-ext :
    (a b : Segment)
    → a.base ≡ b.base
    → a.limit ≡ b.limit
    → a.kind ≡ b.kind
    → a.is_code_or_data ≡ b.is_code_or_data
    → a.level ≡ b.level
    → a.present ≡ b.present
    → a ≡ b
Segment-ext a b e f g h i j = λ k. record {
  base = e k;
  limit = f k;
  kind = g k;
  is_code_or_data = h k;
  level = i k;
  present = j k;
}

-- A segment of `SEG` begins at its base and ends with the 4096 bytes that hold its limit.
pub seg-decoded :
    (kind base lim dpl : ℕ)
    → kind < 2 ^ 4
    → base < 2 ^ 32
    → lim < 2 ^ 32
    → dpl < 2 ^ 2
    → decoded (seg kind base lim dpl) ≡ segment kind base (lim / 2 ^ 12 * 2 ^ 12 + 0xFFF) dpl 1
unfolding seg
seg-decoded kind base lim dpl k b l p =
    let d = seg kind base lim dpl in
    let n = seg-IsNarrow kind base lim dpl in
    let flags = flags-decode d n in
    Segment-ext (decoded d) (segment kind base (lim / 2 ^ 12 * 2 ^ 12 + 0xFFF) dpl 1)
      (base-decode d n ∙ omega arith) (limit-decode d n ∙ omega arith)
      (kind-decode d n ∙ omega arith) flags.0 (flags.1.0 ∙ omega arith) flags.1.1

-- One of `SEG16` ends with its limit.
pub seg16-decoded :
    (kind base lim dpl : ℕ)
    → kind < 2 ^ 4
    → base < 2 ^ 32
    → lim < 2 ^ 20
    → dpl < 2 ^ 2
    → decoded (seg16 kind base lim dpl) ≡ segment kind base lim dpl 1
unfolding seg16
seg16-decoded kind base lim dpl k b l p =
    let d = seg16 kind base lim dpl in
    let n = seg16-IsNarrow kind base lim dpl in
    let flags = flags-decode d n in
    Segment-ext (decoded d) (segment kind base lim dpl 1) (base-decode d n ∙ omega arith)
      (limit-decode d n ∙ omega arith) (kind-decode d n ∙ omega arith) flags.0
      (flags.1.0 ∙ omega arith) flags.1.1

-- The same, marked as one of the system's.
pub system-decoded :
    (kind base lim dpl : ℕ)
    → kind < 2 ^ 4
    → base < 2 ^ 32
    → lim < 2 ^ 20
    → dpl < 2 ^ 2
    → decoded (record (seg16 kind base lim dpl) { s = 0 }) ≡ segment kind base lim dpl 0
unfolding seg16
system-decoded kind base lim dpl k b l p =
    let d : Segdesc = record (seg16 kind base lim dpl) { s = 0 } in
    let n : IsNarrow d = omega arith in
    let flags = flags-decode d n in
    Segment-ext (decoded d) (segment kind base lim dpl 0) (base-decode d n ∙ omega arith)
      (limit-decode d n ∙ omega arith) (kind-decode d n ∙ omega arith) flags.0
      (flags.1.0 ∙ omega arith) flags.1.1

-- What a processor knows of a gate.
pub record Gate : Type 0 where
  pub selector : ℕ
  pub offset : ℕ
  pub kind : ℕ
  pub level : ℕ
  pub present : ℕ

pub gate_decode : ℕ → ℕ → Gate
gate_decode low high = record {
  selector = low / 2 ^ 16;
  offset = low % 2 ^ 16 + high / 2 ^ 16 * 2 ^ 16;
  kind = high / 2 ^ 8 % 2 ^ 5;
  level = high / 2 ^ 13 % 2 ^ 2;
  present = high / 2 ^ 15 % 2;
}

pub gate_decoded : Gatedesc → Gate
gate_decoded d = gate_decode (gate_low_word d) (gate_high_word d)

pub set_gate-decoded :
    (istrap : Bool) (sel off d : ℕ)
    → sel < 2 ^ 16
    → off < 2 ^ 32
    → d < 2 ^ 2
    → gate_decoded (set_gate istrap sel off d) ≡ record {
      selector = sel;
      offset = off;
      kind = if istrap then sts_tg32 else sts_ig32;
      level = d;
      present = 1;
    }
unfolding gate_decoded gate_decode set_gate
set_gate-decoded true sel off d s o l = ground arith
set_gate-decoded false sel off d s o l = ground arith
