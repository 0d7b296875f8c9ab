-- ===== src/Kern/Zalloc/Tests.antt =====
-- A zone of sixteen-byte buffers, two of them free, and the theorems at it.
use rkernel.Base.{refl, [], ◌∷◌, ◌==◌, ℕ, ◌+◌, inl, if◌then◌else◌, List, arith}
use rkernel.Kern.Zalloc.{Memory, zalloc, zcram, calc_bufsize}
use rkernel.Kern.Zalloc.Chunks.{HasFree, Restores, zfree-zalloc}
use rkernel.Kern.Zalloc.Bufsize.{Fits, calc_bufsize-Fits}
use rkernel.Kern.Zalloc.Cram.{Crams, zcram-Crams}

abbrev memory : Memory
memory = record {
  word = λ p. if p == 1000 then 1016 else if p == 2000 then 500 else 0;
  zone = λ p. record { bufsize = 16; freelist = 1000; count = 2; memtype = 0 };
  vm = record {
    rm = record { childs = []; size = 0; refc = 0 };
    space = λ _. record { n_pages = 0; size = 0; pages = [] };
    pd_begin = 0;
    bmas = record { block = []; maps = [] };
    entered = [];
  };
}

abbrev two_free : List ℕ
two_free = 1000 ∷ 1016 ∷ []

has_two_free : HasFree 500 memory two_free
has_two_free = record {
  sized = omega arith;
  chain = (refl, (omega arith, (refl, (omega arith, refl))));
  apart = ((inl (omega arith), tt), (tt, tt));
  counted = refl;
}

zfree-zalloc_example : Restores 500 two_free (zalloc 500 memory)
zfree-zalloc_example = zfree-zalloc 500 memory two_free (omega arith) refl has_two_free

calc_bufsize-Fits_example : Fits 304 (calc_bufsize (300 + 16) 300)
calc_bufsize-Fits_example = calc_bufsize-Fits 300 (omega arith)

zcram-Crams_example : Crams 500 16 3000 3040 two_free (zcram 500 3000 40 memory)
zcram-Crams_example =
    zcram-Crams 500 3000 40 memory two_free (omega arith) (omega arith)
      (inl (omega arith), (inl (omega arith), tt)) has_two_free
