-- ===== src/Kern/Zalloc/Cram.antt =====
-- system/kern/zalloc.c: the buffers that zcram cuts out of a stretch of memory.
use rkernel.Base.{
  ne→==, append_assoc, length-append, sym, All-mono, ◌%◌, subst, refl, All-append, inl, inr, leb,
  [], Bool-cases, ◌^◌, ◌++◌, ◌*◌, ◌≢◌, ◌∷◌, ◌∙◌, length, ◌⊎◌, ◌<◌, ◌-◌, ap, All, ◌≤◌, ◌≡◌, ◌+◌,
  List, ℕ, arith, zero, suc,
}
use rkernel.Kern.Zalloc.{Memory, Result, give, cram_loop, zcram}
use rkernel.Kern.Zalloc.Chunks.{AreFree, HasFree, IsApart, give-HasFree, write-same}

-- A buffer of `b` bytes that lies outside the addresses from `lo` up to `hi`.
abbrev pub IsOutside : ℕ → ℕ → ℕ → ℕ → Type 0
IsOutside b lo hi x = (x + b ≤ lo) ⊎ (hi ≤ x)

abbrev pub IsInside : ℕ → ℕ → ℕ → ℕ → Type 0
IsInside b lo hi x = (lo ≤ x) × (x + b ≤ hi)

-- The free buffers `cs` are joined by new ones, cut out of the memory from `lo` up to `hi`, of which
-- less than a buffer is left over.
abbrev pub Crams : ℕ → ℕ → ℕ → ℕ → List ℕ → Result (Unit {0}) → Type 0
Crams z b lo hi cs Result.panicked = ⊥
Crams z b lo hi cs Result.out_of_fuel = ⊥
Crams z b lo hi cs (Result.ok u s) =
    (new : List ℕ) × (All (IsInside b lo hi) new
      × ((hi < lo + length new * b + b) × HasFree z s (new ++ cs)))

give-bufsize : (z c b : ℕ) (s : Memory) → (s.zone z).bufsize ≡ b → ((give z c s).zone z).bufsize ≡ b
unfolding give
give-bufsize z c b s e = ap (λ zone. zone.bufsize) (write-same s.zone z _) ∙ e

outside-Apart : (b lo size : ℕ) → b ≤ size → (x : ℕ) → IsOutside b lo (lo + size) x → IsApart b lo x
outside-Apart b lo size room x out = ground arith

IsOutside-later :
    (b lo size : ℕ)
    → b ≤ size
    → (x : ℕ) → IsOutside b lo (lo + size) x
    → IsOutside b (lo + b) (lo + b + (size - b)) x
IsOutside-later b lo size room x out = ground arith

IsInside-sooner :
    (b lo size : ℕ)
    → b ≤ size
    → (x : ℕ) → IsInside b (lo + b) (lo + b + (size - b)) x
    → IsInside b lo (lo + size) x
IsInside-sooner b lo size room x inside = ground arith

self-IsInside : (b lo size : ℕ) → b ≤ size → IsInside b lo (lo + size) lo
self-IsInside b lo size room = ground arith

counted :
    (b lo size n m : ℕ)
    → b ≤ size
    → m ≡ n + 1
    → lo + b + (size - b) < lo + b + n * b + b
    → lo + size < lo + m * b + b
counted b lo size n m room e rest = grind arith

next_address : (lo b size : ℕ) → b ≤ size → lo + size < 2 ^ 32 → lo + b ≡ (lo + b) % 2 ^ 32
next_address lo b size room top = omega arith

Crams-later :
    (z b lo size : ℕ) (cs : List ℕ) (out : Result (Unit {0}))
    → b ≤ size
    → Crams z b (lo + b) (lo + b + (size - b)) (lo ∷ cs) out
    → Crams z b lo (lo + size) cs out
Crams-later z b lo size cs Result.panicked room c = absurd c
Crams-later z b lo size cs Result.out_of_fuel room c = absurd c
Crams-later z b lo size cs (Result.ok u s) room (new, (inside, (rest, free))) = (
  new ++ (lo ∷ []),
  (
    All-append (IsInside b lo (lo + size)) new (lo ∷ [])
        (All-mono _ _ (IsInside-sooner b lo size room) new inside)
        ((self-IsInside b lo size room), tt),
    (
      counted b lo size (length new) _ room (length-append new (lo ∷ [])) rest,
      subst (AreFree s.word (s.zone z)) (sym (append_assoc new (lo ∷ []) cs)) free,
    ),
  ),
)

cram_loop-Crams :
    (fuel z b lo size : ℕ) (s : Memory) (cs : List ℕ)
    → size < fuel
    → 0 < b
    → lo ≢ 0
    → lo + size < 2 ^ 32
    → (s.zone z).bufsize ≡ b
    → All (IsOutside b lo (lo + size)) cs
    → HasFree z s cs
    → Crams z b lo (lo + size) cs (cram_loop fuel z b lo size s)
unfolding cram_loop
cram_loop-Crams zero z b lo size s cs enough pos n top e out free = absurd (omega arith)
cram_loop-Crams (suc fuel) z b lo size s cs enough pos n top e out free =
    elim (Bool-cases (leb b size)) [
      | inr done ↦ rw (cram_loop, done) ([], (tt, (ground (arith, done), free)))
      | inl room ↦
          rw (cram_loop, room)
            (subst
              (λ a. Crams z b lo (lo + size) cs (cram_loop fuel z b a (size - b) (give z lo s)))
              (next_address lo b size (ground (arith, room)) top)
              (Crams-later z b lo size cs _ (ground (arith, room)) (
                cram_loop-Crams fuel z b (lo + b) (size - b) (give z lo s) (lo ∷ cs)
                  (ground (arith, room)) pos (omega arith) (ground (arith, room))
                  (give-bufsize z lo b s e)
                  (
                    inl (omega arith),
                    All-mono _ _ (IsOutside-later b lo size (ground (arith, room))) cs out,
                  )
                  (give-HasFree z lo s cs n (apart_new (ground (arith, room))) free))))
    ]
  where
    apart_new : b ≤ size → All (IsApart (s.zone z).bufsize lo) cs
    apart_new room =
        subst (λ b. All (IsApart b lo) cs) (sym e)
          (All-mono _ _ (outside-Apart b lo size room) cs out)

-- Over free buffers that lie outside the memory handed over, below 2 ^ 32, `zcram` ends and frees new
-- buffers that lie in that memory, overlap nothing, and leave less than one buffer of it over.
pub zcram-Crams :
    (z mem size : ℕ) (s : Memory) (cs : List ℕ)
    → mem ≢ 0
    → mem + size < 2 ^ 32
    → All (IsOutside (s.zone z).bufsize mem (mem + size)) cs
    → HasFree z s cs
    → Crams z (s.zone z).bufsize mem (mem + size) cs (zcram z mem size s)
unfolding zcram
zcram-Crams z mem size s cs n top out free = rw (ne→== mem 0 n) (
    cram_loop-Crams (suc size) z (s.zone z).bufsize mem size s cs (omega arith) free.sized n top
      refl out free)
