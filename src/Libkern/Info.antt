-- ===== src/Libkern/Info.antt =====
-- system/libkern/printinfo.c: numbers in a fixed width, and iopipe_vprintinfo. The calls of
-- `iopipe_write` are collected in a list, in order. `paddr_t` and pointers have 32 bits on the i686.
pub mod Width
use rkernel.Base.{
  true, false, ◌||◌, none, ◌==◌, ◌%◌, ◌^◌, ◌++◌, some, if◌then◌else◌, ◌∷◌, ◌/◌, [], Option, ℕ, List,
  zero, suc,
}
use rkernel.Libkern.Numbers.{hexlow, hexhig, plain_digit, digits_loop}

-- The loop over the `n` digits, from the last one.
unfoldable pub render_loop : (ℕ → ℕ) → ℕ → ℕ → List ℕ → List ℕ
render_loop digit zero paddr s = s
render_loop digit (suc n) paddr s = render_loop digit n (paddr / 2 ^ 4) (digit (paddr % 2 ^ 4) ∷ s)

unfoldable pub render_phys_low : ℕ → List ℕ
render_phys_low paddr = render_loop hexlow 8 paddr []

unfoldable pub render_phys_high : ℕ → List ℕ
render_phys_high paddr = render_loop hexhig 8 paddr []

unfoldable pub render_virt_low : ℕ → List ℕ
render_virt_low paddr = render_loop hexlow 8 paddr []

unfoldable pub render_virt_high : ℕ → List ℕ
render_virt_high paddr = render_loop hexhig 8 paddr []

unfoldable pub info_u2a : ℕ → Option (List ℕ)
info_u2a i = digits_loop plain_digit 10 32 i []

abbrev pub tilde : ℕ
tilde = 126

-- The switch on the character behind a tilde: the writes, and the arguments left. An argument that is
-- missing is undefined (`none`).
unfoldable pub info_case : ℕ → List ℕ → Option (List (List ℕ) × List ℕ)
info_case c [] =
    if c == 104 || c == 72 || c == 112 || c == 80 || c == 117 || c == 105 || c == 100
    then none
    else some ([], [])
info_case c (arg ∷ args) =
    if c == 104
    then some (render_phys_low arg ∷ [], args)
    else if c == 72
    then some (render_phys_high arg ∷ [], args)
    else if c == 112
    then some (render_virt_low arg ∷ [], args)
    else if c == 80
    then some (render_virt_high arg ∷ [], args)
    else if c == 117 || c == 105 || c == 100
    then elim (info_u2a arg) [ none ↦ none | some s ↦ some (s ∷ [], args) ]
    else some ([], arg ∷ args)

-- `if(fmt>last)iopipe_write(iopipe,last,fmt-last)`
unfoldable pub flush_text : List ℕ → List (List ℕ) → List (List ℕ)
flush_text [] writes = writes
flush_text (c ∷ text) writes = writes ++ ((c ∷ text) ∷ [])

-- The loop; `text` is the text from `last` on. Where the format ends behind a tilde the code steps over
-- its terminator (`none`).
unfoldable pub info_loop : List ℕ → List ℕ → List ℕ → List (List ℕ) → Option (List (List ℕ))
info_loop text [] args writes = some (flush_text text writes)
info_loop text (t ∷ []) args writes =
    if t == tilde then none else some (flush_text (text ++ (t ∷ [])) writes)
info_loop text (t ∷ c ∷ fmt) args writes = elim (t == tilde) [
  | false ↦ info_loop (text ++ (t ∷ [])) (c ∷ fmt) args writes
  | true ↦ elim (info_case c args) [
    | none ↦ none
    | some (new, args') ↦ info_loop [] fmt args' (flush_text text writes ++ new)
  ]
]

unfoldable pub iopipe_vprintinfo : List ℕ → List ℕ → Option (List (List ℕ))
iopipe_vprintinfo fmt args = info_loop [] fmt args []
