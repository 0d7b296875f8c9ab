-- ===== src/Libkern/Format.antt =====
-- system/libkern/printf.c: iopipe_vioprintf, which writes a format and its arguments to a pipe. The
-- calls of `iopipe_write` are collected in a list, in order. Characters are their codes.
pub mod Count
pub mod Shows
mod Tests
use rkernel.Base.{
  true, ◌||◌, ◌^◌, ◌+◌, false, ◌==◌, ◌++◌, ◌%◌, [], ◌∷◌, some, none, length, if◌then◌else◌, ℕ,
  Option, List, zero, suc, ℤ,
}
use rkernel.Libkern.Numbers.{
  i2a, li2a, lli2a, zi2a, ti2a, u2a, lu2a, llu2a, zu2a, tu2a, x2a, lx2a, llx2a, zx2a, tx2a, xx2a,
  lxx2a, llxx2a, zxx2a, txx2a, o2a, lo2a, llo2a, zo2a, to2a, p2a,
}

-- An argument of the caller; `string none` is a null pointer.
pub data Arg : Type 0 where
  signed : ℤ → Arg
  unsigned : ℕ → Arg
  string : Option (List ℕ) → Arg

-- The case that a character after the percent sign selects.
pub data Conversion : Type 0 where
  as_signed : (ℤ → Option (List ℕ)) → Conversion
  as_unsigned : (ℕ → Option (List ℕ)) → Conversion
  as_char as_string as_nothing : Conversion

abbrev pub percent : ℕ
percent = 37

-- The inner switch on `d`, `i`, `u`, `x`, `X` and `o`, with the functions of one size.
unfoldable pub number_case :
    (ℤ → Option (List ℕ))
    → (ℕ → Option (List ℕ))
    → (ℕ → Option (List ℕ))
    → (ℕ → Option (List ℕ))
    → (ℕ → Option (List ℕ))
    → ℕ
    → Conversion
number_case i u x xx o c =
    if c == 100 || c == 105
    then as_signed i
    else if c == 117
    then as_unsigned u
    else if c == 120
    then as_unsigned x
    else if c == 88
    then as_unsigned xx
    else if c == 111
    then as_unsigned o
    else as_nothing

-- The cases of the outer switch that have no size in front.
unfoldable pub plain_case : ℕ → Conversion
plain_case c =
    if c == 112
    then as_unsigned p2a
    else if c == 99
    then as_char
    else if c == 115
    then as_string
    else number_case i2a u2a x2a xx2a o2a c

-- The switch on the characters behind the percent sign: the conversion, and the format behind it.
-- Where the format ends first the code steps over its terminator (`none`).
unfoldable pub conversion : List ℕ → Option (Conversion × List ℕ)
conversion [] = none
conversion (c ∷ []) = if c == 122 || c == 116 || c == 108 then none else some (plain_case c, [])
conversion (c ∷ d ∷ []) =
    if c == 122
    then some (number_case zi2a zu2a zx2a zxx2a zo2a d, [])
    else if c == 116
    then some (number_case ti2a tu2a tx2a txx2a to2a d, [])
    else if c == 108
    then if d == 108 then none else some (number_case li2a lu2a lx2a lxx2a lo2a d, [])
    else some (plain_case c, d ∷ [])
conversion (c ∷ d ∷ e ∷ rest) =
    if c == 122
    then some (number_case zi2a zu2a zx2a zxx2a zo2a d, e ∷ rest)
    else if c == 116
    then some (number_case ti2a tu2a tx2a txx2a to2a d, e ∷ rest)
    else if c == 108
    then if d == 108
      then some (number_case lli2a llu2a llx2a llxx2a llo2a e, rest)
      else some (number_case li2a lu2a lx2a lxx2a lo2a d, e ∷ rest)
    else some (plain_case c, d ∷ e ∷ rest)

abbrev pub null_text : List ℕ
null_text = 40 ∷ 110 ∷ 117 ∷ 108 ∷ 108 ∷ 41 ∷ []

-- The string that a conversion writes, where it writes one, and the arguments left. An argument that
-- is missing or of another type is undefined (`none`).
unfoldable pub render : Conversion → List Arg → Option (Option (List ℕ) × List Arg)
render (as_signed f) (signed i ∷ args) = elim (f i) [ none ↦ none | some s ↦ some (some s, args) ]
render (as_unsigned f) (unsigned n ∷ args) = elim (f n) [
  | none ↦ none
  | some s ↦ some (some s, args)
]
render as_char (unsigned n ∷ args) = some (some (n % 2 ^ 8 ∷ []), args)
render as_string (string none ∷ args) = some (some null_text, args)
render as_string (string (some s) ∷ args) = some (some s, args)
render as_nothing args = some (none, args)
render (as_signed f) _ = none
render (as_unsigned f) _ = none
render as_char _ = none
render as_string _ = none

-- What was written so far, and the count.
pub record Output : Type 0 where
  pub writes : List (List ℕ)
  pub count : ℕ

-- `if(fmt>last)iopipe_write(iopipe,last,fmt-last)` and the count before it, on the text from `last` to
-- `fmt`.
unfoldable pub flush : List ℕ → Output → Output
flush [] out = out
flush (c ∷ text) out = record {
  writes = out.writes ++ ((c ∷ text) ∷ []);
  count = out.count + length (c ∷ text);
}

unfoldable pub write_string : Option (List ℕ) → Output → Output
write_string none out = out
write_string (some s) out = record { writes = out.writes ++ (s ∷ []); count = out.count + length s }

-- The variables at the head of the loop, once a conversion is behind.
pub record Next : Type 0 where
  pub fmt : List ℕ
  pub args : List Arg
  pub out : Output

unfoldable pub rendered : List ℕ → Output → Option (Option (List ℕ) × List Arg) → Option Next
rendered fmt out none = none
rendered fmt out (some (s, args)) =
    some (record { fmt = fmt; args = args; out = write_string s out })

unfoldable pub convert : List Arg → Output → Option (Conversion × List ℕ) → Option Next
convert args out none = none
convert args out (some (c, fmt)) = rendered fmt out (render c args)

-- One round of the loop at a percent sign; `text` is the text from `last` to it, `fmt` what follows.
-- Before a second percent sign the first is written with the text, and the second is passed over.
unfoldable pub percent_round : List ℕ → List ℕ → List Arg → Output → Option Next
percent_round text [] args out = none
percent_round text (c ∷ fmt) args out =
    if c == percent
    then some (record { fmt = fmt; args = args; out = flush (text ++ (percent ∷ [])) out })
    else convert args (flush text out) (conversion (c ∷ fmt))

-- The loop. Each round takes a character of the format, whose length is the fuel.
unfoldable pub format_loop : ℕ → List ℕ → List ℕ → List Arg → Output → Option Output
format_loop zero text fmt args out = none
format_loop (suc fuel) text [] args out = some (flush text out)
format_loop (suc fuel) text (c ∷ fmt) args out = elim (c == percent) [
  | false ↦ format_loop fuel (text ++ (c ∷ [])) fmt args out
  | true ↦ elim (percent_round text fmt args out) [
    | none ↦ none
    | some next ↦ format_loop fuel [] next.fmt next.args next.out
  ]
]

-- The writes, and the count returned; `none` where the behaviour is undefined.
unfoldable pub iopipe_vioprintf : List ℕ → List Arg → Option Output
iopipe_vioprintf fmt args =
    format_loop (suc (length fmt)) [] fmt args (record { writes = []; count = 0 })
