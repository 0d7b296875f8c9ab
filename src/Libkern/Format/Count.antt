-- ===== src/Libkern/Format/Count.antt =====
-- system/libkern/printf.c: the count that iopipe_vioprintf returns.
use rkernel.Base.{
  inr, inl, ◌==◌, refl, ◌+◌, none, [], Bool-cases, ◌∷◌, ◌++◌, some, length, ◌≡◌, ℕ, Option, List,
  zero, suc, arith,
}
use rkernel.Libkern.Format.{
  Arg, Conversion, Output, Next, flush, write_string, rendered, convert, conversion, render,
  percent_round, format_loop, iopipe_vioprintf, percent,
}

-- The number of characters in a list of writes.
abbrev pub total : List (List ℕ) → ℕ
total [] = 0
total (w ∷ ws) = length w + total ws

abbrev pub IsCounted : Output → Type 0
IsCounted out = out.count ≡ total out.writes

total-append : (ws vs : List (List ℕ)) → total (ws ++ vs) ≡ total ws + total vs
total-append [] vs = omega arith
total-append (w ∷ ws) vs = omega (arith, total-append ws vs)

flush-IsCounted : (text : List ℕ) (out : Output) → IsCounted out → IsCounted (flush text out)
unfolding flush
flush-IsCounted [] out h = h
flush-IsCounted (c ∷ text) out h = omega (arith, total-append out.writes ((c ∷ text) ∷ []))

write_string-IsCounted :
    (s : Option (List ℕ)) (out : Output) → IsCounted out → IsCounted (write_string s out)
unfolding write_string
write_string-IsCounted none out h = h
write_string-IsCounted (some s) out h = omega (arith, total-append out.writes (s ∷ []))

abbrev CountsNext : Option Next → Type 0
CountsNext none = Unit
CountsNext (some next) = IsCounted next.out

abbrev pub Counts : Option Output → Type 0
Counts none = Unit
Counts (some out) = IsCounted out

rendered-CountsNext :
    (fmt : List ℕ) (out : Output) (r : Option (Option (List ℕ) × List Arg))
    → IsCounted out
    → CountsNext (rendered fmt out r)
unfolding rendered
rendered-CountsNext fmt out none h = tt
rendered-CountsNext fmt out (some (s, args)) h = write_string-IsCounted s out h

convert-CountsNext :
    (args : List Arg) (out : Output) (c : Option (Conversion × List ℕ))
    → IsCounted out
    → CountsNext (convert args out c)
unfolding convert
convert-CountsNext args out none h = tt
convert-CountsNext args out (some (c, fmt)) h = rendered-CountsNext fmt out (render c args) h

percent_round-CountsNext :
    (text fmt : List ℕ) (args : List Arg) (out : Output)
    → IsCounted out
    → CountsNext (percent_round text fmt args out)
unfolding percent_round
percent_round-CountsNext text [] args out h = tt
percent_round-CountsNext text (c ∷ fmt) args out h = elim (Bool-cases (c == percent)) [
  | inl same ↦ rw (percent_round, same) (flush-IsCounted (text ++ (percent ∷ [])) out h)
  | inr other ↦
      rw (percent_round, other)
        (convert-CountsNext args (flush text out) (conversion (c ∷ fmt))
          (flush-IsCounted text out h))
]

later-Counts :
    (fuel : ℕ) (r : Option Next)
    → CountsNext r
    → ((next : Next)
        → IsCounted next.out
        → Counts (format_loop fuel [] next.fmt next.args next.out))
    → Counts (elim r as (λ x. Option Output) [
      | none ↦ none
      | some next ↦ format_loop fuel [] next.fmt next.args next.out
    ])
later-Counts fuel none h rest = tt
later-Counts fuel (some next) h rest = rest next h

format_loop-Counts :
    (fuel : ℕ) (text fmt : List ℕ) (args : List Arg) (out : Output)
    → IsCounted out
    → Counts (format_loop fuel text fmt args out)
unfolding format_loop
format_loop-Counts zero text fmt args out h = tt
format_loop-Counts (suc fuel) text [] args out h = flush-IsCounted text out h
format_loop-Counts (suc fuel) text (c ∷ fmt) args out h = elim (Bool-cases (c == percent)) [
  | inr other ↦ rw (format_loop, other) (format_loop-Counts fuel (text ++ (c ∷ [])) fmt args out h)
  | inl same ↦
      rw (format_loop, same)
        (later-Counts fuel (percent_round text fmt args out)
          (percent_round-CountsNext text fmt args out h)
          (λ next k. format_loop-Counts fuel [] next.fmt next.args next.out k))
]

-- The count that `iopipe_vioprintf` returns is the number of characters that it wrote, where the
-- format and the arguments have a defined meaning.
pub iopipe_vioprintf-Counts : (fmt : List ℕ) (args : List Arg) → Counts (iopipe_vioprintf fmt args)
unfolding iopipe_vioprintf
iopipe_vioprintf-Counts fmt args = format_loop-Counts (suc (length fmt)) [] fmt args _ refl
