-- ===== src/Libkern/Format/Tests.antt =====
-- Formats written out, and the theorems at them.
use rkernel.Base.{refl, ◌≡◌, some, [], ◌∷◌, List, negsuc, arith}
use rkernel.Libkern.Format.{Arg, signed, string, iopipe_vioprintf, plain_case, number_case, render}
use rkernel.Libkern.Format.Shows.{
  Shows, Item, char, double_percent, plain, spell, given, iopipe_vioprintf-Shows,
}
use rkernel.Libkern.Numbers.{i2a, with_sign, digits_loop}

-- `a%d%%%s` at -10 and "xy".
abbrev items : List Item
items =
    char 97
    ∷ plain 100 (signed (negsuc 9)) (45 ∷ 49 ∷ 48 ∷ [])
    ∷ double_percent
    ∷ plain 115 (string (some (120 ∷ 121 ∷ []))) (120 ∷ 121 ∷ [])
    ∷ []

shows_minus_ten :
    (args : List Arg)
    → render (plain_case 100) (signed (negsuc 9) ∷ args) ≡ some (some (45 ∷ 49 ∷ 48 ∷ []), args)
unfolding render plain_case number_case i2a with_sign digits_loop
shows_minus_ten args = refl

shows_xy :
    (args : List Arg)
    → render (plain_case 115) (string (some (120 ∷ 121 ∷ [])) ∷ args)
      ≡ some (some (120 ∷ 121 ∷ []), args)
unfolding render plain_case
shows_xy args = refl

iopipe_vioprintf-Shows_example :
    Shows (97 ∷ 45 ∷ 49 ∷ 48 ∷ 37 ∷ 120 ∷ 121 ∷ []) (iopipe_vioprintf (spell items) (given items))
iopipe_vioprintf-Shows_example = iopipe_vioprintf-Shows items (
  omega arith,
  (
    (omega arith, (omega arith, (omega arith, (omega arith, shows_minus_ten)))),
    (tt, ((omega arith, (omega arith, (omega arith, (omega arith, shows_xy)))), tt)),
  ),
)
