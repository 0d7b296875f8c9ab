-- ===== src/Libkern/Format/Shows.antt =====
-- system/libkern/printf.c: what iopipe_vioprintf writes for a format made of text and conversions.
use rkernel.Base.{
  ◌<◌, refl, length, subst, ne→==, All, append_assoc, ◌∙◌, ap, sym, none, append-nil, ◌≡◌, ◌∷◌,
  ◌++◌, some, [], Option, ◌≢◌, ℕ, List, zero, suc, arith,
}
use rkernel.Libkern.Format.{
  Arg, Output, flush, write_string, rendered, convert, conversion, render, percent_round,
  format_loop, iopipe_vioprintf, percent, plain_case,
}

-- A part of a format: a character, a doubled percent sign, or a conversion of one character, with its
-- argument and the string that it stands for.
pub data Item : Type 0 where
  char : ℕ → Item
  double_percent : Item
  plain : ℕ → Arg → List ℕ → Item

abbrev pub IsItem : Item → Type 0
IsItem (char c) = c ≢ percent
IsItem double_percent = Unit
IsItem (plain c a s) =
    (c ≢ percent)
    × ((c ≢ 122)
        × ((c ≢ 116)
            × ((c ≢ 108)
                × ((args : List Arg) → render (plain_case c) (a ∷ args) ≡ some (some s, args)))))

-- The format, its arguments, and the text meant.
abbrev pub spell : List Item → List ℕ
spell [] = []
spell (char c ∷ items) = c ∷ spell items
spell (double_percent ∷ items) = percent ∷ percent ∷ spell items
spell (plain c a s ∷ items) = percent ∷ c ∷ spell items

abbrev pub given : List Item → List Arg
given [] = []
given (char c ∷ items) = given items
given (double_percent ∷ items) = given items
given (plain c a s ∷ items) = a ∷ given items

abbrev pub shown : List Item → List ℕ
shown [] = []
shown (char c ∷ items) = c ∷ shown items
shown (double_percent ∷ items) = percent ∷ shown items
shown (plain c a s ∷ items) = s ++ shown items

abbrev pub written : List (List ℕ) → List ℕ
written [] = []
written (w ∷ ws) = w ++ written ws

abbrev pub Shows : List ℕ → Option Output → Type 0
Shows text none = ⊥
Shows text (some out) = written out.writes ≡ text

written-append : (ws : List (List ℕ)) (w : List ℕ) → written (ws ++ (w ∷ [])) ≡ written ws ++ w
written-append [] w = append-nil w
written-append (v ∷ ws) w =
    ap (λ t. v ++ t) (written-append ws w) ∙ sym (append_assoc v (written ws) w)

written-flush :
    (text : List ℕ) (out : Output) → written (flush text out).writes ≡ written out.writes ++ text
unfolding flush
written-flush [] out = sym (append-nil (written out.writes))
written-flush (c ∷ text) out = written-append out.writes (c ∷ text)

written-write_string :
    (s : List ℕ) (out : Output)
    → written (write_string (some s) out).writes ≡ written out.writes ++ s
unfolding write_string
written-write_string s out = written-append out.writes s

conversion-plain :
    (c : ℕ) (fmt : List ℕ)
    → c ≢ 122
    → c ≢ 116
    → c ≢ 108
    → conversion (c ∷ fmt) ≡ some (plain_case c, fmt)
unfolding conversion
conversion-plain c [] z t l = ground arith
conversion-plain c (d ∷ []) z t l = ground arith
conversion-plain c (d ∷ e ∷ rest) z t l = ground arith

percent_round-plain :
    (text : List ℕ) (c : ℕ) (fmt : List ℕ) (a : Arg) (s : List ℕ) (args : List Arg) (out : Output)
    → IsItem (plain c a s)
    → percent_round text (c ∷ fmt) (a ∷ args) out
      ≡ some (record { fmt = fmt; args = args; out = write_string (some s) (flush text out) })
unfolding percent_round convert rendered
percent_round-plain text c fmt a s args out (p, (z, (t, (l, r)))) =
    rw (percent_round, ne→== c percent p, conversion-plain c fmt z t l, r args) refl

format_loop-plain :
    (fuel : ℕ) (text : List ℕ) (c : ℕ) (fmt : List ℕ) (a : Arg) (s : List ℕ) (args : List Arg)
    (out : Output)
    → IsItem (plain c a s)
    → format_loop (suc fuel) text (percent ∷ c ∷ fmt) (a ∷ args) out
      ≡ format_loop fuel [] fmt args (write_string (some s) (flush text out))
unfolding format_loop
format_loop-plain fuel text c fmt a s args out p =
    rw (format_loop, percent_round-plain text c fmt a s args out p) refl

Shows-text : (o : Option Output) (t u : List ℕ) → t ≡ u → Shows t o → Shows u o
Shows-text o t u e h = subst (λ t. Shows t o) e h

-- The loop writes the text from `last` on and then what the items show.
format_loop-Shows :
    (fuel : ℕ) (text : List ℕ) (items : List Item) (out : Output)
    → All IsItem items
    → length (spell items) < fuel
    → Shows
        (written out.writes ++ (text ++ shown items))
        (format_loop fuel text (spell items) (given items) out)
unfolding format_loop percent_round
format_loop-Shows zero text items out ok enough = absurd (omega arith)
format_loop-Shows (suc fuel) text [] out ok enough =
    written-flush text out ∙ ap (λ t. written out.writes ++ t) (sym (append-nil text))
format_loop-Shows (suc fuel) text (char c ∷ items) out (p, ok) enough =
    rw (format_loop, ne→== c percent p)
      (Shows-text _ _ _
        (ap (λ t. written out.writes ++ t) (append_assoc text (c ∷ []) (shown items)))
        (format_loop-Shows fuel (text ++ (c ∷ [])) items out ok (omega arith)))
format_loop-Shows (suc fuel) text (double_percent ∷ items) out (p, ok) enough =
    Shows-text _ _ _
      (ap (λ t. t ++ shown items) (written-flush (text ++ (percent ∷ [])) out)
        ∙ (append_assoc (written out.writes) (text ++ (percent ∷ [])) (shown items)
            ∙ ap (λ t. written out.writes ++ t) (append_assoc text (percent ∷ []) (shown items))))
      (format_loop-Shows fuel [] items (flush (text ++ (percent ∷ [])) out) ok (omega arith))
format_loop-Shows (suc fuel) text (plain c a s ∷ items) out (p, ok) enough =
    subst (Shows (written out.writes ++ (text ++ (s ++ shown items))))
      (sym (format_loop-plain fuel text c (spell items) a s (given items) out p))
      (Shows-text _ _ _
        (ap (λ t. t ++ shown items)
            (written-write_string s (flush text out) ∙ ap (λ t. t ++ s) (written-flush text out))
          ∙ (append_assoc (written out.writes ++ text) s (shown items)
              ∙ append_assoc (written out.writes) text (s ++ shown items)))
        (format_loop-Shows fuel [] items (write_string (some s) (flush text out)) ok (omega arith)))

-- For a format made of plain characters, doubled percent signs and conversions of one character with
-- fitting arguments, `iopipe_vioprintf` is defined and writes the characters, single percent signs and
-- the rendered arguments, in their order.
pub iopipe_vioprintf-Shows :
    (items : List Item)
    → All IsItem items
    → Shows (shown items) (iopipe_vioprintf (spell items) (given items))
unfolding iopipe_vioprintf
iopipe_vioprintf-Shows items ok =
    format_loop-Shows (suc (length (spell items))) [] items _ ok (omega arith)
