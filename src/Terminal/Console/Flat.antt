-- ===== src/Terminal/Console/Flat.antt =====
-- system/platform/i686-pc/terminal.c: the screen as one row of cells with one cursor.
use rkernel.Base.{ap, ◌∙◌, ◌-◌, zero, [], ◌∷◌, ◌+◌, ◌%◌, suc, ◌≡◌, ◌<◌, ◌/◌, ◌*◌, ℕ, arith, List}
use rkernel.Terminal.Output.{
  Call, console_putchar, console_carriage_return, console_newline, cc_tab,
}
use rkernel.Terminal.Console.{
  Console, advance, carriage_return, newline, putchar, run_call, run_calls, set_cell, spaces, tab,
  terminal_putentryat, vga_entry, console_get_col,
}
use rkernel.Base.{refl}

-- 2000 cells, which the cursor goes round.
pub record Screen : Type 0 where
  pub cursor : ℕ
  pub color : ℕ
  pub cells : ℕ → ℕ

abbrev pub put_flat : ℕ → Screen → Screen
put_flat c s = record s {
  cells = set_cell s.cells s.cursor (vga_entry (c % 256) s.color);
  cursor = (s.cursor + 1) % 2000;
}

pub put_spaces : ℕ → Screen → Screen
put_spaces zero s = s
put_spaces (suc n) s = put_spaces n (put_flat 32 s)

unfoldable pub flat_call : Call → Screen → Screen
flat_call (console_putchar c) s = put_flat c s
flat_call console_carriage_return s = record s { cursor = s.cursor / 80 * 80 }
flat_call console_newline s = record s { cursor = (s.cursor + 80) % 2000 }
flat_call cc_tab s = put_spaces (4 - s.cursor % 4) s

unfoldable pub flat_calls : List Call → Screen → Screen
flat_calls [] s = s
flat_calls (c ∷ cs) s = flat_calls cs (flat_call c s)

abbrev pub screen_of : Console → Screen
screen_of t = record {
  cursor = t.terminal_row * 80 + t.terminal_column;
  color = t.terminal_color;
  cells = t.terminal_buffer;
}

pub record OnScreen (t : Console) : Type 0 where
  pub row : t.terminal_row < 25
  pub column : t.terminal_column < 80

-- What a call leaves.
abbrev pub Shows : Console → Screen → Type 0
Shows t s = OnScreen t × (screen_of t ≡ s)

putchar-Shows : (c : ℕ) (t : Console) → OnScreen t → Shows (putchar c t) (put_flat c (screen_of t))
unfolding putchar advance newline terminal_putentryat
putchar-Shows c t on = (ground arith, ground arith)

spaces-Shows : (n : ℕ) (t : Console) → OnScreen t → Shows (spaces n t) (put_spaces n (screen_of t))
unfolding spaces put_spaces
spaces-Shows zero t on = (on, refl)
spaces-Shows (suc n) t on =
    let (on', e) = putchar-Shows 32 t on in
    let (out, f) = spaces-Shows n (putchar 32 t) on' in (out, f ∙ ap (put_spaces n) e)

same_spaces : (row column : ℕ) → 4 - (row * 80 + column) % 4 ≡ 4 - column % 4
same_spaces row column = omega arith

tab-Shows : (t : Console) → OnScreen t → Shows (tab t) (flat_call cc_tab (screen_of t))
unfolding tab flat_call console_get_col
tab-Shows t on =
    rw (same_spaces t.terminal_row t.terminal_column)
      (spaces-Shows (4 - t.terminal_column % 4) t on)

run_call-Shows :
    (c : Call) (t : Console) → OnScreen t → Shows (run_call c t) (flat_call c (screen_of t))
unfolding run_call flat_call carriage_return newline
run_call-Shows (console_putchar c) t on = putchar-Shows c t on
run_call-Shows console_carriage_return t on = (ground arith, ground arith)
run_call-Shows console_newline t on = (ground arith, ground arith)
run_call-Shows cc_tab t on = tab-Shows t on

-- From a cursor on the screen, any calls of the console keep it there, and leave what the same
-- calls leave of one row of 2000 cells that a single cursor goes round.
pub run_calls-Shows :
    (cs : List Call) (t : Console)
    → OnScreen t
    → Shows (run_calls cs t) (flat_calls cs (screen_of t))
unfolding run_calls flat_calls
run_calls-Shows [] t on = (on, refl)
run_calls-Shows (c ∷ cs) t on =
    let (on', e) = run_call-Shows c t on in
    let (out, f) = run_calls-Shows cs (run_call c t) on' in (out, f ∙ ap (flat_calls cs) e)
