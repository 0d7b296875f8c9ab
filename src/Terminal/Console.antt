-- ===== src/Terminal/Console.antt =====
-- system/platform/i686-pc/terminal.c and vga.h: the text screen of a PC, and the calls that the terminal
-- makes of it. `terminal_buffer` is the cell at each index.
pub mod Flat
mod Tests
use rkernel.Base.{◌^◌, ◌==◌, zero, [], ◌∷◌, ◌*◌, ◌%◌, suc, if◌then◌else◌, ◌-◌, ◌+◌, ℕ, List}
use rkernel.Terminal.Output.{
  Call, console_putchar, console_carriage_return, console_newline, cc_tab,
}

pub record Console : Type 0 where
  pub terminal_row : ℕ
  pub terminal_column : ℕ
  pub terminal_color : ℕ
  pub terminal_buffer : ℕ → ℕ

abbrev pub vga_width : ℕ
vga_width = 80

abbrev pub vga_height : ℕ
vga_height = 25

-- The fields of `|` do not overlap.
abbrev pub vga_entry_color : ℕ → ℕ → ℕ
vga_entry_color fg bg = (fg + bg * 2 ^ 4) % 256

abbrev pub vga_entry : ℕ → ℕ → ℕ
vga_entry c color = c + color * 2 ^ 8

abbrev pub set_cell : (ℕ → ℕ) → ℕ → ℕ → ℕ → ℕ
set_cell cells p v q = if q == p then v else cells q

unfoldable pub terminal_putentryat : ℕ → ℕ → ℕ → ℕ → Console → Console
terminal_putentryat c color x y t = record t {
  terminal_buffer = set_cell t.terminal_buffer (y * vga_width + x) (vga_entry c color);
}

-- The loops of `console_init`, over `n` cells of the row `y` and over `n` rows.
unfoldable pub clear_cells : ℕ → ℕ → ℕ → Console → Console
clear_cells zero x y t = t
clear_cells (suc n) x y t = clear_cells n (x + 1) y (record t {
  terminal_buffer = set_cell t.terminal_buffer (y * vga_width + x) (vga_entry 32 t.terminal_color);
})

unfoldable pub clear_rows : ℕ → ℕ → Console → Console
clear_rows zero y t = t
clear_rows (suc n) y t = clear_rows n (y + 1) (clear_cells vga_width 0 y t)

-- Light grey on black; `cells` is what the memory of the screen holds.
unfoldable pub console_init : (ℕ → ℕ) → Console
console_init cells = clear_rows vga_height 0 (record {
  terminal_row = 0;
  terminal_column = 0;
  terminal_color = vga_entry_color 7 0;
  terminal_buffer = cells;
})

unfoldable pub terminal_setcolor : ℕ → Console → Console
terminal_setcolor color t = record t { terminal_color = color }

unfoldable pub console_get_col : Console → ℕ
console_get_col t = t.terminal_column

unfoldable pub carriage_return : Console → Console
carriage_return t = record t { terminal_column = 0 }

unfoldable pub newline : Console → Console
newline t =
    let row = t.terminal_row + 1 in record t { terminal_row = if row == vga_height then 0 else row }

-- What follows the write in `console_putchar`.
unfoldable pub advance : Console → Console
unfolding newline
advance t =
    let column = t.terminal_column + 1 in
    if column == vga_width
    then newline (record t { terminal_column = 0 })
    else record t { terminal_column = column }

unfoldable pub putchar : ℕ → Console → Console
putchar c t =
    advance (terminal_putentryat (c % 256) t.terminal_color t.terminal_column t.terminal_row t)

unfoldable pub console_write_text : List ℕ → Console → Console
console_write_text [] t = t
console_write_text (c ∷ cs) t = console_write_text cs (putchar c t)

-- `n` spaces, the loop of `cc_tab`.
unfoldable pub spaces : ℕ → Console → Console
spaces zero t = t
spaces (suc n) t = spaces n (putchar 32 t)

unfoldable pub tab : Console → Console
tab t = spaces (4 - console_get_col t % 4) t

unfoldable pub run_call : Call → Console → Console
run_call (console_putchar c) t = putchar c t
run_call console_carriage_return t = carriage_return t
run_call console_newline t = newline t
run_call cc_tab t = tab t

unfoldable pub run_calls : List Call → Console → Console
run_calls [] t = t
run_calls (c ∷ cs) t = run_calls cs (run_call c t)
