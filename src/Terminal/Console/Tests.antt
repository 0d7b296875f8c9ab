-- ===== src/Terminal/Console/Tests.antt =====
-- system/platform/i686-pc/terminal.c: characters at the end of the screen, and the cleared screen.
use rkernel.Base.{arith, [], ◌∷◌, refl, ◌≡◌, map}
use rkernel.Terminal.Console.{
  console_newline, cc_tab, console_putchar, run_calls, Console, putchar, advance, newline,
  terminal_putentryat, console_init, clear_rows, clear_cells,
}
use rkernel.Terminal.Console.Flat.{Shows, flat_calls, screen_of, run_calls-Shows}

abbrev cleared : Console
cleared = console_init (λ q. 1)

abbrev last : Console
last = record {
  terminal_row = 24;
  terminal_column = 78;
  terminal_color = 7;
  terminal_buffer = λ q. 0;
}

wraps : (putchar 66 (record cleared { terminal_row = 24; terminal_column = 79 })).terminal_row ≡ 0
unfolding putchar advance newline terminal_putentryat
wraps = refl

blank : map (cleared.terminal_buffer) (0 ∷ 79 ∷ 1999 ∷ 2000 ∷ []) ≡ 1824 ∷ 1824 ∷ 1824 ∷ 1 ∷ []
unfolding console_init clear_rows clear_cells
blank = refl

run_calls-Shows_example :
    Shows
      (run_calls (console_putchar 65 ∷ cc_tab ∷ console_newline ∷ []) last)
      (flat_calls (console_putchar 65 ∷ cc_tab ∷ console_newline ∷ []) (screen_of last))
run_calls-Shows_example =
    run_calls-Shows (console_putchar 65 ∷ cc_tab ∷ console_newline ∷ []) last (omega arith)
