-- ===== src/Terminal/Output.antt =====
-- system/terminal/ccterm_output.c and ccterm_base.c: the ring buffer of 1024 characters between a pipe
-- and the console. The calls of the console are collected in a list; `cc_tab`, which fills up to the
-- next tab stop with spaces, is one of them. Numbers of 16 bits stay below 2048 here.
pub mod Consume
pub mod Holds
pub mod Write
use rkernel.Base.{
  ◌++◌, ltb, false, ◌||◌, ◌+◌, true, not, [], ◌∷◌, ◌==◌, some, none, ◌%◌, if◌then◌else◌, List, Bool,
  ℕ, Option, zero, suc,
}

pub data Call : Type 0 where
  console_putchar : ℕ → Call
  console_carriage_return console_newline cc_tab : Call

-- The classes of characters, CM_DEFAULT left out, which stands for one of the others.
pub data Class : Type 0 where
  cm_print cm_ignore cm_cr cm_nl cm_tab cm_backspace : Class

-- `ansi_charmap`, with what `cmc` is for the characters that it does not name.
unfoldable pub class_of : ℕ → Class
class_of c =
    if c == 13
    then cm_cr
    else if c == 10
    then cm_nl
    else if c == 8
    then cm_backspace
    else if c == 9 || c == 0x0b
    then cm_tab
    else if c == 0x7f
    then cm_ignore
    else if ltb c 0x20
    then cm_ignore
    else cm_print

-- The switch of `ccterm_std_ops_consume`.
unfoldable pub std_calls : ℕ → Class → List Call
std_calls c cm_print = console_putchar c ∷ []
std_calls c cm_cr = console_carriage_return ∷ []
std_calls c cm_nl = console_newline ∷ []
std_calls c cm_tab = cc_tab ∷ []
std_calls c cm_ignore = []
std_calls c cm_backspace = []

-- The switch of `ccterm_lite_ops_consume`.
unfoldable pub lite_calls : ℕ → Class → List Call
lite_calls c cm_print = console_putchar c ∷ []
lite_calls c cm_nl = console_carriage_return ∷ console_newline ∷ []
lite_calls c cm_tab = cc_tab ∷ []
lite_calls c cm_cr = []
lite_calls c cm_ignore = []
lite_calls c cm_backspace = []

-- `struct ccterm_buffer`, with the calls made so far.
pub record CctermBuffer : Type 0 where
  pub o_buffer : ℕ → ℕ
  pub o_begin : ℕ
  pub o_end : ℕ
  pub calls : List Call

abbrev pub cctb_cut : ℕ → ℕ
cctb_cut i = i % 1024

-- The loop over the characters in the buffer: the calls it makes, and `i` at its end.
unfoldable pub consume_loop :
    (ℕ → Class → List Call) → ℕ → ℕ → CctermBuffer → List Call → Option (List Call × ℕ)
consume_loop op zero i buf calls = none
consume_loop op (suc fuel) i buf calls =
    let c = buf.o_buffer (cctb_cut (buf.o_begin + i)) in
    let rest = consume_loop op fuel (i + 1) buf (calls ++ op c (class_of c)) in
    if cctb_cut (buf.o_begin + i) == buf.o_end then some (calls, i) else rest

unfoldable pub consumed : CctermBuffer → Option (List Call × ℕ) → Option CctermBuffer
consumed buf none = none
consumed buf (some (calls, i)) =
    some (record buf { o_begin = cctb_cut (buf.o_begin + i); calls = calls })

unfoldable pub ccterm_std_ops_consume : CctermBuffer → Option CctermBuffer
ccterm_std_ops_consume buf = consumed buf (consume_loop std_calls 1024 0 buf buf.calls)

unfoldable pub ccterm_lite_ops_consume : CctermBuffer → Option CctermBuffer
ccterm_lite_ops_consume buf = consumed buf (consume_loop lite_calls 1024 0 buf buf.calls)

-- The inner loop of `ccterm_writeraw`: whether there is room then, with the buffer. `tries` counts the
-- rounds that `j>3` leaves.
unfoldable pub make_room :
    (CctermBuffer → Option CctermBuffer) → ℕ → CctermBuffer → Option (Bool × CctermBuffer)
make_room consume zero buf = some (not (buf.o_begin == cctb_cut (buf.o_end + 1)), buf)
make_room consume (suc tries) buf = elim (buf.o_begin == cctb_cut (buf.o_end + 1)) [
  | false ↦ some (true, buf)
  | true ↦ elim (consume buf) [ none ↦ none | some buf' ↦ make_room consume tries buf' ]
]

unfoldable pub put_char : ℕ → CctermBuffer → CctermBuffer
put_char c buf = record buf {
  o_buffer = λ q. if q == buf.o_end then c else buf.o_buffer q;
  o_end = cctb_cut (buf.o_end + 1);
}

-- The number of characters written so far is `i`.
unfoldable pub writeraw_loop :
    (CctermBuffer → Option CctermBuffer)
    → ℕ
    → List ℕ
    → CctermBuffer
    → Option (Bool × (ℕ × CctermBuffer))
writeraw_loop consume i [] buf = some (true, (i, buf))
writeraw_loop consume i (c ∷ cs) buf = elim (make_room consume 4 buf) [
  | none ↦ none
  | some (room, buf') ↦ elim room [
    | true ↦ writeraw_loop consume (i + 1) cs (put_char c buf')
    | false ↦ some (false, (i, buf'))
  ]
]

-- The end of `ccterm_writeraw`: what is left in the buffer is consumed, unless it returned early.
unfoldable pub writeraw_end :
    (CctermBuffer → Option CctermBuffer)
    → Option (Bool × (ℕ × CctermBuffer))
    → Option (ℕ × CctermBuffer)
writeraw_end consume none = none
writeraw_end consume (some (false, (i, buf))) = some (i, buf)
writeraw_end consume (some (true, (i, buf))) = elim (buf.o_begin == buf.o_end) [
  | true ↦ some (i, buf)
  | false ↦ elim (consume buf) [ none ↦ none | some buf' ↦ some (i, buf') ]
]

unfoldable pub ccterm_writeraw :
    (CctermBuffer → Option CctermBuffer) → List ℕ → CctermBuffer → Option (ℕ × CctermBuffer)
ccterm_writeraw consume chars buf = writeraw_end consume (writeraw_loop consume 0 chars buf)
