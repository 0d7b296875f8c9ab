-- ===== src/Terminal/Pipe/Shows.antt =====
-- system/iopipe/iopipe_ops.c: what the terminal shows of a write.
use rkernel.Base.{
  ◌-◌, ◌||◌, refl, arith, ◌||◌, ◌*◌, ◌%◌, ◌+◌, ◌/◌, ◌==◌, not, ◌&&◌, leb, ◌∷◌, if◌then◌else◌, ◌++◌,
  ap, ◌∙◌, sym, subst, length, some, [], ◌≡◌, ◌<◌, Option, ℕ, List,
}
use rkernel.Terminal.Output.{
  class_of, Call, CctermBuffer, lite_calls, ccterm_writeraw, ccterm_lite_ops_consume,
}
use rkernel.Terminal.Output.Holds.{calls_for}
use rkernel.Terminal.Output.Write.{ccterm_writeraw-Shown, Shown}
use rkernel.Terminal.Console.{Console, run_calls}
use rkernel.Terminal.Console.Flat.{
  put_spaces, put_flat, flat_call, Screen, OnScreen, Shows, flat_calls, screen_of, run_calls-Shows,
}
use rkernel.Terminal.Pipe.{iopipe_write, ccterm_write, ccterm_ops, write_from}

-- What typing a byte leaves of the screen: a printable one is put where the cursor is, a newline leads to
-- the begin of the next row, a tab puts spaces up to the next multiple of four, and the other control
-- characters, the carriage return, the backspace and the deletion among them, leave it as it was.
pub typed : ℕ → Screen → Screen
typed c s =
    if leb 32 c && not (c == 127)
    then put_flat c s
    else if c == 10
    then record s { cursor = (s.cursor / 80 + 1) % 25 * 80 }
    else if c == 9 || c == 11
    then put_spaces (4 - s.cursor % 4) s
    else s

pub typed_all : List ℕ → Screen → Screen
typed_all [] s = s
typed_all (c ∷ cs) s = typed_all cs (typed c s)

flat_calls-append :
    (cs ds : List Call) (s : Screen) → flat_calls (cs ++ ds) s ≡ flat_calls ds (flat_calls cs s)
unfolding flat_calls
flat_calls-append [] ds s = refl
flat_calls-append (c ∷ cs) ds s = flat_calls-append cs ds (flat_call c s)

lite_calls-typed : (c : ℕ) (s : Screen) → flat_calls (lite_calls c (class_of c)) s ≡ typed c s
unfolding lite_calls class_of typed flat_calls flat_call
lite_calls-typed c s = ground arith

calls_for-typed :
    (chars : List ℕ) (s : Screen) → flat_calls (calls_for lite_calls chars) s ≡ typed_all chars s
unfolding calls_for typed_all flat_calls
calls_for-typed [] s = refl
calls_for-typed (c ∷ cs) s =
    flat_calls-append (lite_calls c (class_of c)) (calls_for lite_calls cs) s
    ∙ ap (flat_calls (calls_for lite_calls cs)) (lite_calls-typed c s)
    ∙ calls_for-typed cs (typed c s)

-- Every character is taken; the buffer is empty, and the screen is as typing the characters one after the
-- other leaves it.
abbrev pub Written : List ℕ → CctermBuffer → Console → Option (ℕ × CctermBuffer) → Type 0
Written chars buf t out =
    (buf' : CctermBuffer) × ((out ≡ some (length chars, buf'))
      × ((buf'.o_begin ≡ buf'.o_end)
          × Shows (run_calls buf'.calls t) (typed_all chars (screen_of t))))

Shown-Written :
    (chars : List ℕ) (buf : CctermBuffer) (t : Console) (out : Option (ℕ × CctermBuffer))
    → buf.calls ≡ []
    → OnScreen t
    → Shown lite_calls buf chars out
    → Written chars buf t out
Shown-Written chars buf t out none_yet on (buf', (e, (done, calls))) = (
  buf',
  (
    e,
    (
      done,
      subst (λ (u : Screen). Shows (run_calls buf'.calls t) u) (calls_for-typed chars (screen_of t))
          (subst
            (λ (l : List Call).
              Shows (run_calls l t) (flat_calls (calls_for lite_calls chars) (screen_of t)))
            (sym (calls ∙ ap (λ (l : List Call). l ++ calls_for lite_calls chars) none_yet))
            (run_calls-Shows (calls_for lite_calls chars) t on)),
    ),
  ),
)

-- A write of the kernel through the pipe of the terminal, with an empty buffer, takes every
-- character, leaves the buffer empty, and leaves the screen as typing the characters one after
-- the other does, from the cursor on.
pub iopipe_write-Written :
    (chars : List ℕ) (buf : CctermBuffer) (t : Console)
    → buf.o_begin < 1024
    → buf.o_begin ≡ buf.o_end
    → buf.calls ≡ []
    → OnScreen t
    → Written chars buf t (iopipe_write (ccterm_ops ccterm_lite_ops_consume) chars buf)
unfolding iopipe_write ccterm_write write_from
iopipe_write-Written chars buf t b empty none_yet on =
    Shown-Written chars buf t (ccterm_writeraw ccterm_lite_ops_consume chars buf) none_yet on
      (ccterm_writeraw-Shown chars buf b empty).0
