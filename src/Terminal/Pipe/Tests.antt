-- ===== src/Terminal/Pipe/Tests.antt =====
-- system/iopipe/iopipe_ops.c: "Hi", a tab and a newline, near the end of the ring and of the screen.
use rkernel.Base.{[], ◌∷◌, refl, arith}
use rkernel.Terminal.Output.{CctermBuffer, ccterm_lite_ops_consume}
use rkernel.Terminal.Console.{Console}
use rkernel.Terminal.Pipe.{iopipe_write, ccterm_ops}
use rkernel.Terminal.Pipe.Shows.{Written, iopipe_write-Written}

abbrev ring_end : CctermBuffer
ring_end = record { o_buffer = λ q. 0; o_begin = 1022; o_end = 1022; calls = [] }

abbrev last_row : Console
last_row = record {
  terminal_row = 24;
  terminal_column = 78;
  terminal_color = 7;
  terminal_buffer = λ q. 0;
}

iopipe_write-Written_example :
    Written
      (72 ∷ 105 ∷ 9 ∷ 10 ∷ [])
      ring_end
      last_row
      (iopipe_write (ccterm_ops ccterm_lite_ops_consume) (72 ∷ 105 ∷ 9 ∷ 10 ∷ []) ring_end)
iopipe_write-Written_example =
    iopipe_write-Written (72 ∷ 105 ∷ 9 ∷ 10 ∷ []) ring_end last_row (omega arith) refl refl
      (omega arith)
