-- ===== src/Terminal/Pipe.antt =====
-- system/iopipe/iopipe_ops.c, and the pipe of the terminal in system/terminal/ccterm_base.c and kterm.c:
-- requests to read and write. The memory that a request names is the characters in it, and the state
-- behind `iop_data` is passed on.
pub mod Shows
mod Tests
use rkernel.Base.{length, [], ◌∷◌, ℕ, some, Option, List}
use rkernel.Terminal.Output.{CctermBuffer, ccterm_writeraw, ccterm_lite_ops_consume}
use rkernel.Terminal.Console.{Console, console_init}

pub data Rw : Type 0 where
  kbu_read kbu_write : Rw

pub data Origin : Type 0 where
  kbu_as_usr kbu_as_sys : Origin

-- `kbu_iovec_n` is the length of `kbu_iovec`.
pub record KernUio : Type 0 where
  pub kbu_iovec : List (List ℕ)
  pub kbu_totalsize : ℕ
  pub kbu_rw : Rw
  pub kbu_origin : Origin

-- An operation gives the number of characters, and the state then; `none` where it does not end.
abbrev pub Operation : Type 0 → Type 0
Operation S = KernUio → S → Option (ℕ × S)

pub record IopipeOps (S : Type 0) : Type 0 where
  pub io_read : Operation S
  pub io_write : Operation S

abbrev pub kernel_uio : Rw → List ℕ → KernUio
kernel_uio rw chars = record {
  kbu_iovec = chars ∷ [];
  kbu_totalsize = length chars;
  kbu_rw = rw;
  kbu_origin = kbu_as_sys;
}

unfoldable pub iopipe_read : {S : Type 0} → IopipeOps S → List ℕ → S → Option (ℕ × S)
iopipe_read ops chars s = ops.io_read (kernel_uio kbu_read chars) s

unfoldable pub iopipe_write : {S : Type 0} → IopipeOps S → List ℕ → S → Option (ℕ × S)
iopipe_write ops chars s = ops.io_write (kernel_uio kbu_write chars) s

unfoldable pub iopipe_read_v : {S : Type 0} → IopipeOps S → KernUio → S → Option (ℕ × S)
iopipe_read_v ops kbu s = ops.io_read kbu s

unfoldable pub iopipe_write_v : {S : Type 0} → IopipeOps S → KernUio → S → Option (ℕ × S)
iopipe_write_v ops kbu s = ops.io_write kbu s

unfoldable pub ccterm_read : Operation CctermBuffer
ccterm_read kbu buf = some (0, buf)

-- One stretch from the kernel is written, and nothing else.
unfoldable pub write_from :
    (CctermBuffer → Option CctermBuffer) → Origin → List (List ℕ) → Operation CctermBuffer
write_from consume kbu_as_sys (chars ∷ []) kbu buf = ccterm_writeraw consume chars buf
write_from consume kbu_as_sys [] kbu buf = some (0, buf)
write_from consume kbu_as_sys (chars ∷ (more ∷ rest)) kbu buf = some (0, buf)
write_from consume kbu_as_usr iovec kbu buf = some (0, buf)

unfoldable pub ccterm_write : (CctermBuffer → Option CctermBuffer) → Operation CctermBuffer
ccterm_write consume kbu buf = write_from consume kbu.kbu_origin kbu.kbu_iovec kbu buf

abbrev pub ccterm_ops : (CctermBuffer → Option CctermBuffer) → IopipeOps CctermBuffer
ccterm_ops consume = record { io_read = ccterm_read; io_write = ccterm_write consume }

-- The terminal once `kterm_init` has set its consumer: its pipe, and the screen.
pub record Kterm : Type 0 where
  pub ops : IopipeOps CctermBuffer
  pub buffer : CctermBuffer
  pub console : Console

unfoldable pub kterm_init : (ℕ → ℕ) → CctermBuffer → Kterm
kterm_init cells buf = record {
  ops = ccterm_ops ccterm_lite_ops_consume;
  buffer = buf;
  console = console_init cells;
}
