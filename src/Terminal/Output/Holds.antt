-- ===== src/Terminal/Output/Holds.antt =====
-- system/terminal/ccterm_output.c: the characters that the buffer holds, and what consumes them.
use rkernel.Base.{
  length-append, append_assoc, ap, ◌∙◌, subst, append-nil, Option, zero, ne→==, eq→==, suc, arith,
  some, ◌+◌, [], ◌≢◌, ◌<◌, ◌++◌, ◌∷◌, length, List, ℕ, refl, ◌≡◌,
}
use rkernel.Terminal.Output.{
  Call, Class, CctermBuffer, cctb_cut, consume_loop, consumed, class_of, put_char,
  ccterm_lite_ops_consume, ccterm_std_ops_consume, lite_calls, std_calls,
}

-- The calls for characters one after the other.
unfoldable pub calls_for : (ℕ → Class → List Call) → List ℕ → List Call
calls_for op [] = []
calls_for op (c ∷ cs) = op c (class_of c) ++ calls_for op cs

-- The buffer holds `cs` from the place `b` on.
abbrev pub Holds : CctermBuffer → ℕ → List ℕ → Type 0
Holds buf b [] = cctb_cut b ≡ buf.o_end
Holds buf b (c ∷ cs) =
    (buf.o_buffer (cctb_cut b) ≡ c) × ((cctb_cut b ≢ buf.o_end) × Holds buf (b + 1) cs)

consume_loop-Holds :
    (op : ℕ → Class → List Call) (fuel i : ℕ) (buf : CctermBuffer) (calls : List Call) (cs : List ℕ)
    → length cs < fuel
    → Holds buf (buf.o_begin + i) cs
    → consume_loop op fuel i buf calls ≡ some (calls ++ calls_for op cs, i + length cs)
unfolding consume_loop calls_for
consume_loop-Holds op zero i buf calls cs enough h = absurd (omega arith)
consume_loop-Holds op (suc fuel) i buf calls [] enough h =
    rw (eq→== (cctb_cut (buf.o_begin + i)) buf.o_end h, append-nil calls) (ground arith)
consume_loop-Holds op (suc fuel) i buf calls (c ∷ cs) enough (here, (more, rest)) =
    rw (ne→== (cctb_cut (buf.o_begin + i)) buf.o_end more, here)
      (consume_loop-Holds op fuel (i + 1) buf (calls ++ op c (class_of c)) cs (omega arith) again
        ∙ ap some (λ k. (append_assoc calls (op c (class_of c)) (calls_for op cs) k, count k)))
  where
    again : Holds buf (buf.o_begin + (i + 1)) cs
    again = subst (λ (b : ℕ). Holds buf b cs) (omega arith) rest

    count : i + 1 + length cs ≡ i + length (c ∷ cs)
    count = omega arith

-- A buffer in its bounds that holds `cs`, with a place left.
abbrev pub Ready : CctermBuffer → List ℕ → Type 0
Ready buf cs =
    (buf.o_begin < 1024) × ((buf.o_end < 1024) × ((length cs < 1024) × Holds buf buf.o_begin cs))

pub Holds-end :
    (buf : CctermBuffer) (b : ℕ) (cs : List ℕ)
    → Holds buf b cs
    → cctb_cut (b + length cs) ≡ buf.o_end
Holds-end buf b [] h = omega (arith, h)
Holds-end buf b (c ∷ cs) (here, (more, rest)) = omega (arith, Holds-end buf (b + 1) cs rest)

-- The buffer once a consumer has been through it.
abbrev pub drained : (ℕ → Class → List Call) → List ℕ → CctermBuffer → CctermBuffer
drained op cs buf = record buf {
  o_begin = cctb_cut (buf.o_begin + length cs);
  calls = buf.calls ++ calls_for op cs;
}

abbrev pub Consumes : (ℕ → Class → List Call) → (CctermBuffer → Option CctermBuffer) → Type 0
Consumes op consume =
    (buf : CctermBuffer) (cs : List ℕ) → Ready buf cs → consume buf ≡ some (drained op cs buf)

consumed-Holds :
    (op : ℕ → Class → List Call) (buf : CctermBuffer) (cs : List ℕ)
    → Ready buf cs
    → consumed buf (consume_loop op 1024 0 buf buf.calls) ≡ some (drained op cs buf)
unfolding consumed
consumed-Holds op buf cs (b, (e, (few, h))) =
    let start : Holds buf (buf.o_begin + 0) cs =
      subst (λ (q : ℕ). Holds buf q cs) (omega arith) h in
    let count : 0 + length cs ≡ length cs = omega arith in
    ap (consumed buf) (consume_loop-Holds op 1024 0 buf buf.calls cs few start)
    ∙ ap (λ (n : ℕ). consumed buf (some (buf.calls ++ calls_for op cs, n))) count

pub lite-Consumes : Consumes lite_calls ccterm_lite_ops_consume
unfolding ccterm_lite_ops_consume
lite-Consumes buf cs ready = consumed-Holds lite_calls buf cs ready

pub std-Consumes : Consumes std_calls ccterm_std_ops_consume
unfolding ccterm_std_ops_consume
std-Consumes buf cs ready = consumed-Holds std_calls buf cs ready

pub drained-Ready :
    (op : ℕ → Class → List Call) (buf : CctermBuffer) (cs : List ℕ)
    → Ready buf cs
    → Ready (drained op cs buf) []
drained-Ready op buf cs (b, (e, (few, h))) =
    (omega arith, (e, (omega arith, omega (arith, Holds-end buf buf.o_begin cs h))))

Holds-put :
    (c : ℕ) (buf : CctermBuffer) (b : ℕ) (cs : List ℕ)
    → length cs < 1023
    → Holds buf b cs
    → Holds (put_char c buf) b (cs ++ (c ∷ []))
unfolding put_char
Holds-put c buf b [] few h =
    (rw (eq→== (cctb_cut b) buf.o_end h) refl, ((λ e. absurd (omega arith)), omega arith))
Holds-put c buf b (d ∷ ds) few (here, (more, rest)) = (
  rw (ne→== (cctb_cut b) buf.o_end more) here,
  (
    (λ e. absurd (omega (arith, Holds-end buf (b + 1) ds rest))),
    Holds-put c buf (b + 1) ds (omega arith) rest,
  ),
)

length-snoc : (cs : List ℕ) (c : ℕ) → length (cs ++ (c ∷ [])) ≡ length cs + 1
length-snoc cs c = length-append {0} cs (c ∷ [])

pub put_char-Ready :
    (c : ℕ) (buf : CctermBuffer) (cs : List ℕ)
    → Ready buf cs
    → length cs < 1023
    → Ready (put_char c buf) (cs ++ (c ∷ []))
unfolding put_char
put_char-Ready c buf cs (b, (e, (few, h))) room =
    (b, (omega arith, (omega (arith, length-snoc cs c), Holds-put c buf buf.o_begin cs room h)))
