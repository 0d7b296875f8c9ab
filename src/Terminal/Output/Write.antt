-- ===== src/Terminal/Output/Write.antt =====
-- system/terminal/ccterm_base.c: what a write shows.
use rkernel.Base.{
  sym, false, inl, inr, ◌==◌, true, Bool-cases, Bool, append_assoc, ap, ◌∙◌, append-nil, Option,
  ne→==, eq→==, suc, arith, some, ◌+◌, [], ◌≢◌, ◌<◌, ◌++◌, ◌∷◌, length, List, ℕ, refl, ◌≡◌,
}
use rkernel.Terminal.Output.{
  Call, Class, CctermBuffer, cctb_cut, class_of, make_room, put_char, writeraw_loop, writeraw_end,
  ccterm_writeraw, ccterm_lite_ops_consume, ccterm_std_ops_consume, lite_calls, std_calls,
}
use rkernel.Terminal.Output.Holds.{
  calls_for, Ready, Holds-end, drained, Consumes, lite-Consumes, std-Consumes, drained-Ready,
  put_char-Ready,
}

-- The calls made once what is in the buffer is consumed too.
abbrev all_calls : (ℕ → Class → List Call) → CctermBuffer → List ℕ → List Call
all_calls op buf cs = buf.calls ++ calls_for op cs

-- There is room after the inner loop, and no call is lost.
abbrev Room :
    (ℕ → Class → List Call) → CctermBuffer → List ℕ → Option (Bool × CctermBuffer) → Type 0
Room op buf cs out =
    (buf' : CctermBuffer) × ((cs' : List ℕ) × ((out ≡ some (true, buf'))
        × (Ready buf' cs' × ((length cs' < 1023) × (all_calls op buf' cs' ≡ all_calls op buf cs)))))

abbrev is_full : CctermBuffer → Bool
is_full buf = buf.o_begin == cctb_cut (buf.o_end + 1)

make_room-free :
    (consume : CctermBuffer → Option CctermBuffer) (tries : ℕ) (buf : CctermBuffer)
    → is_full buf ≡ false
    → make_room consume (suc tries) buf ≡ some (true, buf)
unfolding make_room
make_room-free consume tries buf free = rw (free, make_room) refl

make_room-full :
    (consume : CctermBuffer → Option CctermBuffer) (tries : ℕ) (buf buf' : CctermBuffer)
    → is_full buf ≡ true
    → consume buf ≡ some buf'
    → make_room consume (suc tries) buf ≡ make_room consume tries buf'
unfolding make_room
make_room-full consume tries buf buf' full does = rw (full, make_room) (rw does refl)

make_room-Room :
    (op : ℕ → Class → List Call) (consume : CctermBuffer → Option CctermBuffer)
    → Consumes op consume
    → (buf : CctermBuffer) (cs : List ℕ) → Ready buf cs
    → Room op buf cs (make_room consume 4 buf)
unfolding calls_for
make_room-Room op consume does buf cs (b, (e, (few, h))) = elim (Bool-cases (is_full buf)) [
  | inr room ↦ (
    buf,
    (
      cs,
      (
        make_room-free consume 3 buf room,
        ((b, (e, (few, h))), (ground (arith, room, Holds-end buf buf.o_begin cs h), refl)),
      ),
    ),
  )
  | inl full ↦ (
    drained op cs buf,
    (
      [],
      (
        make_room-full consume 3 buf (drained op cs buf) full (does buf cs (b, (e, (few, h))))
            ∙ make_room-free consume 2 (drained op cs buf)
                (ground (arith, Holds-end buf buf.o_begin cs h)),
        (
          drained-Ready op buf cs (b, (e, (few, h))),
          (omega arith, append-nil (buf.calls ++ calls_for op cs)),
        ),
      ),
    ),
  )
]

calls_for-append :
    (op : ℕ → Class → List Call) (cs ds : List ℕ)
    → calls_for op (cs ++ ds) ≡ calls_for op cs ++ calls_for op ds
unfolding calls_for
calls_for-append op [] ds = refl
calls_for-append op (c ∷ cs) ds =
    ap (λ (l : List Call). op c (class_of c) ++ l) (calls_for-append op cs ds)
    ∙ sym (append_assoc (op c (class_of c)) (calls_for op cs) (calls_for op ds))

-- More characters make the same calls behind the same calls.
more_calls :
    (op : ℕ → Class → List Call) (l l' : List Call) (cs cs' ds : List ℕ)
    → l ++ calls_for op cs ≡ l' ++ calls_for op cs'
    → l ++ calls_for op (cs ++ ds) ≡ l' ++ calls_for op (cs' ++ ds)
more_calls op l l' cs cs' ds e =
    rw (calls_for-append op cs ds, calls_for-append op cs' ds)
      (sym (append_assoc l (calls_for op cs) (calls_for op ds))
        ∙ ap (λ (m : List Call). m ++ calls_for op ds) e
        ∙ append_assoc l' (calls_for op cs') (calls_for op ds))

after_room :
    (consume : CctermBuffer → Option CctermBuffer) (c : ℕ) (chars : List ℕ) (i : ℕ)
    → (buf buf' : CctermBuffer) → make_room consume 4 buf ≡ some (true, buf')
    → writeraw_loop consume i (c ∷ chars) buf
      ≡ writeraw_loop consume (i + 1) chars (put_char c buf')
unfolding writeraw_loop
after_room consume c chars i buf buf' out = rw (out, writeraw_loop) refl

-- Every character is taken, and no call is lost.
abbrev Wrote :
    (ℕ → Class → List Call)
    → CctermBuffer
    → List ℕ
    → ℕ
    → Option (Bool × (ℕ × CctermBuffer))
    → Type 0
Wrote op buf cs n out =
    (buf' : CctermBuffer) × ((cs' : List ℕ) × ((out ≡ some (true, (n, buf')))
        × (Ready buf' cs' × (all_calls op buf' cs' ≡ all_calls op buf cs))))

writeraw_loop-Wrote :
    (op : ℕ → Class → List Call) (consume : CctermBuffer → Option CctermBuffer)
    → Consumes op consume
    → (chars : List ℕ) (i : ℕ) (buf : CctermBuffer) (cs : List ℕ) → Ready buf cs
    → Wrote op buf (cs ++ chars) (i + length chars) (writeraw_loop consume i chars buf)
unfolding writeraw_loop put_char
writeraw_loop-Wrote op consume does [] i buf cs ready =
    (buf, (cs, (ground arith, (ready, ap (all_calls op buf) (sym (append-nil cs))))))
writeraw_loop-Wrote op consume does (c ∷ chars) i buf cs ready =
    let (buf1, (cs1, (out, (ready1, (few, kept))))) = make_room-Room op consume does buf cs ready in
    let (buf2, (cs2, (out2, (ready2, kept2)))) =
      writeraw_loop-Wrote op consume does chars (i + 1) (put_char c buf1) (cs1 ++ (c ∷ []))
        (put_char-Ready c buf1 cs1 ready1 few) in
    (
      buf2,
      (
        cs2,
        (
          after_room consume c chars i buf buf1 out ∙ out2 ∙ count buf2,
          (
            ready2,
            kept2
                ∙ ap (all_calls op buf1) (append_assoc cs1 (c ∷ []) chars)
                ∙ more_calls op buf1.calls buf.calls cs1 cs (c ∷ chars) kept,
          ),
        ),
      ),
    )
  where
    count :
        (b : CctermBuffer)
        → ◌≡◌ {A = Option (Bool × (ℕ × CctermBuffer))}
            (some (true, (i + 1 + length chars, b)))
            (some (true, (i + length (c ∷ chars), b)))
    count b = ground arith

-- At the end the buffer is empty, and every character has been shown.
abbrev pub Shown :
    (ℕ → Class → List Call) → CctermBuffer → List ℕ → Option (ℕ × CctermBuffer) → Type 0
Shown op buf chars out =
    (buf' : CctermBuffer) × ((out ≡ some (length chars, buf'))
      × ((buf'.o_begin ≡ buf'.o_end) × (buf'.calls ≡ buf.calls ++ calls_for op chars)))

end-Shown :
    (op : ℕ → Class → List Call) (consume : CctermBuffer → Option CctermBuffer)
    → Consumes op consume
    → (n : ℕ) (buf : CctermBuffer) (cs : List ℕ) → Ready buf cs
    → (buf' : CctermBuffer) × ((writeraw_end consume (some (true, (n, buf))) ≡ some (n, buf'))
        × ((buf'.o_begin ≡ buf'.o_end) × (buf'.calls ≡ all_calls op buf cs)))
unfolding writeraw_end calls_for
end-Shown op consume does n buf [] (b, (e, (few, h))) = (
  buf,
  (
    rw (eq→== buf.o_begin buf.o_end (omega (arith, h)), writeraw_end) refl,
    (omega (arith, h), sym (append-nil buf.calls)),
  ),
)
end-Shown op consume does n buf (c ∷ cs) (b, (e, (few, h))) = (
  drained op (c ∷ cs) buf,
  (
    rw (ne→== buf.o_begin buf.o_end more, writeraw_end)
        (rw (does buf (c ∷ cs) (b, (e, (few, h)))) refl),
    (Holds-end buf buf.o_begin (c ∷ cs) h, refl),
  ),
)
  where
    more : buf.o_begin ≢ buf.o_end
    more q = h.1.0 (omega arith)

shows-with :
    (op : ℕ → Class → List Call) (consume : CctermBuffer → Option CctermBuffer)
    → Consumes op consume
    → (chars : List ℕ) (buf : CctermBuffer) → buf.o_begin < 1024
    → buf.o_begin ≡ buf.o_end
    → Shown op buf chars (ccterm_writeraw consume chars buf)
unfolding ccterm_writeraw calls_for
shows-with op consume does chars buf b empty =
    let (buf1, (cs1, (out, (ready, kept)))) =
      writeraw_loop-Wrote op consume does chars 0 buf []
        (b, (omega arith, (omega arith, omega arith))) in
    let (buf2, (out2, (done, calls))) =
      end-Shown op consume does (0 + length chars) buf1 cs1 ready in
    let count : 0 + length chars ≡ length chars = omega arith in
    (
      buf2,
      (
        ap (writeraw_end consume) out ∙ out2 ∙ ap (λ (n : ℕ). some (n, buf2)) count,
        (done, calls ∙ kept),
      ),
    )

-- With either consumer, a write into an empty buffer takes every character, makes the calls for each of
-- them in order, and leaves the buffer empty.
pub ccterm_writeraw-Shown :
    (chars : List ℕ) (buf : CctermBuffer)
    → buf.o_begin < 1024
    → buf.o_begin ≡ buf.o_end
    → Shown lite_calls buf chars (ccterm_writeraw ccterm_lite_ops_consume chars buf)
      × Shown std_calls buf chars (ccterm_writeraw ccterm_std_ops_consume chars buf)
ccterm_writeraw-Shown chars buf b empty = (
  shows-with lite_calls ccterm_lite_ops_consume lite-Consumes chars buf b empty,
  shows-with std_calls ccterm_std_ops_consume std-Consumes chars buf b empty,
)
