-- ===== src/Libkern/Bytes/Tests.antt =====
-- Overlapping stretches moved up.
use rkernel.Base.{◌≡◌, refl}
use rkernel.Libkern.Bytes.{memmove, memcpy, move_down}

-- The bytes 100 to 102, moved up by one, keep what they held.
moved_up : (memmove 101 100 3 (λ p. p)) 103 ≡ 102
unfolding memmove memcpy move_down
moved_up = refl
