-- ===== src/Multinet.antt =====
-- src/datalink/multinet.cc: the frames of a Multinet circuit over TCP. What a read of the socket
-- returned is there.
pub mod Cuts
pub mod Send
mod Tests
use cppdecnet.Prelude.{
  ℕ, zero, suc, ◌+◌, ◌*◌, ◌%◌, ◌/◌, Bool, true, false, Option, none, some, List, [], ◌∷◌, ◌++◌, ltb,
  if◌then◌else◌, length, take, drop,
}

-- The header that `send` puts before a message: its length, and two zero bytes.
unfoldable pub frame : List ℕ → List ℕ
frame msg = length msg % 256 ∷ length msg / 256 % 256 ∷ 0 ∷ 0 ∷ msg

-- The bytes of a frame whose header gives the length bc, and those behind it; none where they are not all there.
unfoldable pub take_body : ℕ → List ℕ → Option (List ℕ × List ℕ)
take_body bc rest = if ltb (length rest) bc then none else some (take bc rest, drop bc rest)

-- One round of the loop over what was read.
unfoldable pub take_frame : List ℕ → Option (List ℕ × List ℕ)
take_frame [] = none
take_frame (b0 ∷ []) = none
take_frame (b0 ∷ b1 ∷ []) = none
take_frame (b0 ∷ b1 ∷ b2 ∷ []) = none
take_frame (b0 ∷ b1 ∷ b2 ∷ b3 ∷ rest) = take_body (b0 + b1 * 256) rest

unfoldable pub pass_up :
    (List ℕ → List (List ℕ) × List ℕ) → List ℕ → Option (List ℕ × List ℕ) → List (List ℕ) × List ℕ
pass_up more bs none = ([], bs)
pass_up more bs (some (msg, rest)) = let r = more rest in (msg ∷ r.0, r.1)

-- The loop: the messages of every whole frame, and the tail.
unfoldable pub whole_frames : ℕ → List ℕ → List (List ℕ) × List ℕ
whole_frames zero bs = ([], bs)
whole_frames (suc n) bs = pass_up (whole_frames n) bs (take_frame bs)

-- A read, behind the tail of the one before it. A round takes a byte at least, so there are rounds enough.
unfoldable pub read_frames : List ℕ → List ℕ → List (List ℕ) × List ℕ
read_frames tail got = whole_frames (length (tail ++ got)) (tail ++ got)

-- The reads of a connection.
unfoldable pub receive_loop : List ℕ → List (List ℕ) → List (List ℕ) × List ℕ
receive_loop tail [] = ([], tail)
receive_loop tail (got ∷ reads) =
    let r = read_frames tail got in let s = receive_loop r.1 reads in (r.0 ++ s.0, s.1)
