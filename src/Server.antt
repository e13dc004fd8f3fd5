-- ===== src/Server.antt =====
-- The messages of `UnixDomainSocketInferenceServer` (elefant/inference/unix_socket_server.py): a
-- stream is the list of its bytes, and the bytes of a message are taken as the protocol library
-- makes them.
pub mod Frames
use p2p_rdt.Common.{
  ℕ, zero, suc, ◌+◌, ◌*◌, ◌/◌, ◌%◌, ◌^◌, Bool, List, [], ◌∷◌, ◌++◌, length, take, drop, ltb,
  if◌then◌else◌,
}
use p2p_rdt.Common.Results.{Result, ok, raise, ◌>>=◌, incomplete_read_error, overflow_error}

-- `reader.readexactly(n)`: the bytes, and the stream after them.
unfoldable pub readexactly : ℕ → List ℕ → Result (List ℕ × List ℕ)
readexactly n stream =
    if ltb (length stream) n then raise incomplete_read_error else ok (take n stream, drop n stream)

-- `int.from_bytes(bytes, byteorder="little")`
unfoldable pub from_bytes : List ℕ → ℕ
from_bytes [] = 0
from_bytes (b ∷ bs) = b + 256 * from_bytes bs

-- The bytes of a number, the lowest first.
unfoldable pub little : ℕ → ℕ → List ℕ
little zero n = []
little (suc k) n = n % 256 ∷ little k (n / 256)

-- `n.to_bytes(4, byteorder="little")`
unfoldable pub to_bytes : ℕ → Result (List ℕ)
unfolding little
to_bytes n = if ltb n (2 ^ 32) then ok (little 4 n) else raise overflow_error

-- `_read_frame`, up to the bytes of the frame.
unfoldable pub read_frame : List ℕ → Result (List ℕ × List ℕ)
unfolding readexactly from_bytes
read_frame stream = do
  (frame_length_bytes, rest) ← readexactly 4 stream
  readexactly (from_bytes frame_length_bytes) rest

-- `_write_action`, from the bytes of the action on: what is appended to the stream.
unfoldable pub write_action : List ℕ → Result (List ℕ)
unfolding to_bytes
write_action action_data = do
  action_length ← to_bytes (length action_data)
  ok (action_length ++ action_data)
