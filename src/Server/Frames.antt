-- ===== src/Server/Frames.antt =====
-- What is written can be read again (elefant/inference/unix_socket_server.py).
use mathlib.Core.List.{append_assoc}
use native.Mathlib.Nat.{pow-suc, div-add-mod', mul_comm, div-lt_iff_lt-mul}
use p2p_rdt.Common.{
  ℕ, zero, suc, ◌/◌, ◌^◌, ◌<◌, ◌≡◌, refl, sym, ap, true, false, List, [], ◌∷◌, ◌++◌, arith, length,
  take, ltb, length-append, drop-append_length,
}
use p2p_rdt.Common.Results.{ok}
use p2p_rdt.Server.{readexactly, from_bytes, little, to_bytes, read_frame, write_action}

take-append_length : (xs ys : List ℕ) → take (length xs) (xs ++ ys) ≡ xs
take-append_length [] ys = refl
take-append_length (x ∷ xs) ys = ap (◌∷◌ x) (take-append_length xs ys)

length-little : (k n : ℕ) → length (little k n) ≡ k
unfolding little
length-little zero n = refl
length-little (suc k) n = ap suc (length-little k (n / 256))

from_bytes-little : (k n : ℕ) → n < 256 ^ k → from_bytes (little k n) ≡ n
unfolding from_bytes little
from_bytes-little zero n h = omega arith
from_bytes-little (suc k) n h =
    let small : n / 256 < 256 ^ k =
      (div-lt_iff_lt-mul (omega arith)).1 (omega (arith, pow-suc 256 k)) in
    rw (from_bytes-little k (n / 256) small)
      (omega (arith, div-add-mod' n 256, mul_comm 256 (n / 256)))

readexactly-append :
    (n : ℕ) (xs ys : List ℕ) → n ≡ length xs → readexactly n (xs ++ ys) ≡ ok (xs, ys)
unfolding readexactly
readexactly-append n xs ys e =
    let more : ltb (length (xs ++ ys)) (length xs) ≡ false = ground (arith, length-append xs ys) in
    rw (e, more, take-append_length xs ys, drop-append_length (length xs) xs ys refl) refl

read_frame-append :
    (header message rest : List ℕ)
    → length header ≡ 4
    → from_bytes header ≡ length message
    → read_frame ((header ++ message) ++ rest) ≡ ok (message, rest)
unfolding read_frame
read_frame-append header message rest four size =
    rw
      (
        append_assoc header message rest,
        readexactly-append 4 header (message ++ rest) (sym four),
        size,
      )
      (readexactly-append (length message) message rest refl)

-- A message shorter than 2 ^ 32 bytes is written, and read back whole from any stream that starts with
-- it, up to what follows it.
pub read_frame-write_action :
    (message rest : List ℕ)
    → length message < 2 ^ 32
    → (written : List ℕ) × (write_action message ≡ ok written)
      × (read_frame (written ++ rest) ≡ ok (message, rest))
unfolding write_action to_bytes
read_frame-write_action message rest h =
    let fits : ltb (length message) (2 ^ 32) ≡ true = ground arith in
    (
      little 4 (length message) ++ message,
      rw fits refl,
      read_frame-append (little 4 (length message)) message rest (length-little 4 (length message))
          (from_bytes-little 4 (length message) h),
    )
