-- ===== src/Examples/Messages.antt =====
-- Runs of the messages of the server (elefant/inference/unix_socket_server.py).
use p2p_rdt.Common.{ℕ, ◌≡◌, List, [], ◌∷◌, ◌++◌, arith}
use p2p_rdt.Common.Results.{ok}
use p2p_rdt.Server.{read_frame, write_action}
use p2p_rdt.Server.Frames.{read_frame-write_action}

read_frame-write_action_example :
    (written : List ℕ) × (write_action (8 ∷ 1 ∷ 255 ∷ []) ≡ ok written)
    × (read_frame (written ++ (7 ∷ 9 ∷ [])) ≡ ok (8 ∷ 1 ∷ 255 ∷ [], 7 ∷ 9 ∷ []))
read_frame-write_action_example =
    read_frame-write_action (8 ∷ 1 ∷ 255 ∷ []) (7 ∷ 9 ∷ []) (omega arith)
