-- ===== src/ComUtils/Tests.antt =====
-- A message of three bytes that is written in two calls and read in several.
use mpitofino.Prelude.{◌≡◌, refl, some, [], ◌∷◌, ok, arith, replicate, length, ◌>>=◌}
use mpitofino.ComUtils.{message, null, send_message, receive_message, read_all}
use mpitofino.ComUtils.Datagram.{send_dgram, recv_dgram, recv_dgram-send_dgram}
use mpitofino.ComUtils.Stream.{Travels, send_message-Travels}

received :
    receive_message some some (3 ∷ 9 ∷ 2 ∷ 9 ∷ 9 ∷ []) (0 ∷ 0 ∷ 0 ∷ 3 ∷ 7 ∷ 8 ∷ 9 ∷ 1 ∷ [])
    ≡ ok (message (7 ∷ 8 ∷ 9 ∷ []) (9 ∷ []) (1 ∷ []))
unfolding receive_message read_all
received = refl

cut_off : receive_message some some (3 ∷ 9 ∷ 2 ∷ 9 ∷ 9 ∷ []) (0 ∷ 0 ∷ 0 ∷ 3 ∷ 7 ∷ []) ≡ ok null
unfolding receive_message read_all
cut_off = refl

send_message-Travels_example :
    Travels some some
      (7 ∷ 8 ∷ 9 ∷ [])
      (replicate 7 2)
      (1 ∷ [])
      (send_message some some 4 (2 ∷ 1 ∷ 5 ∷ []) (7 ∷ 8 ∷ 9 ∷ []))
send_message-Travels_example =
    send_message-Travels some some (7 ∷ 8 ∷ 9 ∷ []) (7 ∷ 8 ∷ 9 ∷ []) (2 ∷ 1 ∷ 5 ∷ [])
      (replicate 7 2) (1 ∷ []) refl refl (omega arith) (omega arith) (omega arith) (omega arith)
      (omega arith)

recv_dgram-send_dgram_example :
    (send_dgram some some (7 ∷ 8 ∷ []) (λ s. some (length s)) >>= λ sent.
    recv_dgram some some (some sent))
    ≡ ok (7 ∷ 8 ∷ [])
recv_dgram-send_dgram_example =
    recv_dgram-send_dgram some some (7 ∷ 8 ∷ []) (7 ∷ 8 ∷ []) (λ s. some (length s)) refl refl refl
