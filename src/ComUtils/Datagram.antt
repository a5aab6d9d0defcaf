-- ===== src/ComUtils/Datagram.antt =====
-- projects/mpitofino/common/com_utils.h: messages on a socket that keeps the bounds of datagrams, between
-- the node daemon and its clients. `serialize` and `parse` stand for the encoding by protobuf.
use mpitofino.Prelude.{
  ℕ, ◌≡◌, ◌≤◌, refl, true, false, Option, some, List, [], ◌∷◌, length, take, min, ltb, ◌==◌,
  if◌then◌else◌, Result, ok, err, ◌>>=◌, or_throw, invalid_argument, runtime_error, system_error,
  arith, zero, suc, ap, Bool-cases, inl, inr, ltb→lt, ==-refl,
}

abbrev pub recv_buf_size : ℕ
recv_buf_size = 65536

take_whole : (n : ℕ) (s : List ℕ) → length s ≤ n → take n s ≡ s
take_whole zero [] h = refl
take_whole (suc n) [] h = refl
take_whole zero (c ∷ s) h = absurd (omega arith)
take_whole (suc n) (c ∷ s) h = ap (λ t. c ∷ t) (take_whole n s (omega arith))

module _ {M : Type 0} (serialize : M → Option (List ℕ)) (parse : List ℕ → Option M) where
  -- `wrote` is what the call of `write` returns, if it does not fail. The datagram that was sent is the
  -- result.
  unfoldable pub send_dgram : M → (List ℕ → Option ℕ) → Result (List ℕ)
  send_dgram msg wrote = or_throw (serialize msg) invalid_argument >>= λ s.
      or_throw (wrote s) system_error >>= λ ret. if ret == length s then ok s else err runtime_error

  -- `read` gives the datagram as far as the buffer reaches, or nothing if it fails. At the end of the
  -- connection it gives no bytes.
  unfoldable pub recv_dgram : Option (List ℕ) → Result M
  recv_dgram datagram = or_throw datagram system_error >>= λ bytes.
      if min recv_buf_size (length bytes) == recv_buf_size
      then err runtime_error
      else or_throw (parse (take recv_buf_size bytes)) runtime_error

  -- A message that can be encoded and read back, and is written whole, arrives if its encoding has
  -- less than 65536 bytes. A longer one is sent without an error, and its receiver throws a runtime
  -- error.
  pub recv_dgram-send_dgram :
      (msg : M) (s : List ℕ) (wrote : List ℕ → Option ℕ)
      → serialize msg ≡ some s
      → parse s ≡ some msg
      → wrote s ≡ some (length s)
      → (send_dgram msg wrote >>= λ sent. recv_dgram (some sent))
        ≡ (if ltb (length s) recv_buf_size then ok msg else err runtime_error)
  unfolding send_dgram recv_dgram
  recv_dgram-send_dgram msg s wrote e p w = elim (Bool-cases (ltb (length s) recv_buf_size)) [
    | inl t ↦
        let full : (min recv_buf_size (length s) == recv_buf_size) ≡ false = ground arith in
        let whole : take recv_buf_size s ≡ s =
          take_whole recv_buf_size s (omega (arith, ltb→lt (length s) recv_buf_size t)) in
        rw (e, w, ==-refl (length s), full, whole, p, t) refl
    | inr f ↦
        let full : (min recv_buf_size (length s) == recv_buf_size) ≡ true = ground arith in
        rw (e, w, ==-refl (length s), full, f) refl
  ]
