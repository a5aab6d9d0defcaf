-- ===== src/ComUtils.antt =====
-- projects/mpitofino/common/com_utils.h: messages on a stream socket, each after its length. A call of
-- `read` or `write` may transfer less than was asked for. `serialize` and `parse` stand for the
-- encoding by protobuf.
pub mod Stream
pub mod Datagram
mod Tests
use mpitofino.Prelude.{
  ℕ, zero, suc, ◌+◌, ◌-◌, ◌*◌, ◌/◌, ◌%◌, ◌^◌, min, Option, none, some, List, [], ◌∷◌, ◌++◌, length,
  take, drop, ltb, ◌==◌, if◌then◌else◌, get_or, Result, ok, err, ◌>>=◌, invalid_argument,
  runtime_error, system_error,
}

-- `htobe32` in memory.
abbrev pub be32_bytes : ℕ → List ℕ
be32_bytes w = w / 16777216 % 256 ∷ w / 65536 % 256 ∷ w / 256 % 256 ∷ w % 256 ∷ []

-- `be32toh`.
abbrev pub be32_at : List ℕ → ℕ
be32_at bytes =
    get_or bytes 0 0 * 16777216
    + get_or bytes 1 0 * 65536
    + get_or bytes 2 0 * 256
    + get_or bytes 3 0

-- The loop that writes the message: each call takes at most so many bytes as the next of `sizes` says.
-- `none` stands for a call that has not returned yet.
unfoldable pub write_all : List ℕ → List ℕ → Option (List ℕ)
write_all [] [] = some []
write_all [] (b ∷ bytes) = none
write_all (k ∷ sizes) [] = some []
write_all (k ∷ sizes) (b ∷ bytes) = elim (write_all sizes (drop k (b ∷ bytes))) [
  | none ↦ none
  | some sent ↦ some (take k (b ∷ bytes) ++ sent)
]

-- What a loop of reads ends with. `waiting` stands for a call that has not returned yet.
pub data Got : Type 0 where
  waiting : Got
  closed : Got
  got : List ℕ → List ℕ → List ℕ → Got

abbrev pub prepend : List ℕ → Got → Got
prepend bytes waiting = waiting
prepend bytes closed = closed
prepend bytes (got more sizes rest) = got (bytes ++ more) sizes rest

-- A loop that reads `want` bytes of the stream. A read returns at most so many bytes as the next of
-- `sizes` says; none at the end of the stream.
unfoldable pub read_all : List ℕ → ℕ → List ℕ → Got
read_all sizes zero stream = got [] sizes stream
read_all [] (suc want) stream = waiting
read_all (k ∷ sizes) (suc want) stream =
    let n = min (min k (suc want)) (length stream) in
    let rest = read_all sizes (suc want - n) (drop n stream) in
    if n == 0 then closed else prepend (take n stream) rest

-- What `recv_protobuf_message_simple_stream` ends with: a null pointer at the end of the stream, or a
-- message, with the rest of the stream and of the sizes.
pub data Message {ℓ} (M : Type ℓ) : Type ℓ where
  pending : Message M
  null : Message M
  message : M → List ℕ → List ℕ → Message M

module _ {ℓ} {M : Type ℓ} (serialize : M → Option (List ℕ)) (parse : List ℕ → Option M) where
  -- `header` is what the `write` of the length returns.
  unfoldable pub send_message : ℕ → List ℕ → M → Result (Option (List ℕ))
  send_message header sizes msg = elim (serialize msg) [
    | none ↦ err invalid_argument
    | some s ↦
        if header == 4
        then ok (elim (write_all sizes s) [
          | none ↦ none
          | some sent ↦ some (be32_bytes (length s % 2 ^ 32) ++ sent)
        ])
        else err runtime_error
  ]

  abbrev pub parsed : Got → Result (Message M)
  parsed waiting = ok pending
  parsed closed = ok null
  parsed (got bytes sizes rest) = elim (parse bytes) [
    | none ↦ err runtime_error
    | some msg ↦ ok (message msg sizes rest)
  ]

  abbrev pub receive_body : Got → Result (Message M)
  receive_body waiting = ok pending
  receive_body closed = ok null
  receive_body (got bytes sizes rest) = parsed (read_all sizes (be32_at bytes) rest)

  unfoldable pub receive_message : List ℕ → List ℕ → Result (Message M)
  receive_message sizes stream = receive_body (read_all sizes 4 stream)
