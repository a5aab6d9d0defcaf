-- ===== src/ClientLib/Allreduce.antt =====
-- `AggregationGroup::allreduce` of client_lib/mpitofino.cc: chunks of the buffer go round through a
-- ring of four slots, each with a send and a receive request at the HCA.
pub mod Counting
pub mod Invariant
pub mod Exchange
use mpitofino.Prelude.{
  ℕ, zero, suc, ◌+◌, ◌-◌, ◌*◌, ◌%◌, ◌^◌, ◌≤◌, ◌<◌, ◌≡◌, min, Bool, true, false, ◌&&◌, ◌||◌, not,
  List, [], ◌∷◌, Option, none, some, ltb, leb, ◌==◌, if◌then◌else◌, get_or, set, Result, ok, err,
  ◌>>=◌, runtime_error, undefined_behaviour, length,
}

abbrev pub chunk_size : ℕ
chunk_size = 16384

abbrev pub req_in_flight : ℕ
req_in_flight = 4

-- `get_datatype_element_size`; `datatype_t::INT32` is 1.
unfoldable pub get_datatype_element_size : ℕ → Result ℕ
get_datatype_element_size dtype = if dtype == 1 then ok 4 else err runtime_error

pub record RingElem : Type 0 where
  pub status : ℕ
  pub offset : ℕ
  pub size : ℕ

abbrev pub empty_elem : RingElem
empty_elem = record { status = 0; offset = 0; size = 0 }

-- A part of the buffers, in bytes.
pub record Chunk : Type 0 where
  pub offset : ℕ
  pub size : ℕ

-- The local variables of the loop. `send_queue` and `recv_queue` are the work requests posted to the
-- queue pair and not yet completed, by their slots; `sent` and `received` record the chunks that were
-- converted from `sbuf` and into `dbuf`, the latest first.
pub record Transfer : Type 0 where
  pub ring : List RingElem
  pub send_pos : ℕ
  pub outstanding_reqs : ℕ
  pub ring_pos : ℕ
  pub send_queue : List ℕ
  pub recv_queue : List ℕ
  pub sent : List Chunk
  pub received : List Chunk

-- A work completion, `ibv_wc`.
pub record Completion : Type 0 where
  pub wr_id : ℕ
  pub success : Bool
  pub byte_len : ℕ

abbrev pub elem_at : Transfer → ℕ → RingElem
elem_at t p = get_or t.ring p empty_elem

abbrev pub initial : Transfer
initial = record {
  ring = empty_elem ∷ empty_elem ∷ empty_elem ∷ empty_elem ∷ [];
  send_pos = 0;
  outstanding_reqs = 0;
  ring_pos = 0;
  send_queue = [];
  recv_queue = [];
  sent = [];
  received = [];
}

-- A chunk is put into slot `next`, and its two work requests are posted.
unfoldable pub post_chunk : ℕ → ℕ → Transfer → Transfer
post_chunk size next t =
    let to_send = min chunk_size (size - t.send_pos) in
    record t {
      ring = set t.ring next (record { status = 2; offset = t.send_pos; size = to_send });
      send_pos = t.send_pos + to_send;
      outstanding_reqs = t.outstanding_reqs + 2;
      ring_pos = next;
      send_queue = next ∷ t.send_queue;
      recv_queue = next ∷ t.recv_queue;
      sent = record { offset = t.send_pos; size = to_send } ∷ t.sent;
    }

abbrev pub next_pos : Transfer → ℕ
next_pos t = (t.ring_pos + 1) % req_in_flight

-- The first half of a round of the loop: `Fill ring with new WRs`.
unfoldable pub fill_ring : ℕ → Transfer → Transfer
fill_ring size t =
    if ltb t.send_pos size && (elem_at t (next_pos t)).status == 0
    then post_chunk size (next_pos t) t
    else t

-- The HCA takes a completed request off its queue.
unfoldable pub dequeue : ℕ → List ℕ → List ℕ
dequeue p [] = []
dequeue p (q ∷ qs) = let rest = dequeue p qs in if q == p then qs else q ∷ rest

-- `ring[pos].status--; outstanding_reqs--`, on a `char` and a `size_t`.
abbrev pub release_slot : ℕ → Transfer → Transfer
release_slot pos t = record t {
  ring = set t.ring pos (record (elem_at t pos) { status = ((elem_at t pos).status + 255) % 256 });
  outstanding_reqs = (t.outstanding_reqs + (2 ^ 64 - 1)) % 2 ^ 64;
}

unfoldable pub complete_send : ℕ → Transfer → Transfer
complete_send pos t = record (release_slot pos t) { send_queue = dequeue pos t.send_queue }

-- The slot's result is converted into `dbuf` before the slot is released.
unfoldable pub complete_recv : ℕ → Transfer → Transfer
complete_recv pos t = record (release_slot pos t) {
  recv_queue = dequeue pos t.recv_queue;
  received = record { offset = (elem_at t pos).offset; size = (elem_at t pos).size } ∷ t.received;
}

abbrev pub send_id : ℕ
send_id = 0x200000000

abbrev pub recv_id : ℕ
recv_id = 0x100000000

-- The body of the loop over the completions. A `wr_id` that names no slot is an access out of bounds.
unfoldable pub process_completion : Completion → Transfer → Result Transfer
process_completion wc t =
    if leb send_id wc.wr_id
    then (if not wc.success
        then err runtime_error
        else if ltb (wc.wr_id - send_id) req_in_flight
        then ok (complete_send (wc.wr_id - send_id) t)
        else err undefined_behaviour)
    else if not wc.success || not (wc.byte_len == chunk_size)
    then err runtime_error
    else if leb recv_id wc.wr_id && ltb (wc.wr_id - recv_id) req_in_flight
    then ok (complete_recv (wc.wr_id - recv_id) t)
    else err undefined_behaviour

unfoldable pub process_completions : List Completion → Transfer → Result Transfer
process_completions [] t = ok t
process_completions (wc ∷ wcs) t = process_completion wc t >>= process_completions wcs

-- The loop, over what each call of `ibv_poll_cq` returns; `none` where the polls are used up before
-- the loop ends.
unfoldable pub exchange : ℕ → List (List Completion) → Transfer → Option (Result Transfer)
exchange size [] t = if ltb t.send_pos size || ltb 0 t.outstanding_reqs then none else some (ok t)
exchange size (wcs ∷ polls) t =
    if ltb t.send_pos size || ltb 0 t.outstanding_reqs
    then elim (process_completions wcs (fill_ring size t)) [
      | ok t' ↦ exchange size polls t'
      | err e ↦ some (err e)
    ]
    else some (ok t)

-- The byte count, a `size_t`, and the loop.
unfoldable pub allreduce : ℕ → ℕ → List (List Completion) → Option (Result Transfer)
allreduce count dtype polls = elim (get_datatype_element_size dtype) [
  | ok element ↦ exchange (count * element % 2 ^ 64) polls initial
  | err e ↦ some (err e)
]
