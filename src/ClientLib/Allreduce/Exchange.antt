-- ===== src/ClientLib/Allreduce/Exchange.antt =====
-- The loop of `allreduce` as a whole, on completions that the HCA may report.
use mpitofino.Prelude.{
  Returns, Returns-bind, Returns-imp, ◌/◌, ℕ, suc, ◌+◌, ◌-◌, ◌*◌, ◌%◌, ◌^◌, ◌≤◌, ◌<◌, ◌≡◌, ◌⊎◌, inl,
  inr, refl, ap, ◌∙◌, true, false, ◌||◌, List, [], ◌∷◌, Option, none, some, ltb, leb, ◌==◌,
  if◌then◌else◌, Result, ok, err, length, arith, Bool-cases, ==-refl,
}
use native.Mathlib.Decide.{dec_lt}
use mpitofino.ClientLib.Allreduce.Counting.{count, chunks_at, slots_at, status-le_sum}
use mpitofino.ClientLib.Allreduce.{
  RingElem, Transfer, Completion, initial, post_chunk, fill_ring, complete_send, complete_recv,
  send_id, recv_id, process_completion, process_completions, exchange, allreduce,
  get_datatype_element_size, chunk_size, req_in_flight,
}
use mpitofino.ClientLib.Allreduce.Invariant.{
  IsRing, chunk_below, initial-IsRing, outstanding-le, fill_ring-IsRing, complete_send-IsRing,
  complete_recv-IsRing,
}

-- A successful completion of a request that is posted and not yet completed; a result has the size of
-- a chunk.
abbrev pub IsDue : Transfer → Completion → Type 0
IsDue t wc =
    (pos : ℕ) × (pos < req_in_flight)
    × (wc.success ≡ true)
    × (((wc.wr_id ≡ send_id + pos) × (1 ≤ count pos t.send_queue))
        ⊎ ((wc.wr_id ≡ recv_id + pos) × (wc.byte_len ≡ chunk_size) × (1 ≤ count pos t.recv_queue)))

-- The work that is left: two completions for each chunk to come, and those outstanding.
abbrev pub work : ℕ → Transfer → ℕ
work size t = (size - t.send_pos + 16383) / 16384 * 2 + t.outstanding_reqs

abbrev Completed : ℕ → Transfer → Transfer → Type 0
Completed size t t' = IsRing size t' × (work size t' + 1 ≡ work size t)

module _ (t : Transfer) (wc : Completion) (pos : ℕ) where
  process_send :
      wc.wr_id ≡ send_id + pos
      → pos < req_in_flight
      → wc.success ≡ true
      → process_completion wc t ≡ ok (complete_send pos t)
  unfolding process_completion
  process_send e b s =
      let kind : leb send_id wc.wr_id ≡ true = ground arith in
      let slot : wc.wr_id - send_id ≡ pos = omega arith in
      let inside : ltb pos req_in_flight ≡ true = ground arith in rw (kind, s, slot, inside) refl

  process_recv :
      wc.wr_id ≡ recv_id + pos
      → pos < req_in_flight
      → wc.success ≡ true
      → wc.byte_len ≡ chunk_size
      → process_completion wc t ≡ ok (complete_recv pos t)
  unfolding process_completion
  process_recv e b s l =
      let kind : leb send_id wc.wr_id ≡ false = ground arith in
      let full : (wc.byte_len == chunk_size) ≡ true = ground arith in
      let named : leb recv_id wc.wr_id ≡ true = ground arith in
      let slot : wc.wr_id - recv_id ≡ pos = omega arith in
      let inside : ltb pos req_in_flight ≡ true = ground arith in
      rw (kind, s, full, named, slot, inside) refl

module _ (size : ℕ) (t : Transfer) (v : IsRing size t) where
  process_completion-Completed :
      (wc : Completion) → IsDue t wc → Returns (Completed size t) (process_completion wc t)
  process_completion-Completed wc (pos, b, s, inl (e, c)) = rw (process_send t wc pos e b s) (
    complete_send-IsRing size t pos v c b,
    omega (
      arith,
      outstanding_send pos,
      outstanding-le size t v,
      v.total,
      status-le_sum pos t.ring,
      v.status pos b,
    ),
  )
    where
      outstanding_send :
          (p : ℕ)
          → work size (complete_send p t)
            ≡ (size - t.send_pos + 16383) / 16384 * 2 + (t.outstanding_reqs + (2 ^ 64 - 1)) % 2 ^ 64
      outstanding_send p = unfold complete_send in refl
  process_completion-Completed wc (pos, b, s, inr (e, l, c)) = rw (process_recv t wc pos e b s l) (
    complete_recv-IsRing size t pos v c b,
    omega (
      arith,
      outstanding_recv pos,
      outstanding-le size t v,
      v.total,
      status-le_sum pos t.ring,
      v.status pos b,
    ),
  )
    where
      outstanding_recv :
          (p : ℕ)
          → work size (complete_recv p t)
            ≡ (size - t.send_pos + 16383) / 16384 * 2 + (t.outstanding_reqs + (2 ^ 64 - 1)) % 2 ^ 64
      outstanding_recv p = unfold complete_recv in refl

-- What the HCA may report in one poll: each completion is due when it is processed.
abbrev pub AllDue : Transfer → List Completion → Type 0
AllDue t [] = Unit
AllDue t (wc ∷ wcs) = IsDue t wc × Returns (λ t'. AllDue t' wcs) (process_completion wc t)

-- What it may report in a run of the loop: any number of completions in every poll.
abbrev pub AllPollsDue : ℕ → Transfer → List (List Completion) → Type 0
AllPollsDue size t [] = Unit
AllPollsDue size t (wcs ∷ polls) =
    AllDue (fill_ring size t) wcs
    × Returns (λ t'. AllPollsDue size t' polls) (process_completions wcs (fill_ring size t))

-- The completions of all polls.
abbrev pub completions : List (List Completion) → ℕ
completions [] = 0
completions (wcs ∷ polls) = length wcs + completions polls

Returns-and :
    {A : Type 0} (P Q : A → Type 0) (m : Result A)
    → Returns P m
    → Returns Q m
    → Returns (λ a. P a × Q a) m
Returns-and P Q (ok a) p q = (p, q)
Returns-and P Q (err e) p q = p

process_completions-work :
    (size : ℕ) (wcs : List Completion) (t : Transfer)
    → IsRing size t
    → AllDue t wcs
    → Returns
        (λ t'. IsRing size t' × (work size t' + length wcs ≡ work size t))
        (process_completions wcs t)
unfolding process_completions
process_completions-work size [] t v d = (v, omega arith)
process_completions-work size (wc ∷ wcs) t v d =
    Returns-bind (λ t'. Completed size t t' × AllDue t' wcs)
      (λ t'. IsRing size t' × (work size t' + suc (length wcs) ≡ work size t))
      (process_completion wc t) (process_completions wcs)
      (Returns-and (Completed size t) (λ t'. AllDue t' wcs) _
        (process_completion-Completed size t v wc d.0) d.1)
      (λ t' h.
        Returns-imp (λ t2. IsRing size t2 × (work size t2 + length wcs ≡ work size t'))
          (λ t2. IsRing size t2 × (work size t2 + suc (length wcs) ≡ work size t)) _
          (process_completions-work size wcs t' h.0.0 h.1)
          (λ t2 k. (k.0, omega (arith, k.1, h.0.1))))

-- Filling a slot only moves work.
work-fill_ring : (size : ℕ) (t : Transfer) → work size (fill_ring size t) ≡ work size t
unfolding fill_ring post_chunk
work-fill_ring size t = elim (dec_lt (size - t.send_pos) chunk_size) [
  | yes p ↦ ground arith
  | no p ↦ ground arith
]

-- The transfer is complete: everything was sent, and each chunk of the buffer, and nothing else, was
-- converted into the result buffer once.
abbrev pub Finished : ℕ → Transfer → Type 0
Finished size t =
    (t.send_pos ≡ size)
    × ((o : ℕ) → chunks_at o t.sent ≡ chunk_below size o)
    × ((o : ℕ) → chunks_at o t.received ≡ chunk_below size o)

slots_at-none :
    (o : ℕ) (ring : List RingElem) (qs : List ℕ)
    → ((p : ℕ) → count p qs ≡ 0)
    → slots_at o ring qs ≡ 0
unfolding slots_at count
slots_at-none o ring [] h = refl
slots_at-none o ring (q ∷ qs) h = absurd (omega (arith, one_at (h q)))
  where
    one_at : (if q == q then 1 else 0) + count q qs ≡ 0 → 1 ≤ 0
    one_at e = ground (arith, ==-refl q)

Finished-of_idle :
    (size : ℕ) (t : Transfer)
    → IsRing size t
    → size ≤ t.send_pos
    → t.outstanding_reqs ≡ 0
    → Finished size t
Finished-of_idle size t v all idle = (
  sent_all,
  (λ o. v.posted o ∙ ap (λ (n : ℕ). chunk_below n o) sent_all),
  (λ o.
      omega (arith, v.accounted o, slots_at-none o t.ring t.recv_queue no_request)
      ∙ v.posted o
      ∙ ap (λ (n : ℕ). chunk_below n o) sent_all),
)
  where
    sent_all : t.send_pos ≡ size
    sent_all = omega (arith, v.bound)

    no_request : (p : ℕ) → count p t.recv_queue ≡ 0
    no_request p = elim (dec_lt p req_in_flight) [
      | yes b ↦ omega (arith, v.status p b, status-le_sum p t.ring, v.total)
      | no b ↦ (v.in_range p (omega arith)).1
    ]

-- What a run may end with: a complete transfer, or too few polls for the work.
abbrev pub Outcome : ℕ → ℕ → Option (Result Transfer) → Type 0
Outcome size left none = 1 ≤ left
Outcome size left (some (ok t)) = Finished size t
Outcome size left (some (err e)) = ⊥

Outcome-le :
    (size n m : ℕ) (o : Option (Result Transfer)) → n ≤ m → Outcome size n o → Outcome size m o
Outcome-le size n m none h k = omega arith
Outcome-le size n m (some (ok t)) h k = k
Outcome-le size n m (some (err e)) h k = k

loop_over :
    (size : ℕ) (t : Transfer)
    → (ltb t.send_pos size || ltb 0 t.outstanding_reqs) ≡ false
    → (size ≤ t.send_pos) × (t.outstanding_reqs ≡ 0)
loop_over size t h = ground arith

loop_goes_on :
    (size : ℕ) (t : Transfer)
    → (ltb t.send_pos size || ltb 0 t.outstanding_reqs) ≡ true
    → 1 ≤ work size t
loop_goes_on size t h = elim (dec_lt t.send_pos size) [ yes p ↦ omega arith | no p ↦ ground arith ]

exchange-Outcome :
    (size : ℕ) (polls : List (List Completion)) (t : Transfer)
    → IsRing size t
    → AllPollsDue size t polls
    → Outcome size (work size t - completions polls) (exchange size polls t)
unfolding exchange
exchange-Outcome size [] t v d =
    elim (Bool-cases (ltb t.send_pos size || ltb 0 t.outstanding_reqs)) [
      | inl e ↦ rw e (omega (arith, loop_goes_on size t e))
      | inr e ↦ rw e (Finished-of_idle size t v (loop_over size t e).0 (loop_over size t e).1)
    ]
exchange-Outcome size (wcs ∷ polls) t v d =
    elim (Bool-cases (ltb t.send_pos size || ltb 0 t.outstanding_reqs)) [
      | inl e ↦ rw e (
          go (process_completions wcs (fill_ring size t))
            (process_completions-work size wcs (fill_ring size t) (fill_ring-IsRing size t v) d.0)
            d.1 (λ t' v' d'. exchange-Outcome size polls t' v' d'))
      | inr e ↦ rw e (Finished-of_idle size t v (loop_over size t e).0 (loop_over size t e).1)
    ]
  where
    go :
        (m : Result Transfer)
        → Returns
            (λ t'. IsRing size t' × (work size t' + length wcs ≡ work size (fill_ring size t)))
            m
        → Returns (λ t'. AllPollsDue size t' polls) m
        → ((t' : Transfer)
            → IsRing size t'
            → AllPollsDue size t' polls
            → Outcome size (work size t' - completions polls) (exchange size polls t'))
        → Outcome size
            (work size t - (length wcs + completions polls))
            (elim m [ ok t' ↦ exchange size polls t' | err e ↦ some (err e) ])
    go (err e) h k ih = h
    go (ok t') h k ih =
        Outcome-le size (work size t' - completions polls) _ _
          (omega (arith, h.1, work-fill_ring size t)) (ih t' h.0 k)

abbrev pub Ends {ℓ} : {A : Type ℓ} → (A → Type 0) → Option (Result A) → Type 0
Ends P none = ⊥
Ends P (some (ok a)) = P a
Ends P (some (err e)) = ⊥

-- Allreduce of a buffer of 32-bit integers, if the HCA completes the posted requests in any order
-- and reports any number of them in each poll: once the polls have reported two completions for each
-- chunk of 16384 bytes, the loop has ended without an error, and every chunk was sent once and its
-- result stored once.
pub allreduce-Finished :
    (n : ℕ) (polls : List (List Completion))
    → n < 2 ^ 62
    → AllPollsDue (n * 4) initial polls
    → (n * 4 + 16383) / 16384 * 2 ≤ completions polls
    → Ends (Finished (n * 4)) (allreduce n 1 polls)
unfolding allreduce get_datatype_element_size
allreduce-Finished n polls b d l =
    let fits : n * 4 % 2 ^ 64 ≡ n * 4 = omega arith in
    rw fits (
      go (exchange (n * 4) polls initial)
        (exchange-Outcome (n * 4) polls initial (initial-IsRing (n * 4)) d))
  where
    go :
        (o : Option (Result Transfer))
        → Outcome (n * 4) (work (n * 4) initial - completions polls) o
        → Ends (Finished (n * 4)) o
    go none h = omega arith
    go (some (ok t)) h = h
    go (some (err e)) h = h
