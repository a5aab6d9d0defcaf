-- ===== src/ClientLib/Allreduce/Invariant.antt =====
-- The bookkeeping of the ring against the work requests that the HCA holds, and the chunks that have
-- gone round. The HCA is trusted to complete only requests that were posted, each once.
use mpitofino.Prelude.{
  ℕ, zero, suc, ◌+◌, ◌-◌, ◌%◌, ◌^◌, ◌≤◌, ◌<◌, ◌≡◌, ◌⊎◌, inl, inr, refl, ◌∙◌, min, ◌&&◌, List, ltb,
  ◌==◌, if◌then◌else◌, get_or, set, length, arith, Bool-cases, ==→eq, ltb→lt, length-set,
  get_or-set_self, get_or-set_ne,
}
use native.Mathlib.Decide.{dec_lt}
use mpitofino.ClientLib.Allreduce.Counting.{
  count, count-dequeue, chunks_at, slots_at, slots_at-dequeue, slots_at-set, slots_at-status,
  sum_status, sum_status-set, status-le_sum, sum_status-le,
}
use mpitofino.ClientLib.Allreduce.{
  RingElem, empty_elem, Transfer, elem_at, initial, post_chunk, next_pos, fill_ring, dequeue,
  complete_send, complete_recv, chunk_size, req_in_flight,
}

-- The chunks that begin below `pos`: one at each multiple of the chunk size.
abbrev pub chunk_below : ℕ → ℕ → ℕ
chunk_below pos o = if o % chunk_size == 0 && ltb o pos then 1 else 0

pub record IsRing (size : ℕ) (t : Transfer) : Type 0 where
  pub slots : length t.ring ≡ req_in_flight
  pub pos : t.ring_pos < req_in_flight
  pub bound : t.send_pos ≤ size
  pub boundary : (t.send_pos % chunk_size ≡ 0) ⊎ (t.send_pos ≡ size)
  pub total : t.outstanding_reqs ≡ sum_status t.ring
  pub status :
      (p : ℕ)
      → p < req_in_flight
      → (elem_at t p).status ≡ count p t.send_queue + count p t.recv_queue
  pub once : (p : ℕ) → (count p t.send_queue ≤ 1) × (count p t.recv_queue ≤ 1)
  pub in_range :
      (p : ℕ) → req_in_flight ≤ p → (count p t.send_queue ≡ 0) × (count p t.recv_queue ≡ 0)
  pub posted : (o : ℕ) → chunks_at o t.sent ≡ chunk_below t.send_pos o
  pub accounted :
      (o : ℕ) → chunks_at o t.received + slots_at o t.ring t.recv_queue ≡ chunks_at o t.sent

pub initial-IsRing : (size : ℕ) → IsRing size initial
unfolding sum_status count chunks_at slots_at
initial-IsRing size = record {
  slots = refl;
  pos = omega arith;
  bound = omega arith;
  boundary = inl refl;
  total = refl;
  status = λ p h. initial_status p;
  once = λ p. omega arith;
  in_range = λ p h. (refl, refl);
  posted = λ o. ground arith;
  accounted = λ o. refl;
}
  where
    initial_status : (p : ℕ) → (elem_at initial p).status ≡ 0
    initial_status zero = refl
    initial_status (suc zero) = refl
    initial_status (suc (suc zero)) = refl
    initial_status (suc (suc (suc zero))) = refl
    initial_status (suc (suc (suc (suc p)))) = refl

pub outstanding-le : (size : ℕ) (t : Transfer) → IsRing size t → t.outstanding_reqs ≤ 8
outstanding-le size t v = omega (
  arith,
  v.total,
  v.slots,
  sum_status-le t.ring (λ p b. omega (arith, v.status p (omega (arith, b, v.slots)), v.once p)),
)

module _ (size : ℕ) (t : Transfer) (next : ℕ) where
  -- What `post_chunk` puts into the slot.
  abbrev posted_elem : RingElem
  posted_elem = record {
    status = 2;
    offset = t.send_pos;
    size = min chunk_size (size - t.send_pos);
  }

  post_chunk-IsRing :
      IsRing size t
      → t.send_pos < size
      → next < req_in_flight
      → (elem_at t next).status ≡ 0
      → IsRing size (post_chunk size next t)
  unfolding post_chunk count chunks_at slots_at
  post_chunk-IsRing v lt b z = record {
    slots = length-set t.ring next _ ∙ v.slots;
    pos = b;
    bound = omega arith;
    boundary = elim (dec_lt (size - t.send_pos) chunk_size) [
      | yes p ↦ inr (omega arith)
      | no p ↦ inl (omega (arith, v.boundary))
    ];
    total =
        omega (arith, sum_status-set next posted_elem t.ring (omega (arith, v.slots)), v.total, z);
    status = λ p h. elim (Bool-cases (next == p)) [
      | inl e ↦ ground (
        arith,
        ==→eq next p e,
        get_or-set_self t.ring next posted_elem empty_elem (omega (arith, v.slots)),
        v.status next b,
      )
      | inr e ↦ ground (arith, get_or-set_ne t.ring next p posted_elem empty_elem, v.status p h)
    ];
    once = λ p. elim (Bool-cases (next == p)) [
      | inl e ↦ ground (arith, ==→eq next p e, v.status next b)
      | inr e ↦ ground (arith, v.once p)
    ];
    in_range = λ p h. ground (arith, v.in_range p h);
    posted = λ o. ground (arith, v.posted o, v.boundary);
    accounted = λ o. ground (
      arith,
      v.accounted o,
      v.status next b,
      get_or-set_self t.ring next posted_elem empty_elem (omega (arith, v.slots)),
      slots_at-set o next posted_elem t.ring t.recv_queue,
    );
  }

-- Filling the ring keeps the invariant.
pub fill_ring-IsRing : (size : ℕ) (t : Transfer) → IsRing size t → IsRing size (fill_ring size t)
unfolding fill_ring
fill_ring-IsRing size t v = elim (Bool-cases (ltb t.send_pos size)) [
  | inl p ↦ elim (Bool-cases ((elem_at t (next_pos t)).status == 0)) [
    | inl z ↦
        rw (p, z)
          (post_chunk-IsRing size t (next_pos t) v (ltb→lt _ _ p) (omega (arith, v.pos))
            (==→eq _ _ z))
    | inr z ↦ rw (p, z) v
  ]
  | inr p ↦ rw p v
]

module _ (size : ℕ) (t : Transfer) (pos : ℕ) where
  -- The slot after its status was counted down.
  abbrev released : RingElem
  released = record (elem_at t pos) { status = ((elem_at t pos).status + 255) % 256 }

  module _ (v : IsRing size t) (b : pos < req_in_flight) (busy : 1 ≤ (elem_at t pos).status) where
    released_total :
        (t.outstanding_reqs + (2 ^ 64 - 1)) % 2 ^ 64 ≡ sum_status (set t.ring pos released)
    released_total = omega (
      arith,
      sum_status-set pos released t.ring (omega (arith, v.slots)),
      v.total,
      outstanding-le size t v,
      status-le_sum pos t.ring,
      v.status pos b,
      v.once pos,
    )

    released_status :
        (p : ℕ)
        → (get_or (set t.ring pos released) p empty_elem).status + (if pos == p then 1 else 0)
          ≡ (elem_at t p).status
    released_status p = elim (Bool-cases (pos == p)) [
      | inl e ↦ ground (
        arith,
        ==→eq pos p e,
        get_or-set_self t.ring pos released empty_elem (omega (arith, v.slots)),
        v.status pos b,
        v.once pos,
      )
      | inr e ↦ ground (arith, get_or-set_ne t.ring pos p released empty_elem)
    ]

    slots_at-released :
        (o : ℕ) (qs : List ℕ) → slots_at o (set t.ring pos released) qs ≡ slots_at o t.ring qs
    slots_at-released o qs = slots_at-status o pos released t.ring qs refl (omega (arith, v.slots))

  pub complete_send-IsRing :
      IsRing size t
      → 1 ≤ count pos t.send_queue
      → pos < req_in_flight
      → IsRing size (complete_send pos t)
  unfolding complete_send
  complete_send-IsRing v c b =
      let busy : 1 ≤ (elem_at t pos).status = omega (arith, v.status pos b) in
      record {
        slots = length-set t.ring pos _ ∙ v.slots;
        pos = v.pos;
        bound = v.bound;
        boundary = v.boundary;
        total = released_total v b busy;
        status = λ p h.
            omega
              (arith, released_status v b busy p, count-dequeue p pos t.send_queue c, v.status p h);
        once = λ p. (omega (arith, count-dequeue p pos t.send_queue c, v.once p), (v.once p).1);
        in_range = λ p h.
            (omega (arith, count-dequeue p pos t.send_queue c, v.in_range p h), (v.in_range p h).1);
        posted = v.posted;
        accounted = λ o. omega (arith, slots_at-released v b busy o t.recv_queue, v.accounted o);
      }

  pub complete_recv-IsRing :
      IsRing size t
      → 1 ≤ count pos t.recv_queue
      → pos < req_in_flight
      → IsRing size (complete_recv pos t)
  unfolding complete_recv chunks_at
  complete_recv-IsRing v c b =
      let busy : 1 ≤ (elem_at t pos).status = omega (arith, v.status pos b) in
      record {
        slots = length-set t.ring pos _ ∙ v.slots;
        pos = v.pos;
        bound = v.bound;
        boundary = v.boundary;
        total = released_total v b busy;
        status = λ p h.
            omega
              (arith, released_status v b busy p, count-dequeue p pos t.recv_queue c, v.status p h);
        once = λ p. ((v.once p).0, omega (arith, count-dequeue p pos t.recv_queue c, v.once p));
        in_range = λ p h.
            ((v.in_range p h).0, omega (arith, count-dequeue p pos t.recv_queue c, v.in_range p h));
        posted = v.posted;
        accounted = λ o. omega (
          arith,
          slots_at-released v b busy o (dequeue pos t.recv_queue),
          slots_at-dequeue o pos t.ring t.recv_queue c,
          v.accounted o,
        );
      }
