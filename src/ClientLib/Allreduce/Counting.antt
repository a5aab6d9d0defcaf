-- ===== src/ClientLib/Allreduce/Counting.antt =====
-- Counting requests, slots and chunks.
use mpitofino.Prelude.{
  ℕ, zero, suc, ◌+◌, ◌*◌, ◌≤◌, ◌<◌, ◌≡◌, inl, inr, refl, ap, List, [], ◌∷◌, ◌==◌, if◌then◌else◌,
  get_or, set, length, arith, Bool-cases, ==→eq, get_or-set_self, get_or-set_ne,
}
use mpitofino.ClientLib.Allreduce.{RingElem, empty_elem, Chunk, dequeue}

-- How often a number stands in a list.
unfoldable pub count : ℕ → List ℕ → ℕ
count p [] = 0
count p (q ∷ qs) = (if q == p then 1 else 0) + count p qs

pub count-dequeue :
    (p q : ℕ) (qs : List ℕ)
    → 1 ≤ count q qs
    → count p (dequeue q qs) + (if q == p then 1 else 0) ≡ count p qs
unfolding count dequeue
count-dequeue p q [] h = absurd (omega arith)
count-dequeue p q (r ∷ qs) h = ground (arith, count-dequeue p q qs)

pub length-dequeue : (q : ℕ) (qs : List ℕ) → 1 ≤ count q qs → length (dequeue q qs) + 1 ≡ length qs
unfolding count dequeue
length-dequeue q [] h = absurd (omega arith)
length-dequeue q (r ∷ qs) h = ground (arith, length-dequeue q qs)

-- How many of the received chunks, and of the slots that still wait for a result, begin at `o`.
unfoldable pub chunks_at : ℕ → List Chunk → ℕ
chunks_at o [] = 0
chunks_at o (c ∷ cs) = (if c.offset == o then 1 else 0) + chunks_at o cs

unfoldable pub slots_at : ℕ → List RingElem → List ℕ → ℕ
slots_at o ring [] = 0
slots_at o ring (p ∷ ps) =
    (if (get_or ring p empty_elem).offset == o then 1 else 0) + slots_at o ring ps

pub slots_at-dequeue :
    (o q : ℕ) (ring : List RingElem) (qs : List ℕ)
    → 1 ≤ count q qs
    → slots_at o ring (dequeue q qs) + (if (get_or ring q empty_elem).offset == o then 1 else 0)
      ≡ slots_at o ring qs
unfolding count dequeue slots_at
slots_at-dequeue o q ring [] h = absurd (omega arith)
slots_at-dequeue o q ring (r ∷ qs) h = elim (Bool-cases (r == q)) [
  | inl e ↦ ground (arith, ap (λ (i : ℕ). (get_or ring i empty_elem).offset) (==→eq r q e))
  | inr e ↦ ground (arith, slots_at-dequeue o q ring qs)
]

-- A slot that no request waits for can be written.
pub slots_at-set :
    (o q : ℕ) (e : RingElem) (ring : List RingElem) (qs : List ℕ)
    → count q qs ≡ 0
    → slots_at o (set ring q e) qs ≡ slots_at o ring qs
unfolding count slots_at
slots_at-set o q e ring [] h = refl
slots_at-set o q e ring (r ∷ qs) h =
    ground (arith, slots_at-set o q e ring qs, get_or-set_ne ring q r e empty_elem)

-- So can the status of any slot.
pub slots_at-status :
    (o q : ℕ) (e : RingElem) (ring : List RingElem) (qs : List ℕ)
    → e.offset ≡ (get_or ring q empty_elem).offset
    → q < length ring
    → slots_at o (set ring q e) qs ≡ slots_at o ring qs
unfolding slots_at
slots_at-status o q e ring [] h b = refl
slots_at-status o q e ring (r ∷ qs) h b = elim (Bool-cases (q == r)) [
  | inl t ↦ ground (
    arith,
    slots_at-status o q e ring qs h b,
    get_or-set_self ring q e empty_elem b,
    ap (λ (i : ℕ). (get_or (set ring q e) i empty_elem).offset) (==→eq q r t),
    ap (λ (i : ℕ). (get_or ring i empty_elem).offset) (==→eq q r t),
  )
  | inr t ↦ ground (arith, slots_at-status o q e ring qs h b, get_or-set_ne ring q r e empty_elem)
]

unfoldable pub sum_status : List RingElem → ℕ
sum_status [] = 0
sum_status (e ∷ es) = e.status + sum_status es

pub sum_status-set :
    (q : ℕ) (e : RingElem) (es : List RingElem)
    → q < length es
    → sum_status (set es q e) + (get_or es q empty_elem).status ≡ sum_status es + e.status
unfolding sum_status
sum_status-set q e [] h = absurd (omega arith)
sum_status-set zero e (d ∷ es) h = omega arith
sum_status-set (suc q) e (d ∷ es) h = omega (arith, sum_status-set q e es (omega arith))

pub status-le_sum : (q : ℕ) (es : List RingElem) → (get_or es q empty_elem).status ≤ sum_status es
unfolding sum_status
status-le_sum q [] = omega arith
status-le_sum zero (d ∷ es) = omega arith
status-le_sum (suc q) (d ∷ es) = omega (arith, status-le_sum q es)

pub sum_status-le :
    (es : List RingElem)
    → ((p : ℕ) → p < length es → (get_or es p empty_elem).status ≤ 2)
    → sum_status es ≤ 2 * length es
unfolding sum_status
sum_status-le [] h = omega arith
sum_status-le (d ∷ es) h =
    omega (arith, h 0 (omega arith), sum_status-le es (λ p b. h (suc p) (omega (arith, b))))
