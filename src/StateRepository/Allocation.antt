-- ===== src/StateRepository/Allocation.antt =====
-- The number allocators `get_free_coll_qp_common` and `get_free_agg_unit`.
use mpitofino.Prelude.{
  ℕ, zero, suc, ◌+◌, ◌-◌, ◌*◌, ◌%◌, ◌≤◌, ◌<◌, ◌≡◌, ◌≢◌, inl, inr, ◌⊎◌, ◌==◌, ==→eq, refl, true,
  false, Option, none, some, [], ◌∷◌, ltb, if◌then◌else◌, Bool-cases, runtime_error, Result, ok,
  err, arith, subst, lt→ltb, ge→ltb,
}
use native.Mathlib.Decide.{dec_lt}
use mpitofino.Prelude.OrderedMap.{Map, Avoids}
use mpitofino.StateRepository.{
  StateRepository, CollectiveChannel, qp_taken, unit_taken, find_free_qp, find_free_unit, qp_fuel,
  get_free_coll_qp_common, get_free_agg_unit,
}

-- The tests on the channels, as statements about every channel.
pub qp_taken-Avoids :
    (qp : ℕ) (m : Map CollectiveChannel)
    → qp_taken qp m ≡ false
    → Avoids (λ c. c.fabric_qp_common) qp m
unfolding qp_taken
qp_taken-Avoids qp [] h = tt
qp_taken-Avoids qp ((t, c) ∷ m) h = (ground arith, qp_taken-Avoids qp m (ground arith))

pub unit_taken-Avoids :
    (unit : ℕ) (m : Map CollectiveChannel)
    → unit_taken unit m ≡ false
    → Avoids (λ c. c.agg_unit) unit m
unfolding unit_taken
unit_taken-Avoids unit [] h = tt
unit_taken-Avoids unit ((t, c) ∷ m) h = (ground arith, unit_taken-Avoids unit m (ground arith))

-- What the queue-pair allocator ends with: a number in range that no channel has, or a throw.
abbrev pub QpOutcome : Map CollectiveChannel → Result ℕ → Type 0
QpOutcome m (ok qp) = (1 ≤ qp) × (qp < 65536) × (qp_taken qp m ≡ false)
QpOutcome m (err e) = e ≡ runtime_error

abbrev pub QpEnd : Map CollectiveChannel → Option (ℕ × Result ℕ) → Type 0
QpEnd m none = ⊥
QpEnd m (some (next, r)) = (next < 65536) × QpOutcome m r

abbrev QpFound : Option (ℕ × Result ℕ) → Type 0
QpFound none = ⊥
QpFound (some (next, ok qp)) = Unit
QpFound (some (next, err e)) = ⊥

-- The three ways through a round of the loop.
module _ (m : Map CollectiveChannel) (fuel : ℕ) where
  round_over :
      (next cnt : ℕ) → 2 ≤ cnt → find_free_qp m (suc fuel) next cnt ≡ some (next, err runtime_error)
  unfolding find_free_qp
  round_over next cnt h = ground arith

  round_wrap :
      (cnt : ℕ)
      → cnt < 2
      → find_free_qp m (suc fuel) 0 cnt
        ≡ (if qp_taken 1 m then find_free_qp m fuel 2 (cnt + 1) else some (2, ok 1))
  unfolding find_free_qp
  round_wrap cnt h = rw (lt→ltb cnt 2 h) refl

  round_next :
      (next cnt : ℕ)
      → cnt < 2
      → 1 ≤ next
      → find_free_qp m (suc fuel) next cnt ≡ (
          if qp_taken next m
          then find_free_qp m fuel ((next + 1) % 65536) cnt
          else some ((next + 1) % 65536, ok next))
  unfolding find_free_qp
  round_next next cnt h k = rw (lt→ltb cnt 2 h, ge→ltb next 1 k) refl

-- The rounds that a run of the loop can still make.
abbrev qp_rounds : ℕ → ℕ → ℕ
qp_rounds next cnt = (2 - cnt) * 65536 + (if ltb next 1 then 0 else 65536 - next)

find_free_qp-QpEnd :
    (m : Map CollectiveChannel) (fuel next cnt : ℕ)
    → next < 65536
    → cnt ≤ 2
    → qp_rounds next cnt < fuel
    → QpEnd m (find_free_qp m fuel next cnt)
find_free_qp-QpEnd m zero next cnt b c h = absurd (omega arith)
find_free_qp-QpEnd m (suc fuel) zero cnt b c h = elim (dec_lt cnt 2) [
  | no over ↦ rw (round_over m fuel 0 cnt (omega arith)) (b, refl)
  | yes p ↦ rw (round_wrap m fuel cnt p) (elim (Bool-cases (qp_taken 1 m)) [
    | inl t ↦ rw t (find_free_qp-QpEnd m fuel 2 (cnt + 1) (omega arith) (omega arith) (omega arith))
    | inr t ↦ rw t (omega arith, (omega arith, omega arith, t))
  ])
]
find_free_qp-QpEnd m (suc fuel) (suc n) cnt b c h = elim (dec_lt cnt 2) [
  | no over ↦ rw (round_over m fuel (suc n) cnt (omega arith)) (b, refl)
  | yes p ↦
      rw (round_next m fuel (suc n) cnt p (omega arith)) (elim (Bool-cases (qp_taken (suc n) m)) [
        | inl t ↦
            rw t
              (find_free_qp-QpEnd m fuel ((suc n + 1) % 65536) cnt (omega arith) c (ground arith))
        | inr t ↦ rw t (omega arith, (omega arith, b, t))
      ])
]

find_free_qp-QpFound :
    (m : Map CollectiveChannel) (q fuel next cnt : ℕ)
    → qp_taken q m ≡ false
    → q < 65536
    → 1 ≤ next
    → next ≤ q
    → cnt < 2
    → q < next + fuel
    → QpFound (find_free_qp m fuel next cnt)
find_free_qp-QpFound m q zero next cnt f b lo hi c h = absurd (omega arith)
find_free_qp-QpFound m q (suc fuel) next cnt f b lo hi c h =
    rw (round_next m fuel next cnt c lo) (elim (Bool-cases (qp_taken next m)) [
      | inl t ↦
          let other : next ≢ q = λ e. cc in
          let stays : next + 1 ≡ (next + 1) % 65536 = omega arith in
          rw t (
            subst (λ n. QpFound (find_free_qp m fuel n cnt)) stays
              (find_free_qp-QpFound m q fuel (next + 1) cnt f b (omega arith) (omega arith) c
                (omega arith)))
      | inr t ↦ rw t tt
    ])

-- From any counter, a free number is found: the first pass ends at 0, and the second meets it.
find_free_qp-QpFound_any :
    (m : Map CollectiveChannel) (q fuel next : ℕ)
    → qp_taken q m ≡ false
    → 1 ≤ q
    → q < 65536
    → next < 65536
    → (if ltb next 1 then 0 else 65536 - next) + q < fuel
    → QpFound (find_free_qp m fuel next 0)
find_free_qp-QpFound_any m q zero next f lo b c h = elim h [ ]
find_free_qp-QpFound_any m q (suc fuel) zero f lo b c h =
    rw (round_wrap m fuel 0 (omega arith)) (elim (Bool-cases (qp_taken 1 m)) [
      | inl t ↦
          let other : 1 ≢ q = λ e. cc in
          rw t (
            find_free_qp-QpFound m q fuel 2 1 f b (omega arith) (omega arith) (omega arith)
              (omega arith))
      | inr t ↦ rw t tt
    ])
find_free_qp-QpFound_any m q (suc fuel) (suc n) f lo b c h =
    rw (round_next m fuel (suc n) 0 (omega arith) (omega arith))
      (elim (Bool-cases (qp_taken (suc n) m)) [
        | inl t ↦ rw t (
            find_free_qp-QpFound_any m q fuel ((suc n + 1) % 65536) f lo b (omega arith)
              (ground arith))
        | inr t ↦ rw t tt
      ])

-- What `get_free_coll_qp_common` leaves and returns, or throws; never the end of the fuel.
abbrev pub QpReply : StateRepository → Option (StateRepository × Result ℕ) → Type 0
QpReply r none = ⊥
QpReply r (some (r', ok qp)) =
    (1 ≤ qp)
    × (qp < 65536)
    × Avoids (λ c. c.fabric_qp_common) qp r.channels
    × (r'.channels ≡ r.channels)
    × (r'.next_coll_qp_common < 65536)
QpReply r (some (r', err e)) =
    (e ≡ runtime_error)
    × ((q : ℕ) → 1 ≤ q → q < 65536 → qp_taken q r.channels ≡ true)
    × (r'.channels ≡ r.channels)

QpReply-of :
    (r : StateRepository) (o : Option (ℕ × Result ℕ))
    → QpEnd r.channels o
    → ((q : ℕ) → qp_taken q r.channels ≡ false → 1 ≤ q → q < 65536 → QpFound o)
    → QpReply r (elim o [
      | none ↦ none
      | some (next, result) ↦ some (record r { next_coll_qp_common = next }, result)
    ])
QpReply-of r none e f = e
QpReply-of r (some (next, ok qp)) e f =
    (e.1.0, e.1.1, qp_taken-Avoids qp r.channels e.1.2, refl, e.0)
QpReply-of r (some (next, err x)) e f = (
  e.1,
  (λ q lo hi. elim (Bool-cases (qp_taken q r.channels)) [
    | inl t ↦ t
    | inr t ↦ absurd (f q t lo hi)
  ]),
  refl,
)

pub get_free_coll_qp_common-QpReply :
    (r : StateRepository) → r.next_coll_qp_common < 65536 → QpReply r (get_free_coll_qp_common r)
unfolding get_free_coll_qp_common
get_free_coll_qp_common-QpReply r h =
    QpReply-of r (find_free_qp r.channels qp_fuel r.next_coll_qp_common 0)
      (find_free_qp-QpEnd r.channels qp_fuel r.next_coll_qp_common 0 h (omega arith) (ground arith))
      (λ q t lo hi.
        find_free_qp-QpFound_any r.channels q qp_fuel r.next_coll_qp_common t lo hi h
          (ground arith))

-- The answer of a search for a free aggregation unit from `from` on.
abbrev pub UnitReply : Map CollectiveChannel → ℕ → ℕ → Result ℕ → Type 0
UnitReply m from below (ok unit) =
    (from ≤ unit)
    × (unit < below)
    × (unit_taken unit m ≡ false)
    × ((u : ℕ) → from ≤ u → u < unit → unit_taken u m ≡ true)
UnitReply m from below (err e) =
    (e ≡ runtime_error) × ((u : ℕ) → from ≤ u → u < below → unit_taken u m ≡ true)

UnitReply-next :
    (m : Map CollectiveChannel) (from below : ℕ) (r : Result ℕ)
    → unit_taken from m ≡ true
    → UnitReply m (from + 1) below r
    → UnitReply m from below r
UnitReply-next m from below (ok unit) t h = (
  omega arith,
  h.1,
  h.2,
  λ u lo hi. elim (dec_lt from u) [
    | yes p ↦ h.3 u (omega arith) hi
    | no p ↦ let e : u ≡ from = omega arith in rw e t
  ],
)
UnitReply-next m from below (err x) t h = (
  h.0,
  λ u lo hi. elim (dec_lt from u) [
    | yes p ↦ h.1 u (omega arith) hi
    | no p ↦ let e : u ≡ from = omega arith in rw e t
  ],
)

find_free_unit-UnitReply :
    (m : Map CollectiveChannel) (left from below : ℕ)
    → from + left ≡ below
    → UnitReply m from below (find_free_unit m left from)
unfolding find_free_unit
find_free_unit-UnitReply m zero from below e = (refl, λ u lo hi. absurd (omega arith))
find_free_unit-UnitReply m (suc left) from below e = elim (Bool-cases (unit_taken from m)) [
  | inl t ↦ rw t (
      UnitReply-next m from below (find_free_unit m left (from + 1)) t
        (find_free_unit-UnitReply m left (from + 1) below (omega arith)))
  | inr t ↦ rw t (omega arith, omega arith, t, λ u lo hi. absurd (omega arith))
]

pub get_free_agg_unit-UnitReply :
    (r : StateRepository) → UnitReply r.channels 0 256 (get_free_agg_unit r)
unfolding get_free_agg_unit
get_free_agg_unit-UnitReply r = find_free_unit-UnitReply r.channels 256 0 256 refl

-- Some channel has the unit.
abbrev pub IsUsed : ℕ → Map CollectiveChannel → Type 0
IsUsed unit [] = ⊥
IsUsed unit ((t, c) ∷ m) = (c.agg_unit ≡ unit) ⊎ IsUsed unit m

unit_taken-IsUsed :
    (unit : ℕ) (m : Map CollectiveChannel) → unit_taken unit m ≡ true → IsUsed unit m
unfolding unit_taken
unit_taken-IsUsed unit [] h = cc
unit_taken-IsUsed unit ((t, c) ∷ m) h = elim (Bool-cases (c.agg_unit == unit)) [
  | inl e ↦ inl (==→eq c.agg_unit unit e)
  | inr e ↦ inr (unit_taken-IsUsed unit m (rw e at h))
]

-- What the search for a unit comes to.
abbrev pub UnitOutcome : Map CollectiveChannel → Result ℕ → Type 0
UnitOutcome m (ok unit) =
    (unit < 256) × Avoids (λ c. c.agg_unit) unit m × ((u : ℕ) → u < unit → IsUsed u m)
UnitOutcome m (err e) = (e ≡ runtime_error) × ((u : ℕ) → u < 256 → IsUsed u m)

UnitOutcome-of : (m : Map CollectiveChannel) (r : Result ℕ) → UnitReply m 0 256 r → UnitOutcome m r
UnitOutcome-of m (ok unit) h =
    (h.1, unit_taken-Avoids unit m h.2, λ u lt. unit_taken-IsUsed u m (h.3 u (omega arith) lt))
UnitOutcome-of m (err e) h = (h.0, λ u lt. unit_taken-IsUsed u m (h.1 u (omega arith) lt))

-- Get_free_agg_unit returns the least number below 256 that no channel has as its unit, or throws a
-- runtime error, and then each of them is the unit of some channel.
pub get_free_agg_unit-UnitOutcome :
    (r : StateRepository) → UnitOutcome r.channels (get_free_agg_unit r)
get_free_agg_unit-UnitOutcome r =
    UnitOutcome-of r.channels (get_free_agg_unit r) (get_free_agg_unit-UnitReply r)
