-- ===== src/StateRepository/Channels.antt =====
-- What the operations on channels do to the repository: its numbers stay apart, and each change is
-- announced to every subscriber once.
use mathlib.Core.List.{reverse, reverse-cons, append_assoc}
use mpitofino.Prelude.{
  ℕ, ◌≤◌, ◌<◌, ◌≡◌, inl, inr, refl, sym, ap, ◌∙◌, some, List, [], ◌∷◌, ◌++◌, ltb, ◌==◌, Bool-cases,
  ==→eq,
}
use mpitofino.Prelude.OrderedMap.{
  some-inj, place, Map, find, contains, insert, erase, assign, AllValues, Avoids, Distinct,
  Distinct-place, Distinct-erase, Distinct-assign, AllValues-place, AllValues-erase,
  AllValues-assign, AllValues-find,
}
use mpitofino.StateRepository.{StateRepository, CollectiveChannel, Participant, run_subscribers}

-- `notify_subscribers` runs every callback once, in the order of subscription.
pub run_subscribers-reverse : (l log : List ℕ) → run_subscribers l log ≡ reverse l ++ log
unfolding run_subscribers
run_subscribers-reverse [] log = refl
run_subscribers-reverse (s ∷ l) log =
    run_subscribers-reverse l (s ∷ log)
    ∙ sym (rw (reverse-cons s l) (append_assoc (reverse l) (s ∷ []) log))

-- No two channels share an aggregation unit or the common part of a queue pair, and all are in range.
pub record IsConsistent (m : Map CollectiveChannel) : Type 0 where
  pub units : Distinct (λ c. c.agg_unit) m
  pub qps : Distinct (λ c. c.fabric_qp_common) m
  pub unit_range : AllValues (λ c. c.agg_unit < 256) m
  pub qp_range : AllValues (λ c. (1 ≤ c.fabric_qp_common) × (c.fabric_qp_common < 65536)) m

-- A channel under a new tag, with numbers that no other channel has.
pub insert-IsConsistent :
    (m : Map CollectiveChannel) (tag : ℕ) (c : CollectiveChannel)
    → IsConsistent m
    → Avoids (λ d. d.agg_unit) c.agg_unit m
    → Avoids (λ d. d.fabric_qp_common) c.fabric_qp_common m
    → c.agg_unit < 256
    → 1 ≤ c.fabric_qp_common
    → c.fabric_qp_common < 65536
    → IsConsistent (insert tag c m)
unfolding insert
insert-IsConsistent m tag c v au aq u lo hi = elim (Bool-cases (contains tag m)) [
  | inl e ↦ rw e v
  | inr e ↦ rw e (record {
    units = Distinct-place (λ d. d.agg_unit) tag c m au v.units;
    qps = Distinct-place (λ d. d.fabric_qp_common) tag c m aq v.qps;
    unit_range = AllValues-place (λ d. d.agg_unit < 256) tag c m u v.unit_range;
    qp_range =
        AllValues-place (λ d. (1 ≤ d.fabric_qp_common) × (d.fabric_qp_common < 65536)) tag c m
          (lo, hi) v.qp_range;
  })
]

pub erase-IsConsistent :
    (m : Map CollectiveChannel) (tag : ℕ) → IsConsistent m → IsConsistent (erase tag m)
erase-IsConsistent m tag v = record {
  units = Distinct-erase (λ d. d.agg_unit) tag m v.units;
  qps = Distinct-erase (λ d. d.fabric_qp_common) tag m v.qps;
  unit_range = AllValues-erase (λ d. d.agg_unit < 256) tag m v.unit_range;
  qp_range =
      AllValues-erase (λ d. (1 ≤ d.fabric_qp_common) × (d.fabric_qp_common < 65536)) tag m
        v.qp_range;
}

-- New participants for a channel that keeps its numbers.
pub assign-IsConsistent :
    (m : Map CollectiveChannel) (tag : ℕ) (c : CollectiveChannel) (ps : Map Participant)
    → find tag m ≡ some c
    → IsConsistent m
    → IsConsistent (assign tag (record c { participants = ps }) m)
assign-IsConsistent m tag c ps e v = record {
  units = Distinct-assign (λ d. d.agg_unit) tag _ c m e refl v.units;
  qps = Distinct-assign (λ d. d.fabric_qp_common) tag _ c m e refl v.qps;
  unit_range =
      AllValues-assign (λ d. d.agg_unit < 256) tag _ m (AllValues-find _ tag m c v.unit_range e)
        v.unit_range;
  qp_range =
      AllValues-assign (λ d. (1 ≤ d.fabric_qp_common) × (d.fabric_qp_common < 65536)) tag _ m
        (AllValues-find (λ d. (1 ≤ d.fabric_qp_common) × (d.fabric_qp_common < 65536)) tag m c
          v.qp_range e)
        v.qp_range;
}

-- Every channel stands under its own tag.
abbrev pub IsKeyed : Map CollectiveChannel → Type 0
IsKeyed [] = Unit
IsKeyed ((k, c) ∷ m) = (c.tag ≡ k) × IsKeyed m

IsKeyed-place :
    (k : ℕ) (c : CollectiveChannel) (m : Map CollectiveChannel)
    → c.tag ≡ k
    → IsKeyed m
    → IsKeyed (place k c m)
unfolding place
IsKeyed-place k c [] e h = (e, tt)
IsKeyed-place k c ((j, d) ∷ m) e h = elim (Bool-cases (ltb k j)) [
  | inl t ↦ rw t (e, h)
  | inr t ↦ rw t (h.0, IsKeyed-place k c m e h.1)
]

pub IsKeyed-insert :
    (c : CollectiveChannel) (m : Map CollectiveChannel) → IsKeyed m → IsKeyed (insert c.tag c m)
unfolding insert
IsKeyed-insert c m h = elim (Bool-cases (contains c.tag m)) [
  | inl t ↦ rw t h
  | inr t ↦ rw t (IsKeyed-place c.tag c m refl h)
]

pub IsKeyed-erase : (k : ℕ) (m : Map CollectiveChannel) → IsKeyed m → IsKeyed (erase k m)
unfolding erase
IsKeyed-erase k [] h = tt
IsKeyed-erase k ((j, d) ∷ m) h = elim (Bool-cases (j == k)) [
  | inl t ↦ rw t (IsKeyed-erase k m h.1)
  | inr t ↦ rw t (h.0, IsKeyed-erase k m h.1)
]

pub IsKeyed-assign :
    (k : ℕ) (c : CollectiveChannel) (m : Map CollectiveChannel)
    → c.tag ≡ k
    → IsKeyed m
    → IsKeyed (assign k c m)
unfolding assign
IsKeyed-assign k c [] e h = tt
IsKeyed-assign k c ((j, d) ∷ m) e h = elim (Bool-cases (j == k)) [
  | inl t ↦ rw t (e ∙ sym (==→eq j k t), h.1)
  | inr t ↦ rw t (h.0, IsKeyed-assign k c m e h.1)
]

pub IsKeyed-find :
    (k : ℕ) (c : CollectiveChannel) (m : Map CollectiveChannel)
    → IsKeyed m
    → find k m ≡ some c
    → c.tag ≡ k
unfolding find
IsKeyed-find k c [] h e = cc
IsKeyed-find k c ((j, d) ∷ m) h e = elim (Bool-cases (j == k)) [
  | inl t ↦ ap (λ x. x.tag) (sym (some-inj (rw t at e))) ∙ h.0 ∙ ==→eq j k t
  | inr t ↦ IsKeyed-find k c m h.1 (rw t at e)
]

-- What holds of a repository at all times.
pub record IsValid (r : StateRepository) : Type 0 where
  pub consistent : IsConsistent r.channels
  pub keyed : IsKeyed r.channels
  pub counter : r.next_coll_qp_common < 65536
