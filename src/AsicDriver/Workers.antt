-- ===== src/AsicDriver/Workers.antt =====
-- The loop of `on_st_repo_channels` over the participants: how many workers each pipe gets.
use mpitofino.Prelude.{
  ℕ, zero, suc, ◌+◌, ◌/◌, ◌≡◌, ◌≢◌, ◌≤◌, ◌<◌, refl, sym, ap, ◌∙◌, subst, [], ◌∷◌, ltb, ltb→lt,
  lt→ltb, ◌==◌, ==→eq, if◌then◌else◌, length, length-set, get_or-set_self, get_or-set_ne, ok, err,
  ◌>>=◌, runtime_error, Returns, Returns-bind, All, All-append, Bool-cases, inl, inr, arith,
}
use mpitofino.Prelude.OrderedMap.{Map, AllValues}
use mpitofino.StateRepository.{CollectiveChannel, Participant}
use mpitofino.AsicDriver.Tables.{register_table, table_of}
use mpitofino.AsicDriver.Bitmaps.{
  Bitmap, first_bitmap, advance, bitmap_after, full_high-ltb, full_high-ltb_reserved,
}
use mpitofino.AsicDriver.Plan.{
  Write, Bitmaps, bitmap_at, first_bitmaps, advance_at, has_room, in_front, participant_writes,
  insert_participants,
}

-- A client's port is one of the four pipes'.
abbrev pub OnSwitch : Map Participant → Type 0
OnSwitch = AllValues (λ (part : Participant). part.switch_port < 512)

-- The clients of a pipe.
unfoldable pub workers : ℕ → Map Participant → ℕ
workers pipe [] = 0
workers pipe ((_, part) ∷ ps) =
    let rest = workers pipe ps in if part.switch_port / 128 == pipe then suc rest else rest

-- On pipe 3, three more workers stand for the other pipes.
abbrev pub limit : ℕ → ℕ
limit pipe = if pipe == 3 then 61 else 64

-- A write to a table, not to a register.
abbrev pub Tabular : Write → Type 0
Tabular w = table_of w.key ≢ register_table

-- The four bitmaps of pipes with so many workers.
pub record Counts (bs : Bitmaps) (count : ℕ → ℕ) : Type 0 where
  pub size : length bs ≡ 4
  pub bitmaps : (pipe : ℕ) → pipe < 4 → bitmap_at bs pipe ≡ bitmap_after (count pipe)
  pub limited : (pipe : ℕ) → pipe < 4 → count pipe ≤ limit pipe

-- One worker more on a pipe.
abbrev pub counted : ℕ → (ℕ → ℕ) → ℕ → ℕ
counted pipe count q = if pipe == q then suc (count q) else count q

module _ (bs : Bitmaps) (count : ℕ → ℕ) (h : Counts bs count) (pipe : ℕ) (lt : pipe < 4) where
  count-le : count pipe ≤ 64
  count-le = ground (arith, h.limited pipe lt)

  has_room-ltb : has_room bs pipe ≡ ltb (count pipe) (limit pipe)
  has_room-ltb = elim (Bool-cases (pipe == 3)) [
    | inl e ↦ rw (h.bitmaps pipe lt, e) (full_high-ltb_reserved (count pipe) count-le)
    | inr e ↦ rw (h.bitmaps pipe lt, e) (full_high-ltb (count pipe) count-le)
  ]

  bitmap_at-advance_at :
      (q : ℕ) → q < 4 → bitmap_at (advance_at pipe bs) q ≡ bitmap_after (counted pipe count q)
  unfolding bitmap_after
  bitmap_at-advance_at q lq = elim (Bool-cases (pipe == q)) [
    | inl e ↦
        rw (e, sym (==→eq pipe q e))
          (get_or-set_self bs pipe (advance (bitmap_at bs pipe)) first_bitmap (rw h.size lt)
            ∙ ap advance (h.bitmaps pipe lt))
    | inr e ↦ rw e (
        get_or-set_ne bs pipe q (advance (bitmap_at bs pipe)) first_bitmap (λ p. ground arith)
        ∙ h.bitmaps q lq)
  ]

  pub Counts-advance_at : count pipe < limit pipe → Counts (advance_at pipe bs) (counted pipe count)
  Counts-advance_at room = record {
    size = length-set bs pipe (advance (bitmap_at bs pipe)) ∙ h.size;
    bitmaps = bitmap_at-advance_at;
    limited = λ q lq. within q lq;
  }
    where
      within : (q : ℕ) → q < 4 → counted pipe count q ≤ limit q
      within q lq = elim (Bool-cases (pipe == q)) [
        | inl e ↦ rw (e, sym (==→eq pipe q e)) (omega arith)
        | inr e ↦ rw e (h.limited q lq)
      ]

Counts-eq :
    (bs : Bitmaps) (count other : ℕ → ℕ)
    → ((q : ℕ) → count q ≡ other q)
    → Counts bs count
    → Counts bs other
Counts-eq bs count other e h = record {
  size = h.size;
  bitmaps = λ q lq. h.bitmaps q lq ∙ ap bitmap_after (e q);
  limited = λ q lq. subst (λ n. n ≤ limit q) (e q) (h.limited q lq);
}

-- The first client counts for its pipe.
pub counted-workers :
    (count : ℕ → ℕ) (i : ℕ) (part : Participant) (ps : Map Participant) (q : ℕ)
    → counted (part.switch_port / 128) count q + workers q ps ≡ count q + workers q ((i, part) ∷ ps)
unfolding workers
counted-workers count i part ps q = ground arith

pub no_workers : (q : ℕ) → workers q [] ≡ 0
unfolding workers
no_workers q = refl

pub room_left :
    (count : ℕ → ℕ) (i : ℕ) (part : Participant) (ps : Map Participant) {n : ℕ}
    → count (part.switch_port / 128) + workers (part.switch_port / 128) ((i, part) ∷ ps) ≤ n
    → count (part.switch_port / 128) < n
unfolding workers
room_left count i part ps h = ground arith

pub pipe-lt : (port : ℕ) → port < 512 → port / 128 < 4
pipe-lt port h = omega arith

pub first_bitmaps-Counts : Counts first_bitmaps (λ q. 0)
unfolding bitmap_after
first_bitmaps-Counts = record {
  size = refl;
  bitmaps = λ q lq. each q lq;
  limited = λ q lq. omega arith;
}
  where
    each : (q : ℕ) → q < 4 → bitmap_at first_bitmaps q ≡ first_bitmap
    each zero lq = refl
    each (suc zero) lq = refl
    each (suc (suc zero)) lq = refl
    each (suc (suc (suc zero))) lq = refl
    each (suc (suc (suc (suc q)))) lq = absurd (omega arith)

module _ (rc : CollectiveChannel) where
  All-participant_writes :
      (pos : ℕ) (part : Participant) (b : Bitmap) → All Tabular (participant_writes rc pos part b)
  unfolding participant_writes
  All-participant_writes pos part b = ((λ e. cc), ((λ e. cc), ((λ e. cc), tt)))

  -- A round of the loop that has a bit left for its client.
  pub insert_participants-client :
      (pos : ℕ) (bs : Bitmaps) (count : ℕ → ℕ) (i : ℕ) (part : Participant) (ps : Map Participant)
      → Counts bs count
      → part.switch_port < 512
      → count (part.switch_port / 128) < limit (part.switch_port / 128)
      → insert_participants rc pos bs ((i, part) ∷ ps) ≡ (
          insert_participants rc (pos + 1) (advance_at (part.switch_port / 128) bs) ps >>= λ r.
          ok (in_front (participant_writes rc pos part (bitmap_at bs (part.switch_port / 128))) r))
  unfolding insert_participants
  insert_participants-client pos bs count i part ps h on room =
      let pipe = part.switch_port / 128 in
      let lt : pipe < 4 = pipe-lt part.switch_port on in
      rw (lt→ltb pipe 4 lt, has_room-ltb bs count h pipe lt, lt→ltb _ _ room) refl

  -- The loop returns, with the workers counted, as long as no pipe has too many of them.
  pub insert_participants-Counts :
      (pos : ℕ) (bs : Bitmaps) (count : ℕ → ℕ) (ps : Map Participant)
      → Counts bs count
      → OnSwitch ps
      → ((q : ℕ) → q < 4 → count q + workers q ps ≤ limit q)
      → Returns
          (λ r. Counts r.1 (λ q. count q + workers q ps) × All Tabular r.0)
          (insert_participants rc pos bs ps)
  unfolding insert_participants
  insert_participants-Counts pos bs count [] h on few =
      (Counts-eq bs count _ (λ q. omega (arith, no_workers q)) h, tt)
  insert_participants-Counts pos bs count ((i, part) ∷ ps) h on few =
      let pipe = part.switch_port / 128 in
      let lt : pipe < 4 = pipe-lt part.switch_port on.0 in
      let room : count pipe < limit pipe = room_left count i part ps (few pipe lt) in
      rw (insert_participants-client pos bs count i part ps h on.0 room) (
        Returns-bind (λ r. Counts r.1 (λ q. counted pipe count q + workers q ps) × All Tabular r.0)
          (λ r. Counts r.1 (λ q. count q + workers q ((i, part) ∷ ps)) × All Tabular r.0) _ _
          (insert_participants-Counts (pos + 1) (advance_at pipe bs) (counted pipe count) ps
            (Counts-advance_at bs count h pipe lt room) on.1
            (λ q lq. omega (arith, few q lq, counted-workers count i part ps q)))
          (λ r g. (
            Counts-eq r.1 _ _ (counted-workers count i part ps) g.0,
            All-append Tabular (participant_writes rc pos part (bitmap_at bs pipe)) r.0
                (All-participant_writes pos part (bitmap_at bs pipe)) g.1,
          )))

  -- With too many of them on some pipe, it throws.
  pub insert_participants-runtime_error :
      (pos : ℕ) (bs : Bitmaps) (count : ℕ → ℕ) (ps : Map Participant) (q : ℕ)
      → Counts bs count
      → OnSwitch ps
      → q < 4
      → limit q < count q + workers q ps
      → insert_participants rc pos bs ps ≡ err runtime_error
  unfolding insert_participants
  insert_participants-runtime_error pos bs count [] q h on lq many =
      absurd (omega (arith, h.limited q lq, no_workers q))
  insert_participants-runtime_error pos bs count ((i, part) ∷ ps) q h on lq many =
      let pipe = part.switch_port / 128 in
      let lt : pipe < 4 = pipe-lt part.switch_port on.0 in
      elim (Bool-cases (ltb (count pipe) (limit pipe))) [
        | inr full ↦ rw (lt→ltb pipe 4 lt, has_room-ltb bs count h pipe lt, full) refl
        | inl room ↦
            rw (insert_participants-client pos bs count i part ps h on.0 (ltb→lt _ _ room)) (
              rw
                (insert_participants-runtime_error (pos + 1) (advance_at pipe bs)
                  (counted pipe count) ps q (Counts-advance_at bs count h pipe lt (ltb→lt _ _ room))
                  on.1 lq (omega (arith, many, counted-workers count i part ps q)))
                refl)
      ]
