-- ===== src/AsicDriver/Served/Addresses.antt =====
-- The output address of each client of a channel.
use mpitofino.Prelude.{
  ℕ, ◌+◌, ◌/◌, ◌≡◌, ◌≢◌, ◌<◌, sym, subst, ◌∙◌, ◌⊎◌, inl, inr, Option, some, List, [], ◌∷◌, ltb, ok,
  bind-ok, All, All-append, Bool-cases, arith,
}
use mpitofino.Prelude.OrderedMap.{Map}
use mpitofino.SimpleTypes.{ip_word}
use mpitofino.StateRepository.{CollectiveChannel, Participant}
use mpitofino.AsicDriver.Tables.{
  Data, output_address, roce_ack_reflector, roce_ack_reflect, output_address_set,
}
use mpitofino.AsicDriver.Bitmaps.{Bitmap}
use mpitofino.AsicDriver.Plan.{
  Write, Bitmaps, bitmap_at, has_room, advance_at, in_front, participant_writes,
  insert_participants, recirc_pipe,
}
use mpitofino.AsicDriver.Programmed.{last_written}
use mpitofino.AsicDriver.Served.Written.{
  last_written-append, last_written-untouched, overwritten_other, overwritten_here,
}

-- The client at a position, the first one being at `first`.
abbrev pub HasClient : ℕ → Map Participant → ℕ → Participant → Type 0
HasClient first [] pos part = ⊥
HasClient first ((_, p) ∷ ps) pos part =
    ((first ≡ pos) × (p ≡ part)) ⊎ HasClient (first + 1) ps pos part

module _ (rc : CollectiveChannel) where
  abbrev pub address_of : Participant → Data
  address_of part = output_address_set rc.fabric_mac part.mac rc.fabric_ip part.ip part.local_qp

  -- The rest of a loop over the participants that returned.
  insert_participants-rest :
      (pos i : ℕ) (part : Participant) (bs : Bitmaps) (ps : Map Participant)
      (r : List Write × Bitmaps)
      → insert_participants rc pos bs ((i, part) ∷ ps) ≡ ok r
      → (r' : List Write × Bitmaps) × ((insert_participants rc
              (pos + 1)
              (advance_at (part.switch_port / 128) bs)
              ps
            ≡ ok r')
          × (r
              ≡ in_front
                  (participant_writes rc pos part (bitmap_at bs (part.switch_port / 128)))
                  r'))
  unfolding insert_participants
  insert_participants-rest pos i part bs ps r h =
      let pipe = part.switch_port / 128 in
      elim (Bool-cases (ltb pipe 4)) [
        | inr n ↦ cc (rw n at h)
        | inl y ↦ elim (Bool-cases (has_room bs pipe)) [
          | inr n ↦ cc (rw (y, n) at h)
          | inl z ↦
              let (r', (g, e)) =
                bind-ok (insert_participants rc (pos + 1) (advance_at pipe bs) ps) _ r
                  (rw (y, z) at h) in
              (r', (g, cc (e)))
        ]
      ]

  later_clients :
      (first pos unit : ℕ) (bs : Bitmaps) (ps : Map Participant) (r : List Write × Bitmaps)
      → pos < first
      → insert_participants rc first bs ps ≡ ok r
      → All (λ w. w.key ≢ output_address unit pos) r.0
  later_clients first pos unit bs [] r lt h =
      unfold insert_participants in
      let e : ([], bs) ≡ r = cc (h) in
      subst (λ p. All (λ w. w.key ≢ output_address unit pos) p.0) e tt
  later_clients first pos unit bs ((i, part) ∷ ps) r lt h =
      let b = bitmap_at bs (part.switch_port / 128) in
      let (r', (g, e)) = insert_participants-rest first i part bs ps r h in
      subst (λ p. All (λ w. w.key ≢ output_address unit pos) p.0) (sym e)
        (All-append (λ w. w.key ≢ output_address unit pos) (participant_writes rc first part b) r'.0
          (unfold participant_writes in
            (λ k. cc, (λ k. absurd (omega (arith, pos_inj k)), (λ k. cc, tt))))
          (later_clients (first + 1) pos unit (advance_at (part.switch_port / 128) bs) ps r'
            (omega arith) g))
    where
      pos_inj : output_address rc.agg_unit first ≡ output_address unit pos → first ≡ pos
      pos_inj k = cc

  -- The three writes for a client.
  last_written-participant_writes :
      (pos : ℕ) (part : Participant) (b : Bitmap) (old : Option Data)
      → last_written
          (participant_writes rc pos part b)
          (recirc_pipe (part.switch_port / 128))
          (output_address rc.agg_unit pos)
          old
        ≡ some (address_of part)
  unfolding last_written participant_writes
  last_written-participant_writes pos part b old =
      let pipe = part.switch_port / 128 in
      overwritten_other
        (record {
          pipe = pipe;
          key = roce_ack_reflector (ip_word part.ip) part.fabric_qp;
          value = roce_ack_reflect part.local_qp;
        })
        (recirc_pipe pipe) (output_address rc.agg_unit pos) _ (λ e. cc)
      ∙ overwritten_here
          (record {
            pipe = recirc_pipe pipe;
            key = output_address rc.agg_unit pos;
            value = address_of part;
          })
          _

  pub last_written-insert_participants :
      (first : ℕ) (bs : Bitmaps) (ps : Map Participant) (r : List Write × Bitmaps) (pos : ℕ)
      (part : Participant) (old : Option Data)
      → insert_participants rc first bs ps ≡ ok r
      → HasClient first ps pos part
      → last_written r.0 (recirc_pipe (part.switch_port / 128)) (output_address rc.agg_unit pos) old
        ≡ some (address_of part)
  last_written-insert_participants first bs [] r pos part old h o = absurd o
  last_written-insert_participants first bs ((i, p) ∷ ps) r pos part old h (inl o) =
      let pipe = p.switch_port / 128 in
      let ws = participant_writes rc first p (bitmap_at bs pipe) in
      let j = output_address rc.agg_unit first in
      let (r', (g, e)) = insert_participants-rest first i p bs ps r h in
      rw (← o.0, ← o.1, e)
        (last_written-append ws r'.0 (recirc_pipe pipe) j old
          ∙ last_written-untouched r'.0 (recirc_pipe pipe) j
              (last_written ws (recirc_pipe pipe) j old)
              (later_clients (first + 1) first rc.agg_unit (advance_at pipe bs) ps r' (omega arith)
                g)
          ∙ last_written-participant_writes first p (bitmap_at bs pipe) old)
  last_written-insert_participants first bs ((i, p) ∷ ps) r pos part old h (inr o) =
      let pipe = p.switch_port / 128 in
      let ws = participant_writes rc first p (bitmap_at bs pipe) in
      let j = output_address rc.agg_unit pos in
      let q = recirc_pipe (part.switch_port / 128) in
      let (r', (g, e)) = insert_participants-rest first i p bs ps r h in
      rw e (
        last_written-append ws r'.0 q j old
        ∙ last_written-insert_participants (first + 1) (advance_at pipe bs) ps r' pos part
            (last_written ws q j old) g o)
