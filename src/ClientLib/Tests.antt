-- ===== src/ClientLib/Tests.antt =====
-- The client library on small buffers.
use mpitofino.ClientLib.Device.Laws.{Chosen, choose_gid-Chosen}
use mpitofino.ClientLib.Device.{
  GidTable, is_xdigit, gid_prefix, roce, v2, after_prefix, four_hex, is_ipv4_gid, choose_gid_from,
  choose_gid,
}
use mpitofino.Prelude.{
  ◌≡◌, refl, true, none, some, ok, inl, inr, List, [], ◌∷◌, ◌++◌, ltb, ◌==◌, if◌then◌else◌, ℕ,
  Returns, arith, ◌<◌, ◌≤◌,
}
use mpitofino.ClientLib.Endianess.{swap_word, Words, convert_endianess_32}
use mpitofino.ClientLib.Endianess.Laws.{
  IsSwapped, write_end, convert_endianess_32-IsSwapped, convert_endianess_32-overrun,
}
use mpitofino.Prelude.OrderedMap.{find}
use mpitofino.ClientLib.Channels.{Answers, AggregationGroup, get_channel}
use mpitofino.ClientLib.Channels.Laws.{ModifiesQp, AllConnected, Got, get_channel-Got}
use mpitofino.ClientLib.Allreduce.{
  Completion, initial, allreduce, fill_ring, post_chunk, process_completion, process_completions,
  complete_send, complete_recv, dequeue,
}
use mpitofino.ClientLib.Allreduce.Counting.{count}
use mpitofino.ClientLib.Allreduce.Exchange.{AllPollsDue, Ends, Finished, allreduce-Finished}

abbrev numbers : Words
numbers i = 1

abbrev zeros : Words
zeros i = 0

swapped : swap_word 0x01020304 ≡ 0x04030201
unfolding swap_word
swapped = refl

convert_endianess_32-IsSwapped_example :
    Returns
      (λ out.
        ((j : ℕ) → j < write_end 28 11 → IsSwapped (numbers j) (out j))
        × ((j : ℕ) → write_end 28 11 ≤ j → out j ≡ zeros j))
      (convert_endianess_32 numbers 4 28 11 zeros)
convert_endianess_32-IsSwapped_example =
    convert_endianess_32-IsSwapped numbers zeros 4 28 11 refl refl

-- Three words at an aligned address: the fourth is written too.
convert_endianess_32-overrun_example :
    Returns (λ out. out 3 ≡ swap_word 1) (convert_endianess_32 numbers 0 64 3 zeros)
convert_endianess_32-overrun_example =
    convert_endianess_32-overrun numbers zeros 0 64 3 refl refl (omega arith)

abbrev receipt : Completion
receipt = record { wr_id = 0x100000001; success = true; byte_len = 16384 }

abbrev sending : Completion
sending = record { wr_id = 0x200000001; success = true; byte_len = 0 }

-- One chunk: a poll without a completion, then both in one poll.
abbrev polls : List (List Completion)
polls = [] ∷ (receipt ∷ sending ∷ []) ∷ []

polls-AllPollsDue : AllPollsDue 40 initial polls
unfolding fill_ring post_chunk process_completions process_completion complete_send complete_recv
    count dequeue
polls-AllPollsDue = (
  tt,
  (
    (
      (1, omega arith, refl, inr (refl, refl, omega arith)),
      ((1, omega arith, refl, inl (refl, omega arith)), tt),
    ),
    tt,
  ),
)

allreduce-Finished_example : Ends (Finished 40) (allreduce 10 1 polls)
allreduce-Finished_example =
    allreduce-Finished 10 polls (omega arith) polls-AllPollsDue (omega arith)

abbrev answers : Answers
answers = record {
  pd_allocated = true;
  mr_registered = true;
  cq_created = true;
  qp_created = some 77;
  to_init = λ qp. (0, qp);
  sent = ok tt;
  response = ok (record { fabric_ip = 3232235777; fabric_qp = 257 });
  to_rtr = λ qp. (0, qp);
  to_rts = λ qp. (0, qp);
}

abbrev group : AggregationGroup
group = record { client_id = 2; ib_gid = 3; client_ids = 2 ∷ 5 ∷ []; channels = []; requests = [] }

group-AllConnected : AllConnected group
unfolding find
group-AllConnected tag ch e = absurd (nothing e)
  where
    nothing : none ≡ some ch → ⊥
    nothing q = cc

answers-ModifiesQp : ModifiesQp answers
answers-ModifiesQp = record { rtr = λ qp e. refl; rts = λ qp e. refl }

get_channel-Got_example : Got group 9 (get_channel group 9 answers)
get_channel-Got_example = get_channel-Got group 9 answers answers-ModifiesQp group-AllConnected

-- An address for RoCE v1 at the index 2, and one for RoCE v2 at the index 3.
abbrev gid_10_0_0_7 : List ℕ
gid_10_0_0_7 = gid_prefix ++ 48 ∷ 97 ∷ 48 ∷ 48 ∷ 58 ∷ 48 ∷ 48 ∷ 48 ∷ 55 ∷ []

abbrev gid_table : GidTable
gid_table = record {
  gid = λ i. if ltb i 2 then none else if ltb i 4 then some gid_10_0_0_7 else none;
  type = λ i. if i == 3 then (roce, v2) else (roce, []);
}

gid_table_lem : choose_gid gid_table ≡ ok 3
unfolding choose_gid choose_gid_from is_ipv4_gid after_prefix four_hex is_xdigit
gid_table_lem = refl

choose_gid-Chosen_example : Chosen gid_table (choose_gid gid_table)
choose_gid-Chosen_example = choose_gid-Chosen gid_table
