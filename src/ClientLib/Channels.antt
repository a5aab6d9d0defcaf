-- ===== src/ClientLib/Channels.antt =====
-- `AggregationGroup::get_channel` of client_lib/mpitofino.cc: the channels of a group, each with a queue
-- pair at the HCA, and their request at the node daemon.
pub mod Laws
use mpitofino.Prelude.{
  ℕ, ◌≡◌, ◌==◌, Bool, true, false, Option, none, some, List, [], ◌∷◌, Result, ok, err, ◌>>=◌, ◌>>◌,
  require, or_throw, runtime_error,
}
use mpitofino.Prelude.OrderedMap.{Map, find, insert, erase, assign}
use mpitofino.NodeDaemon.{ClientGetChannel, ClientResponse}

pub data QpState : Type 0 where
  reset init ready_to_receive ready_to_send : QpState

-- `ibv_qp`, with the attributes that were set: the index of the own address, and the peer's address and
-- queue pair.
pub record QueuePair : Type 0 where
  pub qp_num : ℕ
  pub state : QpState
  pub sgid_index : ℕ
  pub peer_ip : ℕ
  pub dest_qp_num : ℕ

pub record ClientChannel : Type 0 where
  pub qp : QueuePair
  pub fabric_ip : ℕ
  pub fabric_qp : ℕ

-- What the verbs library, the kernel and the node daemon answer to the calls: handles that may be null,
-- return codes, and the response or what is thrown at its reception. `ibv_modify_qp` gets the wanted
-- queue pair; it returns its code and what the queue pair is then.
pub record Answers : Type 0 where
  pub pd_allocated : Bool
  pub mr_registered : Bool
  pub cq_created : Bool
  pub qp_created : Option ℕ
  pub to_init : QueuePair → ℕ × QueuePair
  pub sent : Result (Unit {0})
  pub response : Result ClientResponse
  pub to_rtr : QueuePair → ℕ × QueuePair
  pub to_rts : QueuePair → ℕ × QueuePair

-- `requests` records the messages to the node daemon, the latest first.
pub record AggregationGroup : Type 0 where
  pub client_id : ℕ
  pub ib_gid : ℕ
  pub client_ids : List ℕ
  pub channels : Map ClientChannel
  pub requests : List ClientGetChannel

abbrev pub setup_ib_pd : Answers → Result (Unit {0})
setup_ib_pd a = require a.pd_allocated runtime_error >> require a.mr_registered runtime_error

-- Completion queue, queue pair, and its transition to Init.
unfoldable pub setup_ib_qp : Answers → Result QueuePair
setup_ib_qp a =
    require a.cq_created runtime_error
    >> (or_throw a.qp_created runtime_error >>= λ num.
        let qp : QueuePair = record {
          qp_num = num;
          state = reset;
          sgid_index = 0;
          peer_ip = 0;
          dest_qp_num = 0;
        } in
        let r = a.to_init (record qp { state = init }) in
        require (r.0 == 0) runtime_error >> ok r.1)

-- The constructor.
unfoldable pub construct_channel : Answers → Result ClientChannel
construct_channel a =
    setup_ib_pd a >> (setup_ib_qp a >>= λ qp. ok (record { qp = qp; fabric_ip = 0; fabric_qp = 0 }))

unfoldable pub finalize_qp : ℕ → Answers → ClientChannel → Result ClientChannel
finalize_qp ib_gid a ch =
    let r1 = a.to_rtr (record ch.qp {
      state = ready_to_receive;
      sgid_index = ib_gid;
      peer_ip = ch.fabric_ip;
      dest_qp_num = ch.fabric_qp;
    }) in
    require (r1.0 == 0) runtime_error
    >> (let r2 = a.to_rts (record r1.1 { state = ready_to_send }) in
        require (r2.0 == 0) runtime_error >> ok (record ch { qp = r2.1 }))

-- `ALLREDUCE_INT32` is 0.
abbrev pub channel_request : AggregationGroup → ℕ → ClientChannel → ClientGetChannel
channel_request g tag ch = record {
  agg_group_client_ids = g.client_ids;
  client_id = g.client_id;
  type = 0;
  tag = tag;
  local_qp = ch.qp.qp_num;
}

-- The rest of the `try` block, from the response on.
unfoldable pub connect_channel : ℕ → Answers → ClientChannel → Result ClientChannel
connect_channel ib_gid a ch = a.response >>= λ r.
    finalize_qp ib_gid a (record ch { fabric_ip = r.fabric_ip; fabric_qp = r.fabric_qp })

-- The end of the `try` block: the channel was written in place, or it is erased.
abbrev pub settled :
    AggregationGroup → ℕ → Result ClientChannel → AggregationGroup × Result ClientChannel
settled g tag (ok ch) = (record g { channels = assign tag ch g.channels }, ok ch)
settled g tag (err e) = (record g { channels = erase tag g.channels }, err e)

-- The `try` block. The group with the outcome, since it outlives an exception.
abbrev pub request_channel :
    AggregationGroup
    → ℕ
    → Answers
    → ClientChannel
    → Result (Unit {0})
    → AggregationGroup × Result ClientChannel
request_channel g tag a ch (err e) = settled g tag (err e)
request_channel g tag a ch (ok sent) =
    settled (record g { requests = channel_request g tag ch ∷ g.requests }) tag
      (connect_channel g.ib_gid a ch)

-- `try_emplace` inserts nothing if the constructor throws.
abbrev pub emplaced :
    AggregationGroup → ℕ → Answers → Result ClientChannel → AggregationGroup × Result ClientChannel
emplaced g tag a (err e) = (g, err e)
emplaced g tag a (ok ch) =
    request_channel (record g { channels = insert tag ch g.channels }) tag a ch a.sent

abbrev pub cached_or_new :
    AggregationGroup → ℕ → Answers → Option ClientChannel → AggregationGroup × Result ClientChannel
cached_or_new g tag a (some ch) = (g, ok ch)
cached_or_new g tag a none = emplaced g tag a (construct_channel a)

unfoldable pub get_channel :
    AggregationGroup → ℕ → Answers → AggregationGroup × Result ClientChannel
get_channel g tag a = cached_or_new g tag a (find tag g.channels)
