-- ===== src/Agent/Runs.antt =====
-- The agent in its event loop: what holds after any sequence of events.
use mpitofino.Prelude.{
  ℕ, ◌≡◌, refl, sym, subst, arith, Bool, true, false, List, [], ◌∷◌, if◌then◌else◌, Result, ok,
  ◌>>=◌, IfReturns, IfReturns-bind, IfReturns-of_Returns, Option-cases, inl, inr,
}
use mpitofino.Prelude.OrderedMap.{contains}
use mpitofino.StateRepository.{StateRepository}
use mpitofino.StateRepository.Channels.{IsConsistent, IsKeyed}
use mpitofino.Agent.{
  Agent, NdRequest, get_channel_request, unref_channel_request, not_set, Received, not_readable,
  end_of_stream, message, on_request, on_client_fd, on_new_client, disconnect,
  on_client_unref_channel, find_client, owners,
}
use mpitofino.Agent.Invariant.{
  IsSound, disconnect-IsSound, on_client_unref_channel-IsSound, on_new_client-IsSound,
}
use mpitofino.Agent.Requests.{on_client_get_channel-IsSound}

-- What `Epoll` reports to the agent: a connection to accept, or an event on a client's socket.
pub data Event : Type 0 where
  new_client : ℕ → Event
  client_fd : ℕ → Bool → Received → Event

unfoldable pub step : Agent → Event → Result Agent
step a (new_client ptr) = ok (on_new_client a ptr)
step a (client_fd client hangup received) = on_client_fd a client hangup received

unfoldable pub run : Agent → List Event → Result Agent
run a [] = ok a
run a (e ∷ es) = step a e >>= λ b. run b es

abbrev pub initial : StateRepository → Agent
initial r = record { st_repo = r; clients = []; pending_get_channel_responses = []; sent = [] }

on_request-IsSound :
    (a : Agent) (client : ℕ) (msg : NdRequest)
    → IsSound a
    → IfReturns IsSound (on_request a client msg)
unfolding on_request
on_request-IsSound a client (get_channel_request msg) s =
    on_client_get_channel-IsSound a client msg s
on_request-IsSound a client (unref_channel_request tag) s =
    elim (Option-cases (find_client client a.clients)) [
      | inl e ↦ unfold on_client_unref_channel in rw e tt
      | inr (c, f) ↦
          IfReturns-of_Returns IsSound IsSound _
            (on_client_unref_channel-IsSound a client tag c s f) (λ b h. h)
    ]
on_request-IsSound a client not_set s = tt

disconnect_if :
    (hangup : Bool) (a : Agent) (client : ℕ)
    → IsSound a
    → IfReturns IsSound (if hangup then disconnect a client else ok a)
disconnect_if true a client s =
    IfReturns-of_Returns IsSound IsSound (disconnect a client) (disconnect-IsSound a client s)
      (λ b h. h)
disconnect_if false a client s = s

on_client_fd-IsSound :
    (a : Agent) (client : ℕ) (hangup : Bool) (received : Received)
    → IsSound a
    → IfReturns IsSound (on_client_fd a client hangup received)
unfolding on_client_fd
on_client_fd-IsSound a client hangup not_readable s = disconnect_if hangup a client s
on_client_fd-IsSound a client hangup end_of_stream s = disconnect_if true a client s
on_client_fd-IsSound a client hangup (message msg) s =
    IfReturns-bind IsSound IsSound (on_request a client msg) _ (on_request-IsSound a client msg s)
      (λ b h. disconnect_if hangup b client h)

step-IsSound : (a : Agent) (e : Event) → IsSound a → IfReturns IsSound (step a e)
unfolding step
step-IsSound a (new_client ptr) s = on_new_client-IsSound a ptr s
step-IsSound a (client_fd client hangup received) s =
    on_client_fd-IsSound a client hangup received s

-- From a sound agent, any sequence of events that throws nothing leads to a sound agent: each channel in the
-- repository has an owner among the connected clients, each owned channel is in the repository, and
-- no two channels share an aggregation unit or a queue pair.
pub run-IsSound : (a : Agent) (es : List Event) → IsSound a → IfReturns IsSound (run a es)
unfolding run
run-IsSound a [] s = s
run-IsSound a (e ∷ es) s =
    IfReturns-bind IsSound IsSound (step a e) (λ b. run b es) (step-IsSound a e s)
      (λ b h. run-IsSound b es h)

pub initial-IsSound :
    (r : StateRepository) → r.channels ≡ [] → r.next_coll_qp_common ≡ 0 → IsSound (initial r)
unfolding owners contains
initial-IsSound r e n = record {
  valid = record {
    consistent =
        subst IsConsistent (sym e)
          (record { units = tt; qps = tt; unit_range = tt; qp_range = tt });
    keyed = subst IsKeyed (sym e) tt;
    counter = omega (arith, n);
  };
  owned = λ j. rw e refl;
  unique = tt;
}
