-- ===== src/NodeDaemon/Lifetime.antt =====
-- The node daemon from its constructor on.
use mpitofino.Prelude.{
  ℕ, ◌≡◌, refl, sym, ◌∙◌, ap, subst, Bool, true, false, Option, some, List, ok, ◌>>◌, require,
  IfReturns, bind-ok, system_error,
}
use mpitofino.Prelude.OrderedMap.{contains}
use mpitofino.SimpleTypes.{MacAddr, mac_zero, is_0000}
use mpitofino.UnixSockets.{UnixSockets}
use mpitofino.NodeDaemon.{NodeDaemon, ClientResponse, response, response_key, on_switch_fd}
use mpitofino.NodeDaemon.ServiceSocket.{open_service_socket}
use mpitofino.NodeDaemon.Startup.{Ifaddrs, choose_interface, first_state, construct}
use mpitofino.NodeDaemon.Tracking.{IsTracking, switch_view, is_used}
use mpitofino.NodeDaemon.Runs.{Event, run, run-IsTracking}
use mpitofino.NodeDaemon.Answers.{Handled, IsAnswered, run-IsAnswered}

first_state-IsTracking : (hpn : ℕ × MacAddr) → IsTracking (first_state hpn)
unfolding switch_view is_used contains is_0000
first_state-IsTracking hpn = record {
  unique = tt;
  view = λ tag. refl;
  linked = λ e. cc;
  used = λ tag e. cc;
}

-- What a constructor that returned has done.
pub record IsStarted (hwaddr : List ℕ → Option MacAddr) (u : UnixSockets) (is : List Ifaddrs)
    (env : Option (List ℕ)) (s : u.State) (d : NodeDaemon) (service : List ℕ × ℕ) (t : u.State)
    : Type 0 where
  pub hpn : ℕ × MacAddr
  pub chosen : choose_interface hwaddr is (0, mac_zero) ≡ ok hpn
  pub state : d ≡ first_state hpn
  pub opened : open_service_socket u env s ≡ ok (service, t)

module _ (hwaddr : List ℕ → Option MacAddr) (u : UnixSockets) (is : List Ifaddrs)
    (env : Option (List ℕ)) where
  pub construct-IsStarted :
      (tdp_bound : Bool) (s t : u.State) (d : NodeDaemon) (service : List ℕ × ℕ)
      → construct hwaddr u (some is) env tdp_bound s ≡ ok (d, service, t)
      → IsStarted hwaddr u is env s d service t
  unfolding construct
  construct-IsStarted tdp_bound s t d service h =
      let (hpn, (chosen, rest)) =
        bind-ok (choose_interface hwaddr is (0, mac_zero)) _ (d, service, t) h in
      let (p, (opened, last)) = bind-ok (open_service_socket u env s) _ (d, service, t) rest in
      of_last tdp_bound hpn p chosen opened last
    where
      of_last :
          (b : Bool) (hpn : ℕ × MacAddr) (p : (List ℕ × ℕ) × u.State)
          → choose_interface hwaddr is (0, mac_zero) ≡ ok hpn
          → open_service_socket u env s ≡ ok p
          → ◌>>◌ {T = NodeDaemon × (List ℕ × ℕ) × u.State}
              (require b system_error)
              (ok (first_state hpn, p.0, p.1))
            ≡ ok (d, service, t)
          → IsStarted hwaddr u is env s d service t
      of_last false hpn p chosen opened last = cc
      of_last true hpn p chosen opened last = record {
        hpn = hpn;
        chosen = chosen;
        state = cc;
        opened = opened ∙ cc;
      }

  -- From the constructor on, any sequence of connections, requests, ends of connections, announcements
  -- and responses of the switch that throws nothing leaves the switch with exactly the channels that
  -- the clients of the node use.
  pub run-construct-IsTracking :
      (tdp_bound : Bool) (s t : u.State) (d : NodeDaemon) (service : List ℕ × ℕ) (es : List Event)
      → construct hwaddr u (some is) env tdp_bound s ≡ ok (d, service, t)
      → IfReturns IsTracking (run d es)
  run-construct-IsTracking tdp_bound s t d service es h =
      let started = construct-IsStarted tdp_bound s t d service h in
      run-IsTracking d es
        (subst IsTracking (sym started.state) (first_state-IsTracking started.hpn))

  -- The daemon has handled a sequence of events since its constructor and thrown nothing. Then a
  -- response of the switch, on a connection that stays up, is handled without a throw, unless the
  -- client that it is for cannot be written to, when a system error is thrown. If nothing is thrown,
  -- it goes to one connected client at most, and that client has asked for this response since it
  -- connected; it goes to none only if no client waits for it.
  pub run-construct-IsAnswered :
      (tdp_bound : Bool) (s t : u.State) (d d' : NodeDaemon) (service : List ℕ × ℕ)
      (es : List Event) (client_id tag : ℕ) (resp : ClientResponse) (writable : Bool)
      → construct hwaddr u (some is) env tdp_bound s ≡ ok (d, service, t)
      → run d es ≡ ok d'
      → Handled writable
          (IsAnswered es (response_key client_id tag) resp d')
          (on_switch_fd d' false (response client_id tag resp writable))
  run-construct-IsAnswered tdp_bound s t d d' service es client_id tag resp writable h =
      let started = construct-IsStarted tdp_bound s t d service h in
      run-IsAnswered d d' es client_id tag resp writable
        (subst IsTracking (sym started.state) (first_state-IsTracking started.hpn))
        (ap (λ (x : NodeDaemon). x.clients) started.state)
