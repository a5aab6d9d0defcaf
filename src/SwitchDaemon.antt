-- ===== src/SwitchDaemon.antt =====
-- The switch daemon as a whole, projects/mpitofino/sd: the agent writes the repository, and the
-- driver of the chip is called with its channels.
pub mod Served
mod Tests
use mpitofino.Prelude.{
  ℕ, ◌≡◌, ◌≤◌, ◌<◌, refl, sym, subst, true, List, [], ◌∷◌, Result, ok, IfReturns, All,
}
use mpitofino.Prelude.OrderedMap.{Map, values, AllValues}
use mpitofino.StateRepository.{CollectiveChannel}
use mpitofino.Agent.{Agent}
use mpitofino.Agent.Ports.{HasPorts}
use mpitofino.AsicDriver.Plan.{all_nodes_known}
use mpitofino.AsicDriver.Workers.{workers, limit}
use mpitofino.AsicDriver.Programmed.{AllFit}
use mpitofino.AsicDriver.Driven.{Driven}

-- No channel whose clients are all known has more clients on a pipe than bits.
abbrev pub FewClients : List CollectiveChannel → Type 0
FewClients = All (λ (rc : CollectiveChannel).
    all_nodes_known rc.participants ≡ true
    → (pipe : ℕ) → pipe < 4
    → workers pipe rc.participants ≤ limit pipe)

pub AllFit-values :
    (m : Map CollectiveChannel) → AllValues HasPorts m → FewClients (values m) → AllFit (values m)
unfolding values
AllFit-values [] h few = tt
AllFit-values ((tag, rc) ∷ m) h few =
    (λ known. record { on_switch = h.0; few = few.0 known }, AllFit-values m h.1 few.1)

-- What the run returned has the property.
pub IfReturns-ok :
    {A : Type 0} (P : A → Type 0) (m : Result A) (a : A) → m ≡ ok a → IfReturns P m → P a
IfReturns-ok P m a e h = subst (IfReturns P) e h
