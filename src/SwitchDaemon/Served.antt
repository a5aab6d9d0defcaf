-- ===== src/SwitchDaemon/Served.antt =====
-- The channels of the agent's repository, and their entries in the tables of the chip.
use mpitofino.Agent.{Agent}
use mpitofino.AsicDriver.Driven.{Driven}
