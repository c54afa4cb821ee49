-- ===== src/Service/World.antt =====
-- The two stores that a send keeps: the journal and the policy's counters (internal/service).
use daxib.Prelude.{Text}
use daxib.Journal.Store.{Store}
use daxib.Policy.Engine.{Engine}

pub record World : Type 0 where
  pub journal : Store
  pub engine : Engine

-- The network and the wallet of a service.
pub record Service : Type 0 where
  pub net : Text
  pub wallet : Text
