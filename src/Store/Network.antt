-- ===== src/Store/Network.antt =====
-- The rows of network/models.py that the executors read and write. The identifiers of the nodes are
-- numbered, and 0 is `primary`.
use fireisp.Prelude.{ℕ, Bool, Option, List}

pub record NetworkNode : Type 0 where
  pub pk : ℕ
  pub worker_token : Option ℕ
  pub generation : ℕ
  pub lease_expires_at : Option ℕ

pub record Router : Type 0 where
  pub pk : ℕ
  pub network_node : ℕ
  pub execution_blocked : Bool

pub data RunStatus : Type 0 where
  pending running succeeded failed : RunStatus

-- `is_fallback_test` is `plan.test_kind == 'web-outage-fallback'`.
pub record ProvisioningJob : Type 0 where
  pub pk : ℕ
  pub router : ℕ
  pub status : RunStatus
  pub worker_token : Option ℕ
  pub is_fallback_test : Bool
  pub started_at : Option ℕ
  pub finished_at : Option ℕ

pub record Network : Type 0 where
  pub nodes : List NetworkNode
  pub routers : List Router
  pub jobs : List ProvisioningJob
