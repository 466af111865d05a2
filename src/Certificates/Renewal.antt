-- ===== src/Certificates/Renewal.antt =====
-- The certificates that are to be renewed, grouped by workload: the first loop of
-- `certificateRenewalRequests` in internal/controller/fabricnetwork_certificate_lifecycle.go. The
-- conversion `[]byte(s)` is the parameter `bytes_of`.
pub mod Groups
use fabric_ops.Prelude.{
  ℕ, ◌+◌, suc, String, Bool, true, false, not, ◌&&◌, ◌||◌, List, [], ◌∷◌, ◌++◌, Option, none, some,
  if◌then◌else◌,
}
use fabric_ops.Prelude.Maps.{Map, lookup, insert}
use fabric_ops.Text.{◌<>◌}
use fabric_ops.Api.Status.{CertificateStatus}
use fabric_ops.Certificates.Window.{certificate_state_needs_renewal}

-- The fields of `managedCertificateRef` that the requests read.
pub record ManagedCertificateRef : Type 0 where
  pub component : String
  pub workload_name : String
  pub renewal_mode : String
  pub renewable : Bool
  pub csr_hosts : List String

pub record CertificateInventoryItem : Type 0 where
  pub ref : ManagedCertificateRef
  pub status : CertificateStatus
  pub raw : List ℕ

-- The revision and the name of the Job are filled in after the loop.
pub record CertificateRenewalRequest : Type 0 where
  pub workload_name : String
  pub component : String
  pub mode : String
  pub csr_hosts : List String
  pub indices : List ℕ
  pub seed : List ℕ

unfoldable pub is_wanted : CertificateInventoryItem → Bool
unfolding certificate_state_needs_renewal
is_wanted item = item.ref.renewable && certificate_state_needs_renewal item.status.state

-- The request of the workload, or a new one.
unfoldable pub request_for :
    CertificateInventoryItem → Option CertificateRenewalRequest → CertificateRenewalRequest
request_for item (some request) = request
request_for item none = record {
  workload_name = item.ref.workload_name;
  component = item.ref.component;
  mode = item.ref.renewal_mode;
  csr_hosts = item.ref.csr_hosts;
  indices = [];
  seed = [];
}

module _ (bytes_of : String → List ℕ) where
  -- The item's index and seed are appended.
  unfoldable pub with_item :
      ℕ → CertificateInventoryItem → CertificateRenewalRequest → CertificateRenewalRequest
  with_item i item request = record request {
    indices = request.indices ++ (i ∷ []);
    seed = request.seed ++ bytes_of (item.status.secret_name <> "/" <> item.status.key) ++ item.raw;
  }

  unfoldable pub add_item :
      ℕ → CertificateInventoryItem → Map CertificateRenewalRequest → Map CertificateRenewalRequest
  unfolding is_wanted request_for with_item insert lookup
  add_item i item requests =
      if is_wanted item
      then insert item.ref.workload_name
          (with_item i item (request_for item (lookup item.ref.workload_name requests))) requests
      else requests

  -- The loop, from the item `i` on.
  unfoldable pub requests_by_workload :
      Map CertificateRenewalRequest
      → ℕ
      → List CertificateInventoryItem
      → Map CertificateRenewalRequest
  unfolding add_item
  requests_by_workload requests i [] = requests
  requests_by_workload requests i (item ∷ items) =
      requests_by_workload (add_item i item requests) (i + 1) items
