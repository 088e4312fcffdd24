-- ===== src/Supervisor/Outcome.antt =====
-- internal/supervisor/outcome.go. `other_kind` is a value that is none of the constants.
use pxgo.Shared.{ℕ, String, Bool, true, false}

pub data OutcomeKind : Type 0 where
  success client_cancelled destination_failure proxy_dns_failure proxy_dial_failure : OutcomeKind
  proxy_tls_failure proxy_protocol_failure auth_exhausted route_failure : OutcomeKind
  internal_failure : OutcomeKind
  other_kind : ℕ → OutcomeKind

-- OutcomeKind.String
unfoldable pub kind_name : OutcomeKind → String
kind_name success = "success"
kind_name client_cancelled = "client-cancelled"
kind_name destination_failure = "destination-failure"
kind_name proxy_dns_failure = "proxy-dns-failure"
kind_name proxy_dial_failure = "proxy-dial-failure"
kind_name proxy_tls_failure = "proxy-tls-failure"
kind_name proxy_protocol_failure = "proxy-protocol-failure"
kind_name auth_exhausted = "auth-exhausted"
kind_name route_failure = "route-failure"
kind_name internal_failure = "internal-failure"
kind_name (other_kind _) = "unknown"

unfoldable pub penalizes_candidate : OutcomeKind → Bool
penalizes_candidate proxy_dns_failure = true
penalizes_candidate proxy_dial_failure = true
penalizes_candidate proxy_tls_failure = true
penalizes_candidate proxy_protocol_failure = true
penalizes_candidate _ = false

-- `Duration` is carried and never read.
pub record Outcome : Type 0 where
  pub kind : OutcomeKind
  pub proxy : String

pub record Candidate : Type 0 where
  pub key : String
  pub direct : Bool
