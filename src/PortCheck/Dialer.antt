-- ===== src/PortCheck/Dialer.antt =====
-- pkg/portcheck/dialer.go: one dial of every declared port, and what it says.
pub mod Closed
use cluster_agent.Prelude.{
  ℕ, String, Bool, true, false, not, List, [], ◌∷◌, map, keep, length, is_empty, concat, join, itoa,
  sort_numbers, ltb, if◌then◌else◌,
}
use cluster_agent.Api.Meta.{Time}

pub record PortResult : Type 0 where
  pub port : ℕ
  pub is_open : Bool

pub record DialResult : Type 0 where
  pub ports : List PortResult
  pub checked_at : Time

-- AllOpen: the loop returns false at the first closed port.
unfoldable pub all_open_ports : List PortResult → Bool
all_open_ports [] = true
all_open_ports (p ∷ ps) = if not p.is_open then false else all_open_ports ps

abbrev pub all_open : DialResult → Bool
all_open r = all_open_ports r.ports

-- ClosedPorts
unfoldable pub closed_ports : DialResult → List ℕ
unfolding keep sort_numbers
closed_ports r = sort_numbers (map (λ p. p.port) (keep (λ p. not p.is_open) r.ports))

abbrev port_state : PortResult → String
port_state p = concat (itoa p.port ∷ " " ∷ (if p.is_open then "open" else "refused") ∷ [])

-- Message
unfoldable pub message : DialResult → String
unfolding concat join itoa closed_ports
message r =
    let closed = closed_ports r in
    if is_empty closed
    then "all declared ports are listening"
    else concat (
        "readiness check failed: nothing listening on "
        ∷ (if ltb 1 (length closed) then "ports" else "port")
        ∷ " "
        ∷ join (map itoa closed) ", "
        ∷ " (ports verified: ["
        ∷ join (map port_state r.ports) ", "
        ∷ "]). If your app listens on a different port, update the port in your stack definition. "
        ∷ "If it listens on 127.0.0.1, change it to 0.0.0.0."
        ∷ [])

-- Dial, where `connect host port` says whether a TCP connection within the timeout succeeds. The
-- dials run concurrently and each writes its own slot, so the order of the slots is that of the
-- ports.
unfoldable pub dial : (String → ℕ → Bool) → Time → String → List ℕ → DialResult
dial connect now host ports = record {
  ports = map (λ p. record { port = p; is_open = connect host p }) ports;
  checked_at = now;
}
