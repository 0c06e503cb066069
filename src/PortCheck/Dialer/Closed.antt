-- ===== src/PortCheck/Dialer/Closed.antt =====
-- What a dial reports of the ports that refused.
use cluster_agent.Prelude.{
  ℕ, String, ◌≡◌, ◌↔◌, sym, ◌∙◌, Bool, true, not, List, [], ◌∷◌, All, map, keep, length, arith,
  length-sort_numbers,
}
use cluster_agent.Api.Meta.{Time}
use cluster_agent.PortCheck.Dialer.{
  PortResult, DialResult, all_open, all_open_ports, closed_ports, dial,
}

length-map_closed :
    (ps : List PortResult)
    → (length (map (λ p. p.port) (keep (λ p. not p.is_open) ps)) ≡ 0) ↔ (all_open_ports ps ≡ true)
unfolding keep all_open_ports
length-map_closed [] = ground arith
length-map_closed (p ∷ ps) = ground (arith, length-map_closed ps)

-- A result is all open exactly when its list of closed ports is empty.
pub all_open_iff : (r : DialResult) → (all_open r ≡ true) ↔ (length (closed_ports r) ≡ 0)
unfolding closed_ports
all_open_iff r =
    let e = length-sort_numbers (map (λ p. p.port) (keep (λ p. not p.is_open) r.ports)) in
    (λ h. e ∙ (length-map_closed r.ports).1 h, λ h. (length-map_closed r.ports).0 (sym e ∙ h))

dial_ports_iff :
    (connect : String → ℕ → Bool) (host : String) (ports : List ℕ)
    → (all_open_ports (map (λ p. record { port = p; is_open = connect host p }) ports) ≡ true)
      ↔ All (λ p. connect host p ≡ true) ports
unfolding all_open_ports
dial_ports_iff connect host [] = ground arith
dial_ports_iff connect host (p ∷ ports) = ground (arith, dial_ports_iff connect host ports)

-- A dial reports no closed port exactly when every declared port accepts a connection. A workload
-- without ports has none closed.
pub dial_closed_none :
    (connect : String → ℕ → Bool) (now : Time) (host : String) (ports : List ℕ)
    → (length (closed_ports (dial connect now host ports)) ≡ 0)
      ↔ All (λ p. connect host p ≡ true) ports
unfolding dial
dial_closed_none connect now host ports =
    let i = all_open_iff (dial connect now host ports) in
    let j = dial_ports_iff connect host ports in (λ h. j.0 (i.1 h), λ h. i.0 (j.1 h))
