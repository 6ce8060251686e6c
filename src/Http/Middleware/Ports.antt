-- ===== src/Http/Middleware/Ports.antt =====
-- stripPort, and what it makes of the loopback names that hostAllowed lets through by default.
use obsidian_mcp_server.Prelude.{
  ℕ, ◌≡◌, refl, ap, sym, ◌∙◌, true, false, [], ◌∷◌, ◌++◌, arith, append_assoc, append-nil,
}
use mathlib.Core.List.{reverse, reverse-append, reverse-reverse}
use obsidian_mcp_server.Strings.{Bytes, codes, contains_byte, eq_bytes}
use obsidian_mcp_server.Strings.Split.{Lacks, contains_byte-reverse}
use obsidian_mcp_server.Http.Middleware.{port_scan, strip_or, strip_port, host_allowed}

-- A text that holds neither a colon nor a closing bracket.
abbrev pub IsPort : Bytes → Type 0
IsPort p = Lacks b':' p × Lacks b']' p

port_scan_skip : (p rest : Bytes) → IsPort p → port_scan (p ++ rest) ≡ port_scan rest
unfolding port_scan contains_byte
port_scan_skip [] rest h = refl
port_scan_skip (x ∷ p) rest h = ground (arith, port_scan_skip p rest)

IsPort-reverse : (p : Bytes) → IsPort p → IsPort (reverse p)
IsPort-reverse p h = (contains_byte-reverse b':' p ∙ h.0, contains_byte-reverse b']' p ∙ h.1)

port_scan_last :
    (host p : Bytes) (x : ℕ)
    → IsPort p
    → port_scan (reverse (host ++ x ∷ p)) ≡ port_scan (x ∷ reverse host)
port_scan_last host p x h =
    ap port_scan (
      reverse-append host (x ∷ p)
      ∙ ap (λ s. s ++ reverse host) (reverse-append (x ∷ []) p)
      ∙ append_assoc (reverse p) (x ∷ []) (reverse host))
    ∙ port_scan_skip (reverse p) (x ∷ reverse host) (IsPort-reverse p h)

-- A port is cut off behind the last colon; a host that ends in a closing bracket, and one with
-- neither a colon nor a bracket, is kept whole.
pub strip_port_lem :
    (host p : Bytes)
    → IsPort p
    → (strip_port (host ++ b':' ∷ p) ≡ host)
      × (strip_port (host ++ b']' ∷ p) ≡ host ++ b']' ∷ p)
      × (strip_port p ≡ p)
unfolding strip_port
strip_port_lem host p h = (
  rw (port_scan_last host p b':' h) (unfold port_scan in reverse-reverse host),
  rw (port_scan_last host p b']' h) (unfold port_scan in refl),
  ap (λ s. strip_or p (port_scan s)) (sym (append-nil (reverse p)))
      ∙ rw (port_scan_skip (reverse p) [] (IsPort-reverse p h)) (unfold port_scan in refl),
)

-- With no allowlist a client that names the IPv6 loopback the way a Host header does, in brackets,
-- with a port or without, is turned away, though the plain form `::1` is on the default list.
pub ipv6_loopback_rejected :
    (p : Bytes)
    → IsPort p
    → (host_allowed (strip_port (codes "[::1]" ++ b':' ∷ p)) [] ≡ false)
      × (host_allowed (strip_port (codes "[::1]")) [] ≡ false)
      × (host_allowed (codes "::1") [] ≡ true)
ipv6_loopback_rejected p h = (
  rw (strip_port_lem (codes "[::1]") p h).0 bracketed,
  rw (strip_port_lem (codes "[::1") [] (unfold contains_byte in (refl, refl))).1 bracketed,
  unfold host_allowed eq_bytes in refl,
)
  where
    bracketed : host_allowed (codes "[::1]") [] ≡ false
    bracketed = unfold host_allowed eq_bytes in refl
