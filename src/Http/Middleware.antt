-- ===== src/Http/Middleware.antt =====
-- internal/httptransport/middleware.go: the chain of checks before a request is served.
-- A handler maps a request to a response; what the wrapped handler answers is of any type.
pub mod Ports
pub mod Chain
pub mod Tests
use obsidian_mcp_server.Prelude.{
  ℕ, ◌≡◌, ◌*◌, ◌^◌, Bool, true, false, not, ◌&&◌, ◌||◌, Option, none, some, List, [], ◌∷◌, ◌++◌,
  ◌==◌, if◌then◌else◌, ltb, leb, length, take, drop, min,
}
use mathlib.Core.List.{reverse}
use obsidian_mcp_server.Strings.{Bytes, codes, eq_bytes, has_prefix}
use obsidian_mcp_server.Http.Session.{hex_encode}
use obsidian_mcp_server.Http.Token.{AuthToken, compare_token}

abbrev pub max_request_body_bytes : ℕ
max_request_body_bytes = 16 * 2 ^ 20

-- bearerToken
unfoldable pub bearer_token : Bytes → Option Bytes
unfolding eq_bytes
bearer_token header =
    if leb (length header) (length (codes "Bearer "))
      || not (eq_bytes (take (length (codes "Bearer ")) header) (codes "Bearer "))
    then none
    else some (drop (length (codes "Bearer ")) header)

-- The loop of stripPort, from the last byte down: `none` where no byte decides.
port_scan : Bytes → Option Bytes
port_scan [] = none
port_scan (x ∷ before) =
    if x == b']' then none else if x == b':' then some (reverse before) else port_scan before

strip_or : Bytes → Option Bytes → Bytes
strip_or host none = host
strip_or host (some cut) = cut

-- stripPort
unfoldable pub strip_port : Bytes → Bytes
unfolding port_scan strip_or
strip_port host = strip_or host (port_scan (reverse host))

-- A set of strings, `map[string]struct{}`, by the list of its members.
unfoldable pub mem_bytes : Bytes → List Bytes → Bool
mem_bytes s [] = false
mem_bytes s (t ∷ ts) = eq_bytes s t || mem_bytes s ts

-- hostAllowed
unfoldable pub host_allowed : Bytes → List Bytes → Bool
unfolding mem_bytes
host_allowed host [] =
    eq_bytes host (codes "localhost")
    || eq_bytes host (codes "127.0.0.1")
    || eq_bytes host (codes "::1")
host_allowed host (h ∷ allowed) = mem_bytes host (h ∷ allowed)

-- originAllowed
unfoldable pub origin_allowed : Bytes → List Bytes → Bool
unfolding mem_bytes
origin_allowed origin [] = true
origin_allowed origin (o ∷ allowed) = mem_bytes origin (o ∷ allowed)

-- A request: its headers (empty where absent), the first client certificate where TLS presented
-- one, the bytes that its body may yield at most (no bound at first; no body is `none`), and the
-- credential hash in its context.
pub record Request : Type 0 where
  pub host : Bytes
  pub origin : Bytes
  pub authorization : Bytes
  pub peer_certificate : Option Bytes
  pub body : Option (Option ℕ)
  pub credential_hash : Option Bytes

pub data Response {ℓ} (R : Type ℓ) : Type ℓ where
  forbidden : Response R
  unauthorized : Response R
  served : R → Response R

abbrev pub Handler {ℓ} : Type ℓ → Type ℓ
Handler R = Request → Response R

pub record ChainConfig : Type 0 where
  pub allowed_hosts : List Bytes
  pub allowed_origins : List Bytes
  pub token : AuthToken

abbrev capped : Option (Option ℕ) → Option (Option ℕ)
capped none = none
capped (some none) = some (some max_request_body_bytes)
capped (some (some n)) = some (some (min n max_request_body_bytes))

abbrev origin_present : Bytes → Bool
origin_present [] = false
origin_present (x ∷ xs) = true

module _ (sha256 : Bytes → Bytes) where
  abbrev certificate_bytes : Option Bytes → Bytes
  certificate_bytes none = []
  certificate_bytes (some raw) = raw

  -- credentialHashForRequest: the hash is fed the token's hash and then the certificate.
  unfoldable pub credential_hash_for_request : Request → AuthToken → Bytes
  credential_hash_for_request r token =
      hex_encode (sha256 (token.hash ++ certificate_bytes r.peer_certificate))

  module _ {ℓ} {R : Type ℓ} (c : ChainConfig) where
    -- hostOriginMiddleware
    host_origin_middleware : Handler R → Handler R
    host_origin_middleware next r =
        if not (host_allowed (strip_port r.host) c.allowed_hosts)
        then forbidden
        else if origin_present r.origin && not (origin_allowed r.origin c.allowed_origins)
        then forbidden
        else next r

    -- bodyCapMiddleware
    body_cap_middleware : Handler R → Handler R
    body_cap_middleware next r = next (record r { body = capped r.body })

    abbrev authorized : Handler R → Request → Option Bytes → Response R
    authorized next r none = unauthorized
    authorized next r (some presented) =
        if not (compare_token sha256 c.token presented)
        then unauthorized
        else next (record r { credential_hash = some (credential_hash_for_request r c.token) })

    -- authMiddleware
    auth_middleware : Handler R → Handler R
    auth_middleware next r = authorized next r (bearer_token r.authorization)

    -- buildChain
    pub build_chain : Handler R → Handler R
    unfolding host_origin_middleware body_cap_middleware auth_middleware
    build_chain next = host_origin_middleware (body_cap_middleware (auth_middleware next))
