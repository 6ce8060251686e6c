-- ===== src/Http/Middleware/Chain.antt =====
-- Which requests get through the chain of checks, and in what form.
use obsidian_mcp_server.Prelude.{
  ◌<◌, ◌≡◌, ◌≢◌, ◌↔◌, refl, ap, sym, ◌∙◌, true, false, not, ◌&&◌, Option, none, some, List, [], ◌∷◌,
  ◌++◌, arith, length, take, drop, In, take-append-drop, length-drop,
}
use obsidian_mcp_server.Strings.{Bytes, codes, eq_bytes_iff}
use obsidian_mcp_server.Http.Token.{compare_token}
use obsidian_mcp_server.Http.Middleware.{
  bearer_token, strip_port, mem_bytes, host_allowed, origin_allowed, Request, served, Handler,
  ChainConfig, capped, credential_hash_for_request, host_origin_middleware, body_cap_middleware,
  auth_middleware, authorized, origin_present, build_chain,
}

mem_bytes_iff : (s : Bytes) (ts : List Bytes) → (mem_bytes s ts ≡ true) ↔ In s ts
unfolding mem_bytes
mem_bytes_iff s [] = ground arith
mem_bytes_iff s (t ∷ ts) = ground (arith, eq_bytes_iff s t, mem_bytes_iff s ts)

abbrev bearer : Bytes
bearer = codes "Bearer "

bearer_token_parts :
    (header token : Bytes)
    → bearer_token header ≡ some token
    → (take 7 header ≡ bearer) × (drop 7 header ≡ token) × (7 < length header)
unfolding bearer_token
bearer_token_parts header token h =
    (ground (arith, eq_bytes_iff (take 7 header) bearer), ground arith, ground arith)

bearer_token-append : (token : Bytes) → token ≢ [] → bearer_token (bearer ++ token) ≡ some token
unfolding bearer_token
bearer_token-append [] h = absurd (h refl)
bearer_token-append (x ∷ token) h = ground arith

length_zero : (s : Bytes) → s ≡ [] → length s ≡ 0
length_zero s e = ap length e

-- A header holds a bearer token exactly if it is the scheme, one space and a token that is not empty.
pub bearer_token_iff :
    (header token : Bytes)
    → (bearer_token header ≡ some token) ↔ ((header ≡ codes "Bearer " ++ token) × (token ≢ []))
bearer_token_iff header token = (
  λ h.
      let parts = bearer_token_parts header token h in
      (
        sym (take-append-drop 7 header)
            ∙ ap (λ s. s ++ drop 7 header) parts.0
            ∙ ap (λ s. bearer ++ s) parts.1,
        λ e. absurd (omega (arith, parts.2, length-drop 7 header, ap length parts.1, ap length e)),
      ),
  λ (e, ne). rw e (bearer_token-append token ne),
)

-- The hosts that are let through: those of the list, or the three loopback names for no list.
abbrev pub AllowedHost : Bytes → List Bytes → Type 0
AllowedHost host [] = In host (codes "localhost" ∷ codes "127.0.0.1" ∷ codes "::1" ∷ [])
AllowedHost host (h ∷ allowed) = In host (h ∷ allowed)

-- The origins that are let through: none given, no list, or one of the list.
abbrev pub AllowedOrigin : Bytes → List Bytes → Type 0
AllowedOrigin [] allowed = Unit
AllowedOrigin (x ∷ xs) [] = Unit
AllowedOrigin (x ∷ xs) (o ∷ allowed) = In (x ∷ xs) (o ∷ allowed)

host_allowed_iff :
    (host : Bytes) (allowed : List Bytes)
    → (host_allowed host allowed ≡ true) ↔ AllowedHost host allowed
unfolding host_allowed
host_allowed_iff host [] = ground (
  arith,
  eq_bytes_iff host (codes "localhost"),
  eq_bytes_iff host (codes "127.0.0.1"),
  eq_bytes_iff host (codes "::1"),
)
host_allowed_iff host (h ∷ allowed) = mem_bytes_iff host (h ∷ allowed)

origin_allowed_iff :
    (origin : Bytes) (allowed : List Bytes)
    → ((origin_present origin && not (origin_allowed origin allowed)) ≡ false)
      ↔ AllowedOrigin origin allowed
unfolding origin_allowed
origin_allowed_iff [] allowed = ground arith
origin_allowed_iff (x ∷ xs) [] = ground arith
origin_allowed_iff (x ∷ xs) (o ∷ allowed) = ground (arith, mem_bytes_iff (x ∷ xs) (o ∷ allowed))

some_injective : (s t : Bytes) → some s ≡ some t → s ≡ t
some_injective s t e = cc

module _ (sha256 : Bytes → Bytes) (c : ChainConfig) where
  -- The request as the served handler sees it: its body capped and its credential bound.
  abbrev pub bound_request : Request → Request
  bound_request r = record r {
    body = capped r.body;
    credential_hash = some (credential_hash_for_request sha256 r c.token);
  }

  -- What the request's sender has to present.
  abbrev pub Presents : Request → Type 0
  Presents r =
      (token : Bytes) × (r.authorization ≡ codes "Bearer " ++ token)
      × (token ≢ [])
      × (sha256 token ≡ c.token.hash)

  abbrev with_credential : Request → Request
  with_credential r = record r {
    credential_hash = some (credential_hash_for_request sha256 r c.token);
  }

  authorized_iff :
      (r q : Request) (o : Option Bytes)
      → (authorized sha256 c (λ x. served x) r o ≡ served q) ↔ (
          (token : Bytes) × (o ≡ some token)
          × (sha256 token ≡ c.token.hash)
          × (q ≡ with_credential r))
  unfolding compare_token
  authorized_iff r q none = (λ h. cc, λ h. cc (h.1))
  authorized_iff r q (some t) = (
    λ h. (
      t,
      refl,
      ground (arith, eq_bytes_iff c.token.hash (sha256 t)),
      ground (arith, eq_bytes_iff c.token.hash (sha256 t)),
    ),
    λ (t', o, e, w).
        ground (arith, eq_bytes_iff c.token.hash (sha256 t), ap sha256 (some_injective t t' o)),
  )

  auth_middleware_iff :
      (r q : Request)
      → (auth_middleware sha256 c (λ x. served x) r ≡ served q)
        ↔ (Presents r × (q ≡ with_credential r))
  unfolding auth_middleware
  auth_middleware_iff r q =
      let step = authorized_iff r q (bearer_token r.authorization) in
      (
        λ h.
            let (t, o, e, w) = step.0 h in
            let both = (bearer_token_iff r.authorization t).0 o in ((t, both.0, both.1, e), w),
        λ ((t, a, ne, e), w). step.1 (t, (bearer_token_iff r.authorization t).1 (a, ne), e, w),
      )

  host_origin_iff :
      (next : Handler Request) (r q : Request)
      → (host_origin_middleware sha256 c next r ≡ served q) ↔ (
          AllowedHost (strip_port r.host) c.allowed_hosts
          × AllowedOrigin r.origin c.allowed_origins
          × (next r ≡ served q))
  unfolding host_origin_middleware
  host_origin_iff next r q =
      let host = host_allowed_iff (strip_port r.host) c.allowed_hosts in
      let origin = origin_allowed_iff r.origin c.allowed_origins in
      (
        λ h. (host.0 (ground arith), origin.0 (ground arith), ground arith),
        λ (a, b, n). rw (host.1 a, origin.1 b) n,
      )

  -- The chain hands a request on exactly if its host, without the port, and its origin are allowed,
  -- and its Authorization header is the Bearer scheme with a token that is not empty and has the
  -- configured hash; what it hands on has the body capped, the hash of this credential in its
  -- context, and is the same otherwise.
  pub build_chain_iff :
      (r q : Request)
      → (build_chain sha256 c (λ x. served x) r ≡ served q) ↔ (
          AllowedHost (strip_port r.host) c.allowed_hosts
          × AllowedOrigin r.origin c.allowed_origins
          × Presents r
          × (q ≡ bound_request r))
  unfolding build_chain credential_hash_for_request
  build_chain_iff r q =
      let outer =
        host_origin_iff (body_cap_middleware sha256 c (auth_middleware sha256 c served)) r q in
      let inner = auth_middleware_iff (record r { body = capped r.body }) q in
      (
        λ h. let (a, b, n) = outer.0 h in let (p, e) = inner.0 n in (a, b, p, e),
        λ (a, b, p, e). outer.1 (a, b, inner.1 (p, e)),
      )
