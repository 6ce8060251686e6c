-- ===== src/Http/Middleware/Tests.antt =====
-- Requests through the chain of checks, and instances of its theorems.
use obsidian_mcp_server.Prelude.{◌≡◌, ◌↔◌, refl, none, some, [], ◌∷◌}
use obsidian_mcp_server.Strings.{Bytes, codes, eq_bytes}
use obsidian_mcp_server.Http.Token.{compare_token}
use obsidian_mcp_server.Http.Middleware.{
  bearer_token, credential_hash_for_request, strip_port, host_allowed, origin_allowed, Request,
  forbidden, unauthorized, served, ChainConfig, build_chain,
}
use obsidian_mcp_server.Http.Middleware.Chain.{
  AllowedHost, AllowedOrigin, Presents, bound_request, build_chain_iff,
}

-- A hash function for the tests: the text itself.
abbrev plain : Bytes → Bytes
plain s = s

abbrev config : ChainConfig
config = record {
  allowed_hosts = [];
  allowed_origins = codes "http://a" ∷ [];
  token = record { hash = codes "key"; sha8 = []; path = [] };
}

abbrev request : Request
request = record {
  host = codes "localhost:8080";
  origin = [];
  authorization = codes "Bearer key";
  peer_certificate = none;
  body = some none;
  credential_hash = none;
}

request_served :
    build_chain plain config served request ≡ served (bound_request plain config request)
unfolding build_chain host_allowed strip_port bearer_token compare_token eq_bytes
    credential_hash_for_request
request_served = refl

no_token :
    build_chain plain config served (record request { authorization = codes "Bearer " })
    ≡ unauthorized
unfolding build_chain host_allowed strip_port bearer_token compare_token eq_bytes
    credential_hash_for_request
no_token = refl

foreign_origin :
    build_chain plain config served (record request { origin = codes "http://b" }) ≡ forbidden
unfolding build_chain host_allowed origin_allowed strip_port bearer_token compare_token eq_bytes
foreign_origin = refl

build_chain_iff_example :
    (build_chain plain config served request ≡ served (bound_request plain config request)) ↔ (
      AllowedHost (strip_port request.host) config.allowed_hosts
      × AllowedOrigin request.origin config.allowed_origins
      × Presents plain config request
      × (bound_request plain config request ≡ bound_request plain config request))
build_chain_iff_example = build_chain_iff plain config request (bound_request plain config request)
