-- ===== src/Http/Session.antt =====
-- internal/httptransport/session.go: the store of sessions, and the manager bound to one credential.
-- The store is shared by all managers, so it is passed along. Time is a number of nanoseconds, read
-- by each call as its argument `now`; random bytes are an argument of `generate`.
pub mod Refinement
pub mod Tests
use obsidian_mcp_server.Prelude.{
  ℕ, ◌+◌, ◌-◌, ◌/◌, ◌%◌, Bool, true, false, not, Option, none, some, List, [], ◌∷◌, if◌then◌else◌,
  ltb,
}
use obsidian_mcp_server.Strings.{Bytes, eq_bytes}
use obsidian_mcp_server.Maps
use obsidian_mcp_server.Maps.{Map}

pub record SessionRecord : Type 0 where
  pub credential_hash : Bytes
  pub expires_at : ℕ

pub record SessionStore : Type 0 where
  pub sessions : Map SessionRecord
  pub ttl : ℕ

abbrev pub new_session_store : ℕ → SessionStore
new_session_store ttl = record { sessions = Maps.empty; ttl = ttl }

-- `now.After(rec.expiresAt)`
abbrev pub is_expired : ℕ → SessionRecord → Bool
is_expired now rec = ltb rec.expires_at now

pub sweep : ℕ → SessionStore → SessionStore
sweep now s = record s { sessions = Maps.keep (λ rec. not (is_expired now rec)) s.sessions }

pub record BoundManager : Type 0 where
  pub credential_hash : Bytes

-- The manager of a request: the credential hash of its context, or the empty hash.
abbrev pub resolve_manager : Option Bytes → BoundManager
resolve_manager none = record { credential_hash = [] }
resolve_manager (some hash) = record { credential_hash = hash }

abbrev hex_digit : ℕ → ℕ
hex_digit d = if ltb d 10 then b'0' + d else b'a' + (d - 10)

-- hex.EncodeToString
unfoldable pub hex_encode : Bytes → Bytes
hex_encode [] = []
hex_encode (x ∷ xs) = hex_digit (x / 16) ∷ hex_digit (x % 16) ∷ hex_encode xs

-- Generate. `raw` is `none` where the random source fails, and the call panics then.
pub generate : BoundManager → Option Bytes → ℕ → SessionStore → Option (Bytes × SessionStore)
generate m none now s = none
generate m (some raw) now s =
    let id = hex_encode raw in
    some (
      id,
      record s {
        sessions =
            Maps.insert id
              (record { credential_hash = m.credential_hash; expires_at = now + s.ttl }) s.sessions;
      },
    )

pub data SessionError : Type 0 where
  unknown_session credential_mismatch : SessionError

-- The Boolean and the error that Validate and Terminate return.
abbrev pub Reply : Type 0
Reply = Bool × Option SessionError

validate_record :
    BoundManager → Bytes → ℕ → SessionStore → Option SessionRecord → Reply × SessionStore
validate_record m id now s none = ((false, some unknown_session), s)
validate_record m id now s (some rec) =
    if not (eq_bytes rec.credential_hash m.credential_hash)
    then ((false, some credential_mismatch), s)
    else if is_expired now rec
    then ((true, none), record s { sessions = Maps.remove id s.sessions })
    else ((false, none), s)

pub validate : BoundManager → Bytes → ℕ → SessionStore → Reply × SessionStore
unfolding validate_record
validate m id now s = validate_record m id now s (s.sessions id)

terminate_record : BoundManager → Bytes → SessionStore → Option SessionRecord → Reply × SessionStore
terminate_record m id s none = ((false, some unknown_session), s)
terminate_record m id s (some rec) =
    if not (eq_bytes rec.credential_hash m.credential_hash)
    then ((true, some credential_mismatch), s)
    else ((false, none), record s { sessions = Maps.remove id s.sessions })

pub terminate : BoundManager → Bytes → SessionStore → Reply × SessionStore
unfolding terminate_record
terminate m id s = terminate_record m id s (s.sessions id)
