-- ===== src/Http/Session/Tests.antt =====
-- Runs of the session store, and instances of its theorems.
use obsidian_mcp_server.Prelude.{◌≤◌, ◌≡◌, ◌↔◌, refl, true, false, none, some, List, [], ◌∷◌, arith}
use obsidian_mcp_server.Strings.{Bytes, codes, eq_bytes}
use obsidian_mcp_server.Http.Session.{
  SessionRecord, BoundManager, hex_encode, validate, terminate, generate, sweep,
  credential_mismatch, unknown_session,
}
use obsidian_mcp_server.Http.Session.Refinement.{
  Event, generated, terminated, swept, run, step, grant, Accepts, Accepts-iff_grant,
}

abbrev ann : BoundManager
ann = record { credential_hash = codes "a" }

abbrev bob : BoundManager
bob = record { credential_hash = codes "b" }

abbrev sid : Bytes
sid = codes "0f"

abbrev history : List Event
history = swept 90 ∷ terminated bob sid ∷ generated ann (15 ∷ []) 10 ∷ []

ann_accepted : Accepts 100 history (codes "a") sid 110
unfolding run step generate validate terminate sweep hex_encode eq_bytes
ann_accepted = refl

ann_expired : (validate ann sid 111 (run 100 history)).0 ≡ (true, none)
unfolding run step generate validate terminate sweep hex_encode eq_bytes
ann_expired = refl

bob_rejected : (validate bob sid 20 (run 100 history)).0 ≡ (false, some credential_mismatch)
unfolding run step generate validate terminate sweep hex_encode eq_bytes
bob_rejected = refl

swept_away : (validate ann sid 120 (sweep 111 (run 100 history))).0 ≡ (false, some unknown_session)
unfolding run step generate validate terminate sweep hex_encode eq_bytes
swept_away = refl

Accepts-iff_grant_example : Accepts 100 history (codes "a") sid 110 ↔ (
    (r : SessionRecord) × (grant 100 history sid ≡ some r)
    × (r.credential_hash ≡ codes "a")
    × (110 ≤ r.expires_at))
Accepts-iff_grant_example =
    Accepts-iff_grant 100 history (codes "a") sid 110 (omega arith, (tt, (tt, tt)))
