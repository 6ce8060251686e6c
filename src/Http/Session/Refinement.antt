-- ===== src/Http/Session/Refinement.antt =====
-- The store against its history. The specification forgets that expired entries are deleted, by
-- `sweep` or by a validation that meets one: a session is a grant, and a grant has a last moment.
use obsidian_mcp_server.Prelude.{
  ℕ, ◌+◌, ◌≤◌, ◌≡◌, ◌≢◌, ◌↔◌, refl, sym, ◌∙◌, false, not, Option, none, some, List, [], ◌∷◌, ◌++◌,
  if◌then◌else◌, arith, Bool-cases, inl, inr, All, All-append,
}
use obsidian_mcp_server.Strings.{Bytes, eq_bytes, eq_bytes_iff}
use obsidian_mcp_server.Maps
use obsidian_mcp_server.Http.Session.{
  SessionRecord, SessionStore, new_session_store, is_expired, sweep, BoundManager, hex_encode,
  generate, validate_record, validate, terminate_record, terminate,
}

-- What happens to the store, by the managers of any credentials and by the background sweep.
pub data Event : Type 0 where
  generated : BoundManager → Bytes → ℕ → Event
  validated : BoundManager → Bytes → ℕ → Event
  terminated : BoundManager → Bytes → Event
  swept : ℕ → Event

stored_by : Option (Bytes × SessionStore) → SessionStore → SessionStore
stored_by none s = s
stored_by (some (id, s')) s = s'

unfoldable pub step : Event → SessionStore → SessionStore
unfolding stored_by
step (generated m raw now) s = stored_by (generate m (some raw) now s) s
step (validated m id now) s = (validate m id now s).1
step (terminated m id) s = (terminate m id s).1
step (swept now) s = sweep now s

-- The store behind a history, the latest event first.
unfoldable pub run : ℕ → List Event → SessionStore
run ttl [] = new_session_store ttl
run ttl (e ∷ history) = step e (run ttl history)

-- The specification: who holds the session `id`, and up to which time.
revoked_by : Bytes → Option SessionRecord → Option SessionRecord
revoked_by c none = none
revoked_by c (some g) = if eq_bytes g.credential_hash c then none else some g

pub grant : ℕ → List Event → Bytes → Option SessionRecord
unfolding revoked_by
grant ttl [] id = none
grant ttl (generated m raw now ∷ history) id =
    if eq_bytes (hex_encode raw) id
    then some (record { credential_hash = m.credential_hash; expires_at = now + ttl })
    else grant ttl history id
grant ttl (validated m j now ∷ history) id = grant ttl history id
grant ttl (terminated m j ∷ history) id =
    let g = grant ttl history id in if eq_bytes j id then revoked_by m.credential_hash g else g
grant ttl (swept now ∷ history) id = grant ttl history id

-- No clock reading of the event is later than `now`.
abbrev pub IsBefore : ℕ → Event → Type 0
IsBefore now (generated m raw t) = Unit
IsBefore now (validated m id t) = t ≤ now
IsBefore now (terminated m id) = Unit
IsBefore now (swept t) = t ≤ now

-- An entry as a validation at `now` sees it.
abbrev live : ℕ → Option SessionRecord → Option SessionRecord
live now o = Maps.keep_entry (λ rec. not (is_expired now rec)) o

ttl-step : (e : Event) (s : SessionStore) → (step e s).ttl ≡ s.ttl
unfolding step generate validate terminate sweep
ttl-step (generated m raw now) s = refl
ttl-step (validated m id now) s = ground arith
ttl-step (terminated m id) s = ground arith
ttl-step (swept now) s = refl

pub ttl-run : (ttl : ℕ) (history : List Event) → (run ttl history).ttl ≡ ttl
unfolding run
ttl-run ttl [] = refl
ttl-run ttl (e ∷ history) = ttl-step e (run ttl history) ∙ ttl-run ttl history

validate-live :
    (m : BoundManager) (j id : Bytes) (t now : ℕ) (s : SessionStore)
    → t ≤ now
    → live now ((validate m j t s).1.sessions id) ≡ live now (s.sessions id)
unfolding validate
validate-live m j id t now s h = elim (Bool-cases (eq_bytes j id)) [
  | inl same ↦ rw (← (eq_bytes_iff j id).0 same) (ground (arith, eq_bytes_iff j j))
  | inr other ↦ ground (arith, other)
]

sweep-live :
    (id : Bytes) (t now : ℕ) (s : SessionStore)
    → t ≤ now
    → live now ((sweep t s).sessions id) ≡ live now (s.sessions id)
unfolding sweep
sweep-live id t now s h = ground arith

terminate_record-live :
    (m : BoundManager) (id : Bytes) (now : ℕ) (s : SessionStore) (o g : Option SessionRecord)
    → s.sessions id ≡ o
    → live now o ≡ live now g
    → live now ((terminate_record m id s o).1.sessions id)
      ≡ live now (revoked_by m.credential_hash g)
unfolding terminate_record revoked_by
terminate_record-live m id now s none none e h = ground arith
terminate_record-live m id now s none (some g) e h = ground arith
terminate_record-live m id now s (some r) none e h = ground (arith, eq_bytes_iff id id)
terminate_record-live m id now s (some r) (some g) e h = ground (
  arith,
  eq_bytes_iff id id,
  eq_bytes_iff r.credential_hash m.credential_hash,
  eq_bytes_iff g.credential_hash m.credential_hash,
)

terminate-live :
    (m : BoundManager) (j id : Bytes) (now : ℕ) (s : SessionStore) (g : Option SessionRecord)
    → live now (s.sessions id) ≡ live now g
    → live now ((terminate m j s).1.sessions id)
      ≡ live now (if eq_bytes j id then revoked_by m.credential_hash g else g)
unfolding terminate revoked_by
terminate-live m j id now s g h = elim (Bool-cases (eq_bytes j id)) [
  | inl same ↦
      rw (same, (eq_bytes_iff j id).0 same)
        (terminate_record-live m id now s (s.sessions id) g refl h)
  | inr other ↦ ground (arith, other)
]

generate-live :
    (m : BoundManager) (raw id : Bytes) (ttl t now : ℕ) (s : SessionStore)
    (g : Option SessionRecord)
    → s.ttl ≡ ttl
    → live now (s.sessions id) ≡ live now g
    → live now ((stored_by (generate m (some raw) t s) s).sessions id)
      ≡ live now (
          if eq_bytes (hex_encode raw) id
          then some (record { credential_hash = m.credential_hash; expires_at = t + ttl })
          else g)
unfolding generate stored_by
generate-live m raw id ttl t now s g e h = ground arith

live-run :
    (ttl now : ℕ) (history : List Event) (id : Bytes)
    → All (IsBefore now) history
    → live now ((run ttl history).sessions id) ≡ live now (grant ttl history id)
unfolding run grant step
live-run ttl now [] id h = refl
live-run ttl now (generated m raw t ∷ history) id h =
    generate-live m raw id ttl t now (run ttl history) (grant ttl history id) (ttl-run ttl history)
      (live-run ttl now history id h.1)
live-run ttl now (validated m j t ∷ history) id h =
    validate-live m j id t now (run ttl history) h.0 ∙ live-run ttl now history id h.1
live-run ttl now (terminated m j ∷ history) id h =
    terminate-live m j id now (run ttl history) (grant ttl history id)
      (live-run ttl now history id h.1)
live-run ttl now (swept t ∷ history) id h =
    sweep-live id t now (run ttl history) h.0 ∙ live-run ttl now history id h.1

abbrev pub Accepts : ℕ → List Event → Bytes → Bytes → ℕ → Type 0
Accepts ttl history c id now =
    (validate (record { credential_hash = c }) id now (run ttl history)).0 ≡ (false, none)

accepted_record :
    (c id : Bytes) (now : ℕ) (s : SessionStore) (o : Option SessionRecord)
    → ((validate_record (record { credential_hash = c }) id now s o).0 ≡ (false, none))
      ↔ ((r : SessionRecord) × (live now o ≡ some r) × (r.credential_hash ≡ c))
unfolding validate_record
accepted_record c id now s none = (λ h. cc, λ h. cc (h.1))
accepted_record c id now s (some r) = (
  λ h. (
    r,
    ground (arith, eq_bytes_iff r.credential_hash c),
    ground (arith, eq_bytes_iff r.credential_hash c),
  ),
  λ h. ground (arith, eq_bytes_iff r.credential_hash c),
)

live-some :
    (now : ℕ) (o : Option SessionRecord) (r : SessionRecord)
    → (live now o ≡ some r) ↔ ((o ≡ some r) × (now ≤ r.expires_at))
live-some now none r = (λ h. cc, λ h. cc (h.0))
live-some now (some g) r = (λ h. ground arith, λ h. ground arith)

-- Whatever happened before, through whichever managers, a validation at `now` under the credential
-- `c` accepts the session `id` exactly if the last grant of `id` that its holder has not ended
-- belongs to `c` and has not run out. So neither the sweep nor a validation that deletes an expired
-- entry can be seen by it. No earlier validation or sweep read a later clock than `now`.
pub Accepts-iff_grant :
    (ttl : ℕ) (history : List Event) (c id : Bytes) (now : ℕ)
    → All (IsBefore now) history
    → Accepts ttl history c id now ↔ (
        (r : SessionRecord) × (grant ttl history id ≡ some r)
        × (r.credential_hash ≡ c)
        × (now ≤ r.expires_at))
unfolding validate
Accepts-iff_grant ttl history c id now h =
    let seen = accepted_record c id now (run ttl history) ((run ttl history).sessions id) in
    let same = live-run ttl now history id h in
    (
      λ a.
          let (r, l, own) = seen.0 a in
          let both = (live-some now (grant ttl history id) r).0 (sym same ∙ l) in
          (r, both.0, own, both.1),
      λ (r, g, own, t). seen.1 (r, same ∙ (live-some now (grant ttl history id) r).1 (g, t), own),
    )

-- An event of another credential, or one that cannot change who holds `id`.
abbrev pub IsForeign : Bytes → Bytes → Event → Type 0
IsForeign c id (generated m raw t) = hex_encode raw ≢ id
IsForeign c id (validated m j t) = Unit
IsForeign c id (terminated m j) = m.credential_hash ≢ c
IsForeign c id (swept t) = Unit

grant-foreign :
    (ttl : ℕ) (others history : List Event) (id : Bytes) (r : SessionRecord)
    → All (IsForeign r.credential_hash id) others
    → grant ttl history id ≡ some r
    → grant ttl (others ++ history) id ≡ some r
unfolding grant revoked_by
grant-foreign ttl [] history id r f g = g
grant-foreign ttl (generated m raw t ∷ others) history id r f g =
    ground (arith, eq_bytes_iff (hex_encode raw) id, grant-foreign ttl others history id r f.1 g)
grant-foreign ttl (validated m j t ∷ others) history id r f g =
    grant-foreign ttl others history id r f.1 g
grant-foreign ttl (terminated m j ∷ others) history id r f g = ground (
  arith,
  eq_bytes_iff r.credential_hash m.credential_hash,
  grant-foreign ttl others history id r f.1 g,
)
grant-foreign ttl (swept t ∷ others) history id r f g = grant-foreign ttl others history id r f.1 g

-- A session that is accepted at `now` is still accepted then after any further events that are
-- validations, sweeps, terminations by other credentials, and grants of other sessions: no other
-- credential can end it. No validation or sweep reads a later clock than `now`.
pub Accepts-after_foreign :
    (ttl : ℕ) (others history : List Event) (c id : Bytes) (now : ℕ)
    → All (IsBefore now) others
    → All (IsBefore now) history
    → All (IsForeign c id) others
    → Accepts ttl history c id now
    → Accepts ttl (others ++ history) c id now
Accepts-after_foreign ttl others history c id now ho hh f a =
    let (r, g, own, t) = (Accepts-iff_grant ttl history c id now hh).0 a in
    (Accepts-iff_grant ttl (others ++ history) c id now
        (All-append (IsBefore now) others history ho hh)).1
      (r, grant-foreign ttl others history id r (rw own f) g, own, t)
