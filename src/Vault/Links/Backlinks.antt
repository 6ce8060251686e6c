-- ===== src/Vault/Links/Backlinks.antt =====
-- internal/vault/links.go, GetBacklinks: which lines are reported.
use obsidian_mcp_server.Prelude.{
  ℕ, zero, suc, ◌+◌, ◌≡◌, ◌≢◌, ◌↔◌, ◌⊎◌, not, ◌&&◌, subst, length, Bool-cases, inl, inr, refl, sym,
  ap, ◌∙◌, Bool, true, false, some, List, [], ◌∷◌, if◌then◌else◌, In, get_elem?, arith,
}
use obsidian_mcp_server.Strings.{Bytes, eq_bytes, eq_bytes_iff, eq_bytes_ne}
use obsidian_mcp_server.Strings.Space.{trim_space}
use obsidian_mcp_server.Vault.Links.{
  Backlink, links_to, note_backlinks, is_member, is_match, any_match, no_ext, link_targets,
}

abbrev pub backlink : Bytes → ℕ → Bytes → Backlink
backlink rel i line = record { path = rel; line = i; snippet = trim_space line }

-- The same with the test of the code.
unfoldable IsMarked : List Bytes → Bytes → ℕ → List Bytes → Backlink → Type 0
IsMarked targets rel i lines b =
    (j : ℕ) × (line : Bytes) × (get_elem? lines j ≡ some line)
    × (links_to targets line ≡ true)
    × (b ≡ backlink rel (i + (j + 1)) line)

note_backlinks_to :
    (targets : List Bytes) (rel : Bytes) (i : ℕ) (lines : List Bytes) (b : Backlink)
    → In b (note_backlinks targets rel i lines)
    → IsMarked targets rel i lines b
unfolding note_backlinks IsMarked
note_backlinks_to targets rel i [] b h = elim h [ ]
note_backlinks_to targets rel i (line ∷ lines) b h =
    at (links_to targets line) refl h (note_backlinks_to targets rel (i + 1) lines b)
  where
    later : IsMarked targets rel (i + 1) lines b → IsMarked targets rel i (line ∷ lines) b
    later (j, l, at_j, links, e) =
        (suc j, l, at_j, links, e ∙ ap (λ n. backlink rel n l) (omega arith))

    at :
        (c : Bool)
        → links_to targets line ≡ c
        → In b (
            if c
            then backlink rel (i + 1) line ∷ note_backlinks targets rel (i + 1) lines
            else note_backlinks targets rel (i + 1) lines)
        → (In b (note_backlinks targets rel (i + 1) lines) → IsMarked targets rel (i + 1) lines b)
        → IsMarked targets rel i (line ∷ lines) b
    at true e (inl q) more = (0, line, refl, e, q ∙ ap (λ n. backlink rel n line) (omega arith))
    at true e (inr q) more = later (more q)
    at false e q more = later (more q)

note_backlinks_back :
    (targets : List Bytes) (rel : Bytes) (i : ℕ) (lines : List Bytes) (b : Backlink)
    → IsMarked targets rel i lines b
    → In b (note_backlinks targets rel i lines)
unfolding note_backlinks IsMarked
note_backlinks_back targets rel i [] b (j, line, e, links, q) = cc
note_backlinks_back targets rel i (l ∷ lines) b (zero, line, e, links, q) =
    let same : l ≡ line = cc in
    rw (ap (links_to targets) same ∙ links)
      (inl (q ∙ ap (λ n. backlink rel n line) (omega arith) ∙ ap (backlink rel (i + 1)) (sym same)))
note_backlinks_back targets rel i (l ∷ lines) b (suc j, line, e, links, q) =
    let more =
      note_backlinks_back targets rel (i + 1) lines b
        (j, line, e, links, q ∙ ap (λ n. backlink rel n line) (omega arith)) in
    at (links_to targets l) more
  where
    at :
        (c : Bool)
        → In b (note_backlinks targets rel (i + 1) lines)
        → In b (
            if c
            then backlink rel (i + 1) l ∷ note_backlinks targets rel (i + 1) lines
            else note_backlinks targets rel (i + 1) lines)
    at true h = inr h
    at false h = h

is_member_iff : (t : Bytes) (us : List Bytes) → (is_member t us ≡ true) ↔ In t us
unfolding is_member
is_member_iff t [] = (λ h. cc, λ h. elim h [ ])
is_member_iff t (u ∷ us) = elim (Bool-cases (eq_bytes u t)) [
  | inl e ↦ rw e (λ h. inl (sym ((eq_bytes_iff u t).0 e)), λ h. refl)
  | inr e ↦ rw e (
    λ h. inr ((is_member_iff t us).0 h),
    λ h. elim h [
      | inl k ↦ ground (arith, e, eq_bytes_iff u t, sym k)
      | inr k ↦ (is_member_iff t us).1 k
    ],
  )
]

-- A link target that refers to one of the targets, as it is or less its extension.
abbrev pub RefersTo : List Bytes → Bytes → Type 0
RefersTo targets t = In t targets ⊎ In (no_ext t) targets

pub is_match_iff :
    (targets : List Bytes) (t : Bytes) → (is_match targets t ≡ true) ↔ RefersTo targets t
unfolding is_match
is_match_iff targets t = (
  λ h. elim (Bool-cases (is_member t targets)) [
    | inl e ↦ inl ((is_member_iff t targets).0 e)
    | inr e ↦ inr ((is_member_iff (no_ext t) targets).0 (ground (arith, h, e)))
  ],
  λ h. elim h [
    | inl k ↦ ground (arith, (is_member_iff t targets).1 k)
    | inr k ↦ ground (arith, (is_member_iff (no_ext t) targets).1 k)
  ],
)

-- A list of link targets, one of which is not empty and refers to one of the targets.
abbrev AnyRefers : List Bytes → List Bytes → Type 0
AnyRefers targets ts = (t : Bytes) × In t ts × (t ≢ []) × RefersTo targets t

any_match_to : (targets ts : List Bytes) → any_match targets ts ≡ true → AnyRefers targets ts
unfolding any_match
any_match_to targets [] h = cc
any_match_to targets (t ∷ ts) h = elim (Bool-cases (not (eq_bytes t []) && is_match targets t)) [
  | inl e ↦ (
    t,
    inl refl,
    λ z. ground (arith, e, eq_bytes_iff t [], z),
    (is_match_iff targets t).0 (ground (arith, e)),
  )
  | inr e ↦ let r = any_match_to targets ts (ground (arith, h, e)) in (r.0, inr r.1, r.2, r.3)
]

any_match_back : (targets ts : List Bytes) → AnyRefers targets ts → any_match targets ts ≡ true
unfolding any_match
any_match_back targets [] (t, h, n, r) = elim h [ ]
any_match_back targets (u ∷ ts) (t, inl e, n, r) = ground (
  arith,
  eq_bytes_ne u [] (λ z. n (e ∙ z)),
  (is_match_iff targets u).1 (subst (RefersTo targets) e r),
)
any_match_back targets (u ∷ ts) (t, inr h, n, r) =
    ground (arith, any_match_back targets ts (t, h, n, r))

-- A line with a link to one of the targets: of the links that the expression finds in it one is not
-- empty and refers to it.
abbrev pub HasLinkTo : List Bytes → Bytes → Type 0
HasLinkTo targets line = AnyRefers targets (link_targets (length line) line)

-- A backlink that a line of the note gives, the first line being the one numbered `i + 1`.
unfoldable pub IsBacklink : List Bytes → Bytes → ℕ → List Bytes → Backlink → Type 0
IsBacklink targets rel i lines b =
    (j : ℕ) × (line : Bytes) × (get_elem? lines j ≡ some line)
    × HasLinkTo targets line
    × (b ≡ backlink rel (i + (j + 1)) line)

-- Of the lines that the scanner gave of a note, the backlinks are exactly those with a link, not empty,
-- whose target is one of the targets or is one less its extension; each has its number, from 1, and its
-- text less the white space around it.
pub note_backlinks_iff :
    (targets : List Bytes) (rel : Bytes) (lines : List Bytes) (b : Backlink)
    → In b (note_backlinks targets rel 0 lines) ↔ IsBacklink targets rel 0 lines b
unfolding IsBacklink IsMarked links_to
note_backlinks_iff targets rel lines b = (
  λ h.
      let (j, line, at_j, links, e) = note_backlinks_to targets rel 0 lines b h in
      (j, line, at_j, any_match_to targets (link_targets (length line) line) links, e),
  λ (j, line, at_j, links, e).
      note_backlinks_back targets rel 0 lines b
        (j, line, at_j, any_match_back targets (link_targets (length line) line) links, e),
)
