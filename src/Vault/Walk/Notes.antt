-- ===== src/Vault/Walk/Notes.antt =====
-- internal/vault/walk.go, WalkNotes: which notes the walk comes to.
use obsidian_mcp_server.Prelude.{
  ℕ, ◌+◌, ◌≡◌, ◌↔◌, ◌⊎◌, inl, inr, refl, sym, ap, ◌∙◌, subst, Bool, true, false, not, ◌&&◌, Option,
  List, [], ◌∷◌, if◌then◌else◌, Any, In, Any-append, Any-left, Any-right, arith,
}
use mathlib.Core.Bool.{false≢true}
use obsidian_mcp_server.Prelude.Exec.{Exec, Result, ok, err}
use obsidian_mcp_server.Strings.{Bytes}
use obsidian_mcp_server.Vault.FilePath.{join_path}
use obsidian_mcp_server.Vault.PathFilter.{PathFilter}
use obsidian_mcp_server.Vault.Guards.{Service}
use obsidian_mcp_server.Vault.List.{is_hidden}
use obsidian_mcp_server.Vault.Walk.{
  Node, Nodes, file, folder, unreadable, end, node, Visit, visit_of, below, entered, visits,
  visits_of, extension_allowed, is_note, Stop, walk_visits, ended, walk_notes,
}

-- A file of the tree that no hidden directory holds, by its path below `dir`.
unfoldable mutual
  pub HoldsIn : Option PathFilter → Bytes → Bytes → Nodes → Type 0
  HoldsIn filter rel dir end = ⊥
  HoldsIn filter rel dir (node n ns) = HoldsAt filter rel dir n ⊎ HoldsIn filter rel dir ns

  pub HoldsAt : Option PathFilter → Bytes → Bytes → Node → Type 0
  HoldsAt filter rel dir (file name) = below dir name ≡ rel
  HoldsAt filter rel dir (unreadable name) = ⊥
  HoldsAt filter rel dir (folder name ns) =
      (is_hidden filter (below dir name) ≡ false) × HoldsIn filter rel (below dir name) ns

module _ (to_lower : Bytes → Bytes) (v : Service) (rel : Bytes) where
  -- A path that a note may have: not hidden, and with an allowed extension.
  abbrev pub Passes : Type 0
  Passes =
      (is_hidden v.filter rel ≡ false)
      × (extension_allowed to_lower v.filter (join_path v.root rel) ≡ true)

  abbrev Handed : Visit → Type 0
  Handed w = (w.rel ≡ rel) × (is_note to_lower v.filter w ≡ true)

  entered_to :
      (hidden : Bool) (vs : List Visit)
      → Any Handed (entered hidden vs)
      → (hidden ≡ false) × Any Handed vs
  entered_to true vs h = elim h [ ]
  entered_to false vs h = (refl, h)

  entered_back :
      (hidden : Bool) (vs : List Visit)
      → hidden ≡ false
      → Any Handed vs
      → Any Handed (entered hidden vs)
  entered_back true vs e h = cc
  entered_back false vs e h = h

  abbrev PassesAt : Bytes → Type 0
  PassesAt r =
      (is_hidden v.filter r ≡ false)
      × (extension_allowed to_lower v.filter (join_path v.root r) ≡ true)

  never :
      (dir name : Bytes) {A : Type 0}
      → Any Handed (
          entered
            (is_hidden v.filter (below dir name))
            (visit_of v.root (below dir name) true true ∷ []))
      → A
  unfolding is_note
  never dir name h = elim (entered_to (is_hidden v.filter (below dir name)) _ h).1 [
    | inl k ↦ absurd (false≢true k.1)
    | inr k ↦ absurd k
  ]

  passes_of : {h e : Bool} → (not h && e) ≡ true → (h ≡ false) × (e ≡ true)
  passes_of k = ground arith

  mutual
    unfolding visits HoldsIn is_note

    visits_to :
        (dir : Bytes) (ns : Nodes)
        → Any Handed (visits v.root v.filter dir ns)
        → HoldsIn v.filter rel dir ns × Passes
    visits_to dir end h = elim h [ ]
    visits_to dir (node n ns) h =
        elim (Any-append Handed (visits_of v.root v.filter dir n) (visits v.root v.filter dir ns)
          h) [
            | inl k ↦ let r = visits_of_to dir n k in (inl r.0, r.1)
            | inr k ↦ let r = visits_to dir ns k in (inr r.0, r.1)
          ]

    visits_of_to :
        (dir : Bytes) (n : Node)
        → Any Handed (visits_of v.root v.filter dir n)
        → HoldsAt v.filter rel dir n × Passes
    visits_of_to dir (file name) (inl h) = (h.0, subst PassesAt h.0 (passes_of h.1))
    visits_of_to dir (file name) (inr h) = elim h [ ]
    visits_of_to dir (unreadable name) (inl h) = absurd (false≢true h.1)
    visits_of_to dir (unreadable name) (inr h) = never dir name h
    visits_of_to dir (folder name ns) (inl h) = absurd (false≢true h.1)
    visits_of_to dir (folder name ns) (inr h) =
        let e =
          entered_to (is_hidden v.filter (below dir name))
            (visits v.root v.filter (below dir name) ns) h in
        let r = visits_to (below dir name) ns e.1 in ((e.0, r.0), r.1)

  passed : {h e : Bool} → h ≡ false → e ≡ true → (not h && e) ≡ true
  passed k l = ground arith

  mutual
    unfolding visits HoldsIn is_note

    visits_back :
        (dir : Bytes) (ns : Nodes)
        → HoldsIn v.filter rel dir ns
        → Passes
        → Any Handed (visits v.root v.filter dir ns)
    visits_back dir end h p = elim h [ ]
    visits_back dir (node n ns) (inl h) p =
        Any-left Handed (visits_of v.root v.filter dir n) (visits v.root v.filter dir ns)
          (visits_of_back dir n h p)
    visits_back dir (node n ns) (inr h) p =
        Any-right Handed (visits_of v.root v.filter dir n) (visits v.root v.filter dir ns)
          (visits_back dir ns h p)

    visits_of_back :
        (dir : Bytes) (n : Node)
        → HoldsAt v.filter rel dir n
        → Passes
        → Any Handed (visits_of v.root v.filter dir n)
    visits_of_back dir (file name) h p = let q = subst PassesAt (sym h) p in inl (h, passed q.0 q.1)
    visits_of_back dir (unreadable name) h p = elim h [ ]
    visits_of_back dir (folder name ns) h p = inr (
        entered_back (is_hidden v.filter (below dir name))
          (visits v.root v.filter (below dir name) ns) h.0 (visits_back (below dir name) ns h.1 p))

-- A function that keeps the paths that it is given, the last first.
abbrev pub collect : Bytes → Bytes → Exec (List Bytes) Stop (Unit {0})
collect rel abs s = (ok tt, rel ∷ s)

module _ (handed : Visit → Bool) (rel : Bytes) where
  abbrev Kept : Visit → Type 0
  Kept w = (w.rel ≡ rel) × (handed w ≡ true)

  Collects : List Visit → List Bytes → Result Stop (Unit {0}) × List Bytes → Type 0
  Collects vs s out = (out.0 ≡ ok tt) × (In rel out.1 ↔ (Any Kept vs ⊎ In rel s))

  collects :
      (i : ℕ) (vs : List Visit) (s : List Bytes)
      → Collects vs s (walk_visits (λ _. false) handed collect i vs s)
  unfolding walk_visits Collects
  collects i [] s = (refl, (λ h. inr h, λ h. elim h [ inl e ↦ absurd e | inr k ↦ k ]))
  collects i (w ∷ vs) s = pass (handed w) refl (collects (i + 1) vs)
    where
      pass :
          (b : Bool)
          → handed w ≡ b
          → ((s : List Bytes)
              → Collects vs s (walk_visits (λ _. false) handed collect (i + 1) vs s))
          → Collects (w ∷ vs) s (
              (if b
                  then (λ s. walk_visits (λ _. false) handed collect (i + 1) vs (w.rel ∷ s))
                  else walk_visits (λ _. false) handed collect (i + 1) vs)
                s)
      pass true e later =
          let r = later (w.rel ∷ s) in
          (
            r.0,
            (
              λ h. elim (r.1.0 h) [
                | inl k ↦ inl (inr k)
                | inr k ↦ elim k [ inl q ↦ inl (inl (sym q, e)) | inr q ↦ inr q ]
              ],
              λ h. r.1.1 (elim h [
                | inl k ↦ elim k [ inl q ↦ inr (inl (sym q.0)) | inr q ↦ inl q ]
                | inr k ↦ inr (inr k)
              ]),
            ),
          )
      pass false e later =
          let r = later s in
          (
            r.0,
            (
              λ h. elim (r.1.0 h) [ inl k ↦ inl (inr k) | inr k ↦ inr k ],
              λ h. r.1.1 (elim h [
                | inl k ↦ elim k [ inl q ↦ absurd (false≢true (sym e ∙ q.1)) | inr q ↦ inl q ]
                | inr k ↦ inr k
              ]),
            ),
          )

ended_ok : (o : Result Stop (Unit {0}) × List Bytes) → o.0 ≡ ok tt → ended o ≡ (ok tt, o.1)
ended_ok (ok u, l) h = refl
ended_ok (err e, l) h = cc

-- A walk that is not cancelled and whose function does not stop it comes to exactly the notes of the
-- tree: the files that no hidden directory holds, that are not hidden, and whose extension is allowed.
pub walk_notes_iff :
    (to_lower : Bytes → Bytes) (v : Service) (tree : Nodes) (rel : Bytes)
    → ((walk_notes to_lower v (λ _. false) (ok tree) collect []).0 ≡ ok tt)
      × (In rel (walk_notes to_lower v (λ _. false) (ok tree) collect []).1
          ↔ (HoldsIn v.filter rel [] tree × Passes to_lower v rel))
unfolding walk_notes Collects
walk_notes_iff to_lower v tree rel =
    let all = visits v.root v.filter [] tree in
    let handed = is_note to_lower v.filter in
    let r = collects handed rel 1 all [] in
    let done = ended_ok (walk_visits (λ _. false) handed collect 1 all []) r.0 in
    (
      ap (λ o. o.0) done,
      (
        λ h. elim (r.1.0 (subst (λ o. In rel o.1) done h)) [
          | inl k ↦ visits_to to_lower v rel [] tree k
          | inr k ↦ absurd k
        ],
        λ h.
            subst (λ o. In rel o.1) (sym done)
              (r.1.1 (inl (visits_back to_lower v rel [] tree h.0 h.1))),
      ),
    )
