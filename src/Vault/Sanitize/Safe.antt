-- ===== src/Vault/Sanitize/Safe.antt =====
-- What sanitizePath lets through: a path of plain components below the root of the vault.
use obsidian_mcp_server.Prelude.{
  ◌≡◌, ◌≢◌, refl, ap, sym, ◌∙◌, inl, inr, Bool, true, false, ◌||◌, Option, none, some, List, [],
  ◌∷◌, ◌++◌, arith, All, In, append-nil, All_zip, All_map,
}
use obsidian_mcp_server.Prelude.Exec.{ok}
use mathlib.Core.Bool.{false≢true}
use mathlib.Core.List.{reverse}
use obsidian_mcp_server.Strings.{Bytes, eq_bytes, eq_bytes_iff, split, join}
use obsidian_mcp_server.Strings.Split.{Lacks, split-join, split-join-append}
use obsidian_mcp_server.Vault.FilePath.{dot, clean_stack, is_abs, render_path, clean, join_path}
use obsidian_mcp_server.Vault.FilePath.Clean.{IsPlain, clean_stack_below, clean_stack_below_dot}
use obsidian_mcp_server.Vault.PathFilter.{
  PathFilter, internal_state_dir, is_internal_state, is_ignored, any_ignored, matches_any,
}
use obsidian_mcp_server.Vault.Sanitize.{
  safe_segment, all_safe, check_windows_safe, ignored_by, sanitize_path,
}
use obsidian_mcp_server.Vault.Sanitize.Components.{IsVaultRoot, sanitize_checks_lem, components}

-- No component of an allowed path is ignored, whichever way the path was written.
taken_not_ignored :
    (patterns parts cs : List Bytes)
    → any_ignored parts patterns ≡ false
    → All IsPlain cs
    → All (λ c. In c parts) cs
    → All (λ c. matches_any c patterns ≡ false) cs
taken_not_ignored patterns parts cs h plain taken =
    All_zip IsPlain (λ c. In c parts) (λ c. matches_any c patterns ≡ false) cs
      (λ c p i. passes parts c h p.0 i) plain taken
  where
    passes :
        (ps : List Bytes) (c : Bytes)
        → any_ignored ps patterns ≡ false
        → c ≢ []
        → In c ps
        → matches_any c patterns ≡ false
    passes [] c e n i = elim i [ ]
    passes (p ∷ ps) c e n (inl same) = unfold any_ignored in ground (arith, eq_bytes_iff p [])
    passes (p ∷ ps) c e n (inr i) = passes ps c (unfold any_ignored in ground arith) n i

all_safe-All : (cs : List Bytes) → all_safe cs ≡ true → All (λ c. safe_segment c ≡ true) cs
unfolding all_safe
all_safe-All [] h = tt
all_safe-All (c ∷ cs) h = (ground arith, all_safe-All cs (ground arith))

split_rendered :
    (cs : List Bytes) → cs ≢ [] → All (Lacks b'/') cs → split b'/' (render_path false cs) ≡ cs
split_rendered [] h l = absurd (h refl)
split_rendered (c ∷ cs) h l = split-join b'/' (c ∷ cs) h l

clean_rooted :
    (t : Bytes) → clean (b'/' ∷ t) ≡ b'/' ∷ join b'/' (reverse (clean_stack true [] (split b'/' t)))
unfolding clean clean_stack is_abs split eq_bytes
clean_rooted t = refl

join_path_lem :
    (root p : Bytes) (rs : List Bytes)
    → IsVaultRoot root rs
    → p ≢ []
    → join_path root p ≡ b'/' ∷ join b'/' (reverse (clean_stack true [] (rs ++ split b'/' p)))
join_path_lem root [] rs r ne = absurd (ne refl)
join_path_lem root (x ∷ xs) rs r ne =
    ap (λ s. join_path s (x ∷ xs)) r.renders
    ∙ unfold join_path in
      clean_rooted (join b'/' rs ++ b'/' ∷ x ∷ xs)
      ∙ ap (λ l. b'/' ∷ join b'/' (reverse (clean_stack true [] l)))
          (split-join-append b'/' rs (x ∷ xs) r.below r.parts)

rendered-ne-nil : (cs : List Bytes) → All IsPlain cs → render_path false cs ≢ []
unfolding join
rendered-ne-nil [] h e = cc
rendered-ne-nil ([] ∷ cs) h e = h.0.0 refl
rendered-ne-nil ((x ∷ c) ∷ []) h e = cc
rendered-ne-nil ((x ∷ c) ∷ d ∷ cs) h e = cc

split-dot : split b'/' dot ≡ dot ∷ []
unfolding split
split-dot = refl

-- Where a path of plain components leads, below the root.
absolute_below :
    (root : Bytes) (rs cs : List Bytes)
    → IsVaultRoot root rs
    → All IsPlain cs
    → All (Lacks b'/') cs
    → join_path root (render_path false cs) ≡ b'/' ∷ join b'/' (rs ++ cs)
absolute_below root rs [] r plain parts =
    join_path_lem root dot rs r (λ e. cc)
    ∙ ap (λ l. b'/' ∷ join b'/' l)
        (ap (λ l. reverse (clean_stack true [] (rs ++ l))) split-dot
          ∙ clean_stack_below_dot rs r.plain
          ∙ sym (append-nil rs))
absolute_below root rs (c ∷ cs) r plain parts =
    join_path_lem root (render_path false (c ∷ cs)) rs r (rendered-ne-nil (c ∷ cs) plain)
    ∙ ap (λ l. b'/' ∷ join b'/' l)
        (ap (λ l. reverse (clean_stack true [] (rs ++ l))) (split_rendered (c ∷ cs) (λ e. cc) parts)
          ∙ clean_stack_below rs (c ∷ cs) r.plain plain)

abbrev pub patterns_of : Option PathFilter → List Bytes
patterns_of none = []
patterns_of (some f) = f.ignore_patterns

-- A path that may be used: its components, below the root of the vault.
pub record IsAllowed (rs : List Bytes) (filter : Option PathFilter) (cleaned abs_path : Bytes)
    : Type 0 where
  pub components : List Bytes
  pub plain : All IsPlain components
  pub parts : All (Lacks b'/') components
  pub relative_form : cleaned ≡ render_path false components
  pub absolute_form : abs_path ≡ b'/' ∷ join b'/' (rs ++ components)
  pub windows_safe : All (λ c. safe_segment c ≡ true) components
  pub not_internal : (rest : List Bytes) → components ≢ internal_state_dir ∷ rest
  pub not_ignored : All (λ c. matches_any c (patterns_of filter) ≡ false) components

internal_first :
    (rest : List Bytes) → is_internal_state (render_path false (internal_state_dir ∷ rest)) ≡ true
unfolding is_internal_state join eq_bytes
internal_first [] = refl
internal_first (c ∷ rest) = refl

not_internal_components :
    (cs : List Bytes)
    → is_internal_state (render_path false cs) ≡ false
    → (rest : List Bytes) → cs ≢ internal_state_dir ∷ rest
not_internal_components cs h rest e =
    false≢true (sym h ∙ ap (λ l. is_internal_state (render_path false l)) e ∙ internal_first rest)

windows_components :
    (cs : List Bytes)
    → All (Lacks b'/') cs
    → check_windows_safe (render_path false cs) ≡ true
    → All (λ c. safe_segment c ≡ true) cs
windows_components [] l h = tt
windows_components (c ∷ cs) l h =
    all_safe-All (c ∷ cs)
      (ap all_safe (sym (split_rendered (c ∷ cs) (λ e. cc) l)) ∙ unfold check_windows_safe in h)

not_ignored_components :
    (filter : Option PathFilter) (path : Bytes) (cs : List Bytes)
    → ignored_by filter path ≡ false
    → All IsPlain cs
    → All (λ c. In c (split b'/' path)) cs
    → All (λ c. matches_any c (patterns_of filter) ≡ false) cs
not_ignored_components none path cs h plain taken =
    All_map IsPlain (λ c. matches_any c [] ≡ false) cs (λ c p. unfold matches_any in refl) plain
not_ignored_components (some f) path cs h plain taken =
    taken_not_ignored f.ignore_patterns (split b'/' path) cs (unfold is_ignored in h) plain taken

-- Every path that sanitizePath accepts, however it is written, is made of named entries below the
-- root of the vault: no component is empty, `.` or `..`, none is unsafe on Windows or ignored by the
-- filter, and the first is not the server's own directory. The root is in its shortest form, and is
-- not the root of the file system.
pub sanitize_path-IsAllowed :
    (root : Bytes) (rs : List Bytes) (filter : Option PathFilter) (path cleaned abs_path : Bytes)
    → IsVaultRoot root rs
    → sanitize_path root filter path ≡ ok (cleaned, abs_path)
    → IsAllowed rs filter cleaned abs_path
unfolding sanitize_path
sanitize_path-IsAllowed root rs filter path cleaned abs_path r h =
    let (passed, c, a) =
      sanitize_checks_lem root filter path (clean path) (join_path root (clean path)) cleaned
        abs_path h in
    let (cs, parts) = components path passed.relative passed.inside in
    record {
      components = cs;
      plain = parts.plain;
      parts = parts.parts;
      relative_form = c ∙ parts.renders;
      absolute_form =
          a
          ∙ ap (join_path root) parts.renders
          ∙ absolute_below root rs cs r parts.plain parts.parts;
      windows_safe = windows_components cs parts.parts (rw (← parts.renders) passed.windows);
      not_internal = not_internal_components cs (
          rw (← parts.renders)
            (or_left (is_internal_state (clean path)) (ignored_by filter path) passed.allowed));
      not_ignored =
          not_ignored_components filter path cs
            (or_right (is_internal_state (clean path)) (ignored_by filter path) passed.allowed)
            parts.plain parts.taken;
    }
  where
    or_left : (a b : Bool) → (a || b) ≡ false → a ≡ false
    or_left a b e = ground arith

    or_right : (a b : Bool) → (a || b) ≡ false → b ≡ false
    or_right a b e = ground arith
