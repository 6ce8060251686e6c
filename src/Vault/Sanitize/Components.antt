-- ===== src/Vault/Sanitize/Components.antt =====
-- The path that sanitizePath cleans, read as components.
use obsidian_mcp_server.Prelude.{
  ◌≡◌, ◌≢◌, refl, sym, ◌∙◌, ◌⊎◌, inl, inr, true, false, ◌||◌, Option, List, [], ◌∷◌, arith, All, In,
  Bool-cases, All_zip, All_of_In,
}
use obsidian_mcp_server.Prelude.Exec.{ok}
use mathlib.Core.Bool.{false≢true}
use mathlib.Core.List.{reverse}
use obsidian_mcp_server.Strings.{Bytes, codes, eq_bytes, split, join, contains_byte, has_prefix}
use obsidian_mcp_server.Strings.Split.{Lacks, split-Lacks}
use obsidian_mcp_server.Vault.FilePath.{dot_dot, clean_stack, is_abs, render_path, clean}
use obsidian_mcp_server.Vault.FilePath.Clean.{
  IsPlain, clean_stack_normal, clean_stack-All, All-reverse, normal_cases, LeadsUp,
}
use obsidian_mcp_server.Vault.PathFilter.{PathFilter, is_internal_state}
use obsidian_mcp_server.Vault.Sanitize.{
  check_windows_safe, is_under_root, ignored_by, sanitize_checks,
}

-- The root of a vault: an absolute path in its shortest form, and not the root of the file system.
pub record IsVaultRoot (root : Bytes) (rs : List Bytes) : Type 0 where
  pub renders : root ≡ b'/' ∷ join b'/' rs
  pub below : rs ≢ []
  pub plain : All IsPlain rs
  pub parts : All (Lacks b'/') rs

-- The components of a relative path in its shortest form.
pub record Components (path : Bytes) (cs : List Bytes) : Type 0 where
  pub renders : clean path ≡ render_path false cs
  pub plain : All IsPlain cs
  pub parts : All (Lacks b'/') cs
  pub taken : All (λ c. In c (split b'/' path)) cs

-- What the checks of sanitizePath establish, one after the other.
pub record Passed (root : Bytes) (filter : Option PathFilter) (path cleaned abs_path : Bytes)
    : Type 0 where
  pub no_zero : contains_byte 0 path ≡ false
  pub relative : is_abs cleaned ≡ false
  pub inside : (eq_bytes cleaned dot_dot || has_prefix cleaned (codes "../")) ≡ false
  pub windows : check_windows_safe cleaned ≡ true
  pub under : is_under_root root abs_path ≡ true
  pub allowed : (is_internal_state cleaned || ignored_by filter path) ≡ false

pub sanitize_checks_lem :
    (root : Bytes) (filter : Option PathFilter) (path cleaned abs_path c a : Bytes)
    → sanitize_checks root filter path cleaned abs_path ≡ ok (c, a)
    → Passed root filter path cleaned abs_path × (c ≡ cleaned) × (a ≡ abs_path)
unfolding sanitize_checks
sanitize_checks_lem root filter path cleaned abs_path c a h = (
  record {
    no_zero = ground arith;
    relative = ground arith;
    inside = ground arith;
    windows = ground arith;
    under = ground arith;
    allowed = ground arith;
  },
  ground arith,
  ground arith,
)

clean_relative : (path : Bytes) → is_abs (clean path) ≡ false → is_abs path ≡ false
unfolding clean
clean_relative path h = elim (Bool-cases (is_abs path)) [
  | inl rooted ↦ absurd (false≢true (sym h ∙ rw rooted (unfold is_abs in refl)))
  | inr e ↦ e
]

LeadsUp-prefix :
    (cs : List Bytes)
    → LeadsUp cs
    → (eq_bytes (render_path false cs) dot_dot || has_prefix (render_path false cs) (codes "../"))
      ≡ true
unfolding join has_prefix eq_bytes
LeadsUp-prefix cs ([], e) = rw e refl
LeadsUp-prefix cs (c ∷ rest, e) = rw e refl

pub components :
    (path : Bytes)
    → is_abs (clean path) ≡ false
    → (eq_bytes (clean path) dot_dot || has_prefix (clean path) (codes "../")) ≡ false
    → (cs : List Bytes) × Components path cs
components path rel inside =
    let parts = split b'/' path in
    let stack = clean_stack false [] parts in
    let shape : clean path ≡ render_path false (reverse stack) =
      clean_form path (clean_relative path rel) in
    elim (normal_cases stack (clean_stack_normal false [] parts tt)) [
      | inl plain ↦ (
        reverse stack,
        record {
          renders = shape;
          plain = All-reverse IsPlain stack plain;
          parts = All-reverse (Lacks b'/') stack (
              clean_stack-All (Lacks b'/') (unfold contains_byte in refl) false [] parts tt
                (split-Lacks b'/' path));
          taken =
              All-reverse (λ c. In c parts) stack
                (All_zip IsPlain (λ c. (c ≡ dot_dot) ⊎ In c parts) (λ c. In c parts) stack plain_In
                  plain
                  (clean_stack-All (λ c. (c ≡ dot_dot) ⊎ In c parts) (inl refl) false [] parts tt
                    (All_of_In (λ c. (c ≡ dot_dot) ⊎ In c parts) parts (λ c i. inr i))));
        },
      )
      | inr up ↦ absurd (false≢true (sym inside ∙ rw shape (LeadsUp-prefix (reverse stack) up)))
    ]
  where
    clean_form :
        (path : Bytes)
        → is_abs path ≡ false
        → clean path ≡ render_path false (reverse (clean_stack false [] (split b'/' path)))
    clean_form path e = unfold clean in rw e refl

    plain_In :
        (c : Bytes) → IsPlain c → (c ≡ dot_dot) ⊎ In c (split b'/' path) → In c (split b'/' path)
    plain_In c p (inl e) = absurd (p.2 e)
    plain_In c p (inr i) = i
