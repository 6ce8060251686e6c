-- ===== src/Vault/Replace/Effect.antt =====
-- internal/vault/replace.go, ReplaceInNote: what a successful replacement did.
use obsidian_mcp_server.Prelude.{◌≡◌, Bool, length}
use obsidian_mcp_server.Prelude.Exec.{ok}
use obsidian_mcp_server.Prelude.Int.{ℤ}
use obsidian_mcp_server.Strings.{Bytes}
use obsidian_mcp_server.Vault.Os.{Os, IsReliable}
use obsidian_mcp_server.Vault.Sanitize.{sanitize_path}
use obsidian_mcp_server.Vault.Guards.{Service, read_note_bytes}
use obsidian_mcp_server.Vault.Replace.{Regexp, ReplaceResult, limit_of, new_content}

module _ (os : Os) (v : Service) (reliable : IsReliable os) (path : Bytes) where
  -- What the note holds in the end, and what is reported.
  pub record Replaced (re : Regexp) (replacement : Bytes) (is_regex : Bool) (max_occurrences : ℤ)
      (s s' : os.State) (r : ReplaceResult) : Type 0 where
    pub target : Bytes × Bytes
    pub content : Bytes
    pub allowed : sanitize_path v.root v.filter path ≡ ok target
    pub was_read : read_note_bytes os v target.1 s ≡ ok content
    pub then_read :
        read_note_bytes os v target.1 s'
        ≡ ok (new_content re replacement is_regex max_occurrences content)
    pub found : r.occurrences_found ≡ length (re.find_all content)
    pub replaced : r.replaced ≡ limit_of max_occurrences (length (re.find_all content))
