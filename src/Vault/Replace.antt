-- ===== src/Vault/Replace.antt =====
-- internal/vault/replace.go: ReplaceInNote. Go's regular expressions are an argument.
pub mod Splice
pub mod Effect
mod Tests
use obsidian_mcp_server.Prelude.{
  ℕ, zero, suc, ◌-◌, ◌≡◌, Bool, true, false, Option, none, some, List, [], ◌∷◌, ◌++◌, if◌then◌else◌,
  ltb, length, take, drop,
}
use obsidian_mcp_server.Prelude.Exec.{Exec, Result, ok, err, pure, fail, asks, ◌>>=◌, ◌>>◌}
use obsidian_mcp_server.Prelude.Int.{ℤ, pos, negsuc, pos_part}
use obsidian_mcp_server.Strings.{Bytes, codes, eq_bytes}
use obsidian_mcp_server.Vault.Errors.{Fault, file_too_large, invalid_regex, os_fault, PathError}
use obsidian_mcp_server.Vault.Os.{Os}
use obsidian_mcp_server.Vault.Guards.{
  Service, max_file_size_bytes, path_error, os_call, check_context, sanitize, exists_strict,
  check_symlinks_for_write, read_note_bytes,
}

abbrev pub replace : Bytes
replace = codes "replace_in_note"

-- What the vault uses of a compiled expression: FindAllStringIndex, the ranges of its matches in
-- order, and ReplaceAllString.
pub record Regexp : Type 0 where
  pub find_all : Bytes → List (ℕ × ℕ)
  pub replace_all : Bytes → Bytes → Bytes

-- regexp.Compile, and the expression for a literal text, MustCompile of QuoteMeta.
pub record Regexps : Type 0 where
  pub compile : Bytes → Option Regexp
  pub literal : Bytes → Regexp

pub record ReplaceResult : Type 0 where
  pub path : Bytes
  pub occurrences_found : ℕ
  pub replaced : ℕ

abbrev pub slice : Bytes → ℕ → ℕ → Bytes
slice s a b = take (b - a) (drop a s)

-- The loop over the first `limit` matches, and the text behind the last of them.
unfoldable pub splice : (Bytes → Bytes) → Bytes → ℕ → ℕ → List (ℕ × ℕ) → Bytes
splice f content zero last matches = drop last content
splice f content (suc limit) last [] = drop last content
splice f content (suc limit) last (m ∷ matches) =
    slice content last m.0 ++ (f (slice content m.0 m.1) ++ splice f content limit m.1 matches)

-- maxOccurrences at or below zero is no bound.
unfoldable pub limit_of : ℤ → ℕ → ℕ
limit_of max_occurrences found =
    if ltb 0 (pos_part max_occurrences)
    then if ltb (pos_part max_occurrences) found then pos_part max_occurrences else found
    else found

module _ (regexps : Regexps) where
  abbrev compiled : Bytes → Option Regexp → Result PathError Regexp
  compiled path none = err (path_error replace path invalid_regex)
  compiled path (some re) = ok re

  -- The expression of a call.
  unfoldable pub expression : Bytes → Bytes → Bool → Result PathError Regexp
  expression path pattern' true = compiled path (regexps.compile pattern')
  expression path pattern' false = ok (regexps.literal pattern')

-- What stands in the place of a match.
unfoldable pub substitute : Regexp → Bytes → Bool → Bytes → Bytes
substitute re replacement true found = re.replace_all found replacement
substitute re replacement false found = replacement

unfoldable pub new_content : Regexp → Bytes → Bool → ℤ → Bytes → Bytes
unfolding splice limit_of substitute
new_content re replacement is_regex max_occurrences content =
    splice (substitute re replacement is_regex) content
      (limit_of max_occurrences (length (re.find_all content))) 0 (re.find_all content)

module _ (os : Os) (v : Service) where
  open os use {State, write_file}

  abbrev read_or_fault : Bytes → Result Fault Bytes → Result PathError Bytes
  read_or_fault path (ok data') = ok data'
  read_or_fault path (err f) = err (path_error replace path f)

  -- A text that did not change is not written.
  store_changed : Bytes → Bytes → Bytes → Bytes → Exec State PathError (Unit {0})
  store_changed path abs_path content text =
      if eq_bytes text content
      then pure tt
      else os_call replace path os_fault (write_file abs_path text)

  check_new_size : Bytes → Bytes → Result PathError (Unit {0})
  check_new_size path text =
      if ltb max_file_size_bytes (length text)
      then err (path_error replace path file_too_large)
      else ok tt

  store_replaced : Bytes → Bytes → Bytes → Bytes → ℕ → ℕ → Exec State PathError ReplaceResult
  unfolding store_changed check_new_size
  store_replaced path abs_path content text found limit = do
    asks (λ _. check_new_size path text)
    store_changed path abs_path content text
    pure (record { path = path; occurrences_found = found; replaced = limit })

  replace_matches :
      Regexp
      → Bytes
      → Bool
      → ℤ
      → Bytes
      → Bytes
      → Bytes
      → List (ℕ × ℕ)
      → Exec State PathError ReplaceResult
  unfolding store_replaced new_content
  replace_matches re replacement is_regex max_occurrences path abs_path content [] =
      pure (record { path = path; occurrences_found = 0; replaced = 0 })
  replace_matches re replacement is_regex max_occurrences path abs_path content (m ∷ matches) =
      store_replaced path abs_path content
        (new_content re replacement is_regex max_occurrences content) (length (m ∷ matches))
        (limit_of max_occurrences (length (m ∷ matches)))

  -- ReplaceInNote
  unfoldable pub replace_in_note :
      Regexps → Bool → Bytes → Bytes → Bytes → Bool → ℤ → Exec State PathError ReplaceResult
  unfolding replace_matches expression
  replace_in_note regexps is_cancelled path pattern' replacement is_regex max_occurrences = do
    asks (λ _. check_context replace path is_cancelled)
    target ← asks (λ _. sanitize os v replace path)
    asks (exists_strict os v replace path target.1)
    asks (check_symlinks_for_write os v replace path target.1)
    content ← asks (λ s. read_or_fault path (read_note_bytes os v target.1 s))
    re ← asks (λ _. expression regexps path pattern' is_regex)
    replace_matches re replacement is_regex max_occurrences path target.1 content
        (re.find_all content)
