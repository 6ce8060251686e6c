-- ===== src/Lib.antt =====
-- A verification library of the Obsidian MCP server, a Go program that serves the notes of an
-- Obsidian vault to a client of the Model Context Protocol, over standard input and output or http.
--
-- The parts of the program and how they meet. cmd/obsidian-mcp reads the settings (internal/config),
-- makes the service of the vault (internal/vault), and registers tools, resources and prompts with a
-- protocol library. A tool of internal/tools decodes the arguments of a call, calls an operation of
-- the vault or of internal/search, and encodes the answer. An operation of the vault turns the path
-- that a client names into one on disk, checks it, checks symbolic links, compares the revision that
-- the client names with what is stored, and then reads or writes. Over http every request first goes
-- through the checks of internal/httptransport, and its session is bound to its credential.
--
-- What models what (paths of the sources from the root of the repository):
--   Config, Config/Numbers: internal/config/config.go. `load` is Load behind the parsing of the
--     flags, which the record Flags holds; `overridden`, `normalize_log_level` and `validated` are
--     its three stretches.
--   Http/Session, Http/Token, Http/Middleware: internal/httptransport/session.go, token.go and
--     middleware.go. The store of sessions is a record with a map; `generate`, `validate`,
--     `terminate` and `sweep` give the store after the call. `build_chain` composes the three
--     checks around a handler, as buildChain does.
--   Markdown: internal/markdown/fence.go, StripCodeFences and its helpers. Markdown/Tokens:
--     Tokenize.
--   Vault/FilePath: what the vault uses of Go's path/filepath. Vault/PathFilter: pathfilter.go.
--     Vault/Sanitize: sanitizePath and checkWindowsSafe of vault.go.
--   Vault/Errors: errors.go. Vault/Os: the calls of Go's package os, a record of operations over a
--     state, with the laws IsReliable that some theorems assume. Vault/Guards: the checks of vault.go
--     and etag.go that the operations share.
--   Vault/Read, Vault/Write, Vault/Delete, Vault/Move, Vault/Patch, Vault/Replace, Vault/List:
--     ResolvePath, ReadNote, GetNoteOutline, ReadNoteLines, WriteNote, DeleteNote, MoveNote up to the
--     rewriting of links, PatchNote, ReplaceInNote and ListDirectory, of vault.go, outline.go,
--     mutators.go and replace.go. Each is a do block of the monad of Prelude/Exec, in the order of the
--     statements of the source; its result comes with the state, so that what was done before an error
--     is seen. Vault/Delete/Prune is PruneTrash, over times in nanoseconds. Vault/Headings and Vault/Frontmatter: what these do to the text of a note.
--   Vault/Edit, Vault/Properties, Vault/Tags/Edits: UpdateFrontmatter, AddTag and RemoveTag of
--     frontmatter.go and tags.go. `edit_note` is the stretch of checks, read and write that the three
--     have in common. Vault/Yaml: the library gopkg.in/yaml.v3, a record of operations, whose laws
--     IsYaml some theorems assume.
--   Vault/Tags, Vault/Tags/Inline, Vault/Tags/Counts: the tags of a note, their inline occurrences, and
--     AggregateTags and TopTagsByCount, of tags.go. Vault/Tags/Rename: renametag.go.
--   Vault/Walk: walk.go, over a tree of directories that the system lists. Vault/Stats: stats.go.
--   Vault/Links: links.go. Vault/Links/Rewrite, Vault/Links/Rewrite/Notes: linkrewrite.go, and MoveNote
--     with its last step.
--   Vault/Calls: the operations that change one note, as calls with their arguments.
--   Vault/Disk: files in memory, on which the operations are run. Vault/Yaml/Plain: a library for
--     the tests, in the place of that of YAML.
--   Search/Regex: internal/search/regex.go. Periodic: internal/periodic/periodic.go.
--   Tools/Args: internal/tools/args.go.
--   Strings, Maps, Prelude/Sort: what the program uses of Go's strings, maps and sorting.
--
-- Strings are lists of bytes, as Go indexes them, over the native numbers; a string is compared byte
-- for byte. A call holds the mutex of the vault or of the store from its first check to its end, so
-- a run of the program is a sequence of calls. The time, the random bytes of a session's name, the
-- context's state and what the environment holds are arguments. A regular expression that the source
-- writes out is a recognizer read off it; one that a client sends is an argument.
--
-- Bounds and fuel. `strip_spans`, `link_targets`, `occurrences`, `scan_tags`, `tag_run`,
-- `replace_tag_matches`, `pieces`, `scan_tokens`, `format_parts` and the unescaping of a URL have
-- the length of their text as fuel, and every round takes at least one byte; `scan_close` has the
-- length of the rest of the note, and every round takes a line; `strip_all` has the length of the
-- text, and every round takes one blank; the digits of a number have the number itself, and every
-- round divides by ten. Every other loop is a recursion on its list. An int of Go is ℤ or ℕ and is
-- not wrapped, as no modelled computation leaves the 64 bits but Atoi, the retention of PruneTrash,
-- the offset of a periodic note and the last line of ReadNoteLines, where the limits are written out.
--
-- Not modelled: SHA-256, the random source, YAML, JSON, the compilation of regular expressions, the
-- clock, the calendar, the sizes and times of files and Unicode's tables of letters, which are
-- arguments where a modelled operation uses them; the text of error messages and the log; the
-- ranked search of internal/search/bm25.go with its index, whose scores are floating point;
-- StatNote; a read that fails after a part of the file, so that a search by expression whose file
-- cannot be read fails before its first line; prompts, resources, the handlers of the tools, TLS and the start of the server.
mod Prelude
pub mod Strings
pub mod Maps
pub mod Markdown
pub mod Http
pub mod Vault
pub mod Config
pub mod Tools
pub mod Search
pub mod Periodic
