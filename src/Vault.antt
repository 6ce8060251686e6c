-- ===== src/Vault.antt =====
-- internal/vault: the notes on disk. Paths and their checks are in FilePath, PathFilter and Sanitize;
-- the text of a note in Frontmatter, Headings, Properties, Tags and Links; the calls of the operating
-- system in Os, the shared checks in Guards, and the operations in Read, List, Write, Delete, Move,
-- Patch, Replace, Edit, Walk and Stats. Disk holds files in memory, on which they are run.
pub mod Errors
pub mod FilePath
pub mod PathFilter
pub mod Sanitize
pub mod Yaml
pub mod Frontmatter
pub mod Headings
pub mod Os
pub mod Guards
pub mod Read
pub mod Write
pub mod Delete
pub mod Move
pub mod Patch
pub mod Replace
pub mod List
pub mod Walk
pub mod Edit
pub mod Properties
pub mod Tags
pub mod Links
pub mod Stats
pub mod Calls
pub mod Disk
mod Tests
