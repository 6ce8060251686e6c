-- ===== src/Http/Token.antt =====
-- internal/httptransport/token.go: where the bearer token comes from, and how it is compared. The
-- hash function is SHA-256, which the program takes from crypto/sha256: it is an argument here, and
-- so are the answers of the environment and the file system.
use obsidian_mcp_server.Prelude.{Bool, Option, none, some, [], ◌∷◌, if◌then◌else◌, take}
use obsidian_mcp_server.Prelude.Exec.{Result, ok, err}
use obsidian_mcp_server.Strings.{Bytes, eq_bytes}
use obsidian_mcp_server.Http.Session.{hex_encode}

pub record AuthToken : Type 0 where
  pub hash : Bytes
  pub sha8 : Bytes
  pub path : Bytes

pub data TokenError : Type 0 where
  read_token_file generate_token write_token_file : TokenError

-- What os.ReadFile says of the token file.
pub data TokenFile : Type 0 where
  present : Bytes → TokenFile
  missing unreadable : TokenFile

module _ (sha256 : Bytes → Bytes) where
  pub sha8_hex : Bytes → Bytes
  sha8_hex s = take 8 (hex_encode (sha256 s))

  -- An authToken for a token that is kept at `path`, the empty path for the environment.
  abbrev pub token_at : Bytes → Bytes → AuthToken
  token_at path token = record { hash = sha256 token; sha8 = sha8_hex token; path = path }

  -- `raw` is what crypto/rand gives, `written` whether os.WriteFile succeeds.
  create_token : Bytes → Option Bytes → Bool → Result TokenError AuthToken
  create_token path none written = err generate_token
  create_token path (some raw) written =
      if written then ok (token_at path (hex_encode raw)) else err write_token_file

  load_token : Bytes → TokenFile → Option Bytes → Bool → Result TokenError AuthToken
  unfolding create_token
  load_token path (present token) raw written = ok (token_at path token)
  load_token path missing raw written = create_token path raw written
  load_token path unreadable raw written = err read_token_file

  -- loadOrCreateToken; `env` is empty where the variable is not set.
  pub load_or_create_token :
      Bytes → Bytes → TokenFile → Option Bytes → Bool → Result TokenError AuthToken
  unfolding load_token
  load_or_create_token [] path file raw written = load_token path file raw written
  load_or_create_token (c ∷ env) path file raw written = ok (token_at [] (c ∷ env))

  -- authToken.compare: subtle.ConstantTimeCompare of two hashes is an equality test.
  unfoldable pub compare_token : AuthToken → Bytes → Bool
  compare_token t presented = eq_bytes t.hash (sha256 presented)
