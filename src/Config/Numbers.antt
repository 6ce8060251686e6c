-- ===== src/Config/Numbers.antt =====
-- What internal/config uses of Go's package strconv: ParseBool, and Atoi where an int has 64 bits.
use obsidian_mcp_server.Prelude.{
  ℕ, zero, suc, ◌+◌, ◌*◌, ◌-◌, ◌^◌, Bool, true, false, ◌&&◌, Option, none, some, List, [], ◌∷◌,
  ◌==◌, if◌then◌else◌, leb,
}
use obsidian_mcp_server.Prelude.Int.{ℤ, pos, negsuc}
use obsidian_mcp_server.Strings.{Bytes, codes, eq_bytes}

unfoldable pub one_of : Bytes → List Bytes → Bool
one_of s [] = false
one_of s (t ∷ ts) = if eq_bytes s t then true else one_of s ts

unfoldable pub parse_bool : Bytes → Option Bool
unfolding one_of
parse_bool s =
    if one_of s
      (codes "1" ∷ codes "t" ∷ codes "T" ∷ codes "true" ∷ codes "TRUE" ∷ codes "True" ∷ [])
    then some true
    else if one_of s
        (codes "0" ∷ codes "f" ∷ codes "F" ∷ codes "false" ∷ codes "FALSE" ∷ codes "False" ∷ [])
    then some false
    else none

-- The digits from the first on, with the value of those before them.
unfoldable pub digits : ℕ → Bytes → Option ℕ
digits acc [] = some acc
digits acc (x ∷ xs) =
    let rest = digits (10 * acc + (x - b'0')) xs in if leb b'0' x && leb x b'9' then rest else none

-- At least one digit.
abbrev number : Bytes → Option ℕ
number [] = none
number (x ∷ xs) = digits 0 (x ∷ xs)

abbrev up_to_max : Option ℕ → Option ℤ
up_to_max none = none
up_to_max (some n) = if leb n (2 ^ 63 - 1) then some (pos n) else none

abbrev negated : ℕ → ℤ
negated zero = pos 0
negated (suc n) = negsuc n

abbrev down_to_min : Option ℕ → Option ℤ
down_to_min none = none
down_to_min (some n) = if leb n (2 ^ 63) then some (negated n) else none

unfoldable pub atoi : Bytes → Option ℤ
unfolding digits
atoi [] = none
atoi (x ∷ xs) =
    if x == b'-'
    then down_to_min (number xs)
    else if x == b'+'
    then up_to_max (number xs)
    else up_to_max (number (x ∷ xs))
