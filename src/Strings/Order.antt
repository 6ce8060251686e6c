-- ===== src/Strings/Order.antt =====
-- Go's `<` on strings, byte by byte.
use obsidian_mcp_server.Prelude.{◌≡◌, refl, Bool, true, false, [], ◌∷◌, if◌then◌else◌, ltb, arith}
use obsidian_mcp_server.Strings.{Bytes}

unfoldable pub less : Bytes → Bytes → Bool
less a [] = false
less [] (y ∷ b) = true
less (x ∷ a) (y ∷ b) =
    let rest = less a b in if ltb x y then true else if ltb y x then false else rest

pub less_asym : (a b : Bytes) → less a b ≡ true → less b a ≡ false
unfolding less
less_asym [] [] h = cc
less_asym (x ∷ a) [] h = cc
less_asym [] (y ∷ b) h = refl
less_asym (x ∷ a) (y ∷ b) h = ground (arith, less_asym a b)

pub less_trans : (a b c : Bytes) → less b a ≡ false → less c b ≡ false → less c a ≡ false
unfolding less
less_trans [] [] [] h k = refl
less_trans [] [] (z ∷ c) h k = refl
less_trans [] (y ∷ b) [] h k = cc
less_trans [] (y ∷ b) (z ∷ c) h k = refl
less_trans (x ∷ a) [] c h k = cc
less_trans (x ∷ a) (y ∷ b) [] h k = cc
less_trans (x ∷ a) (y ∷ b) (z ∷ c) h k = ground (arith, less_trans a b c)
