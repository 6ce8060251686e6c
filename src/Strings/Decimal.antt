-- ===== src/Strings/Decimal.antt =====
-- How Go's fmt writes a number: %d, and %0wd with zeros before it.
use obsidian_mcp_server.Prelude.{
  ℕ, zero, suc, ◌+◌, ◌*◌, ◌-◌, ◌/◌, ◌%◌, ◌≤◌, ◌≡◌, refl, ap, ◌∙◌, Bool, true, false, [], ◌∷◌, ◌++◌,
  if◌then◌else◌, ltb, length, replicate, arith,
}
use obsidian_mcp_server.Strings.{Bytes, contains_byte}
use obsidian_mcp_server.Strings.Split.{contains_byte-append}

-- The digits of a number before a text, on fuel; each round divides it by ten.
unfoldable pub digits_before : ℕ → ℕ → Bytes → Bytes
digits_before zero n rest = (b'0' + n % 10) ∷ rest
digits_before (suc fuel) n rest =
    let more = digits_before fuel (n / 10) ((b'0' + n % 10) ∷ rest) in
    if ltb n 10 then (b'0' + n) ∷ rest else more

unfoldable pub decimal : ℕ → Bytes
unfolding digits_before
decimal n = digits_before n n []

unfoldable pub padded : ℕ → ℕ → Bytes
unfolding decimal
padded width n = replicate (width - length (decimal n)) b'0' ++ decimal n

-- The number that digits stand for, behind those of `acc`.
unfoldable pub value : ℕ → Bytes → ℕ
value acc [] = acc
value acc (x ∷ xs) = value (10 * acc + (x - b'0')) xs

value-digits_before :
    (fuel n : ℕ) (rest : Bytes) → n ≤ fuel → value 0 (digits_before fuel n rest) ≡ value n rest
unfolding digits_before value
value-digits_before zero n rest h = ap (λ k. value k rest) (omega (arith, h))
value-digits_before (suc fuel) n rest h =
    by_size (ltb n 10) refl (value-digits_before fuel (n / 10) ((b'0' + n % 10) ∷ rest))
  where
    by_size :
        (b : Bool)
        → ltb n 10 ≡ b
        → (n / 10 ≤ fuel
            → value 0 (digits_before fuel (n / 10) ((b'0' + n % 10) ∷ rest))
              ≡ value (n / 10) ((b'0' + n % 10) ∷ rest))
        → value 0
            (if b then (b'0' + n) ∷ rest else digits_before fuel (n / 10) ((b'0' + n % 10) ∷ rest))
          ≡ value n rest
    by_size true e later = ap (λ k. value k rest) (omega arith)
    by_size false e later = later (omega (arith, h)) ∙ ap (λ k. value k rest) (omega arith)

value_zeros : (k : ℕ) (s : Bytes) → value 0 (replicate k b'0' ++ s) ≡ value 0 s
unfolding value
value_zeros zero s = refl
value_zeros (suc k) s = ap (λ a. value a (replicate k b'0' ++ s)) (omega arith) ∙ value_zeros k s

-- A padded number is read back.
pub value-padded : (width n : ℕ) → value 0 (padded width n) ≡ n
unfolding padded decimal value
value-padded width n =
    value_zeros (width - length (decimal n)) (decimal n) ∙ value-digits_before n n [] (omega arith)

lacks_before :
    (fuel n : ℕ) (rest : Bytes)
    → contains_byte b'-' rest ≡ false
    → contains_byte b'-' (digits_before fuel n rest) ≡ false
unfolding digits_before contains_byte
lacks_before zero n rest h = ground (arith, h)
lacks_before (suc fuel) n rest h =
    by_size (ltb n 10) (lacks_before fuel (n / 10) ((b'0' + n % 10) ∷ rest) (ground (arith, h)))
  where
    by_size :
        (b : Bool)
        → contains_byte b'-' (digits_before fuel (n / 10) ((b'0' + n % 10) ∷ rest)) ≡ false
        → contains_byte b'-'
            (if b then (b'0' + n) ∷ rest else digits_before fuel (n / 10) ((b'0' + n % 10) ∷ rest))
          ≡ false
    by_size true k = ground (arith, h)
    by_size false k = k

lacks_zeros : (k : ℕ) → contains_byte b'-' (replicate k b'0') ≡ false
unfolding contains_byte
lacks_zeros zero = refl
lacks_zeros (suc k) = lacks_zeros k

-- No padded number holds a dash.
pub padded-Lacks : (width n : ℕ) → contains_byte b'-' (padded width n) ≡ false
unfolding padded decimal
padded-Lacks width n =
    contains_byte-append b'-' (replicate (width - length (decimal n)) b'0') (decimal n)
    ∙ ground (
      arith,
      lacks_zeros (width - length (decimal n)),
      lacks_before n n [] (unfold contains_byte in refl),
    )
