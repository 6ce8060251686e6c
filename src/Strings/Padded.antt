-- ===== src/Strings/Padded.antt =====
-- strings.TrimSpace of a text with blanks around it.
use mathlib.Core.List.{reverse, reverse-append, reverse-reverse}
use obsidian_mcp_server.Prelude.{
  ℕ, zero, suc, ◌+◌, ◌≤◌, ◌<◌, ◌==◌, false, ◌≡◌, refl, sym, ap, ◌∙◌, subst, none, some, List, [],
  ◌∷◌, ◌++◌, length, length-append, append-nil, arith,
}
use obsidian_mcp_server.Strings.{Bytes, has_prefix, contains_byte}
use obsidian_mcp_server.Strings.Split.{Lacks, contains_byte-append}
use obsidian_mcp_server.Strings.Space.{spaces, reversed, strip_first, strip_all, trim_space}

unfoldable pub blanks : ℕ → Bytes
blanks zero = []
blanks (suc n) = b' ' ∷ blanks n

length-blanks : (n : ℕ) → length (blanks n) ≡ n
unfolding blanks
length-blanks zero = refl
length-blanks (suc n) = ap suc (length-blanks n)

pub blanks-Lacks : (n : ℕ) → Lacks b',' (blanks n)
unfolding blanks contains_byte
blanks-Lacks zero = refl
blanks-Lacks (suc n) = blanks-Lacks n

blanks_behind : (n : ℕ) → blanks n ++ b' ' ∷ [] ≡ b' ' ∷ blanks n
unfolding blanks
blanks_behind zero = refl
blanks_behind (suc n) = ap (◌∷◌ b' ') (blanks_behind n)

reverse-blanks : (n : ℕ) → reverse (blanks n) ≡ blanks n
unfolding blanks
reverse-blanks zero = refl
reverse-blanks (suc n) =
    reverse-append (b' ' ∷ []) (blanks n)
    ∙ ap (λ s. s ++ b' ' ∷ []) (reverse-blanks n)
    ∙ blanks_behind n

-- A byte that is a visible character of ASCII.
abbrev pub IsVisible : ℕ → Type 0
IsVisible x = (32 < x) × (x < 127)

-- No start of a list begins with the byte.
unfoldable NoneBegins : ℕ → List Bytes → Type 0
NoneBegins x [] = Unit
NoneBegins x ([] ∷ ps) = ⊥
NoneBegins x ((c ∷ p) ∷ ps) = (x == c ≡ false) × NoneBegins x ps

strip_first-none :
    (x : ℕ) (s : Bytes) (starts : List Bytes)
    → NoneBegins x starts
    → strip_first starts (x ∷ s) ≡ none
unfolding strip_first has_prefix NoneBegins
strip_first-none x s [] h = refl
strip_first-none x s ([] ∷ ps) h = absurd h
strip_first-none x s ((c ∷ p) ∷ ps) h = rw h.0 (strip_first-none x s ps h.1)

other_byte : (x c : ℕ) → IsVisible x → 127 ≤ c → x == c ≡ false
other_byte x c h k = ground (arith, h.0, h.1, k)

control : (x c : ℕ) → IsVisible x → c ≤ 32 → x == c ≡ false
control x c h k = ground (arith, h.0, h.1, k)

last_begins : (x : ℕ) → IsVisible x → NoneBegins x (reversed spaces)
unfolding NoneBegins
last_begins x h = (
  control x _ h (omega arith),
  (
    control x _ h (omega arith),
    (
      control x _ h (omega arith),
      (
        control x _ h (omega arith),
        (
          control x _ h (omega arith),
          (
            control x _ h (omega arith),
            (
              other_byte x _ h (omega arith),
              (
                other_byte x _ h (omega arith),
                (
                  other_byte x _ h (omega arith),
                  (
                    other_byte x _ h (omega arith),
                    (
                      other_byte x _ h (omega arith),
                      (
                        other_byte x _ h (omega arith),
                        (
                          other_byte x _ h (omega arith),
                          (
                            other_byte x _ h (omega arith),
                            (
                              other_byte x _ h (omega arith),
                              (
                                other_byte x _ h (omega arith),
                                (
                                  other_byte x _ h (omega arith),
                                  (
                                    other_byte x _ h (omega arith),
                                    (
                                      other_byte x _ h (omega arith),
                                      (
                                        other_byte x _ h (omega arith),
                                        (
                                          other_byte x _ h (omega arith),
                                          (
                                            other_byte x _ h (omega arith),
                                            (
                                              other_byte x _ h (omega arith),
                                              (
                                                other_byte x _ h (omega arith),
                                                (other_byte x _ h (omega arith), tt),
                                              ),
                                            ),
                                          ),
                                        ),
                                      ),
                                    ),
                                  ),
                                ),
                              ),
                            ),
                          ),
                        ),
                      ),
                    ),
                  ),
                ),
              ),
            ),
          ),
        ),
      ),
    ),
  ),
)

first_begins : (x : ℕ) → IsVisible x → NoneBegins x spaces
unfolding NoneBegins
first_begins x h = (
  control x _ h (omega arith),
  (
    control x _ h (omega arith),
    (
      control x _ h (omega arith),
      (
        control x _ h (omega arith),
        (
          control x _ h (omega arith),
          (
            control x _ h (omega arith),
            (
              other_byte x _ h (omega arith),
              (
                other_byte x _ h (omega arith),
                (
                  other_byte x _ h (omega arith),
                  (
                    other_byte x _ h (omega arith),
                    (
                      other_byte x _ h (omega arith),
                      (
                        other_byte x _ h (omega arith),
                        (
                          other_byte x _ h (omega arith),
                          (
                            other_byte x _ h (omega arith),
                            (
                              other_byte x _ h (omega arith),
                              (
                                other_byte x _ h (omega arith),
                                (
                                  other_byte x _ h (omega arith),
                                  (
                                    other_byte x _ h (omega arith),
                                    (
                                      other_byte x _ h (omega arith),
                                      (
                                        other_byte x _ h (omega arith),
                                        (
                                          other_byte x _ h (omega arith),
                                          (
                                            other_byte x _ h (omega arith),
                                            (
                                              other_byte x _ h (omega arith),
                                              (
                                                other_byte x _ h (omega arith),
                                                (other_byte x _ h (omega arith), tt),
                                              ),
                                            ),
                                          ),
                                        ),
                                      ),
                                    ),
                                  ),
                                ),
                              ),
                            ),
                          ),
                        ),
                      ),
                    ),
                  ),
                ),
              ),
            ),
          ),
        ),
      ),
    ),
  ),
)

strip_first_visible : (x : ℕ) (s : Bytes) → IsVisible x → strip_first spaces (x ∷ s) ≡ none
strip_first_visible x s h = strip_first-none x s spaces (first_begins x h)

strip_last_visible :
    (x : ℕ) (s : Bytes) → IsVisible x → strip_first (reversed spaces) (x ∷ s) ≡ none
strip_last_visible x s h = strip_first-none x s (reversed spaces) (last_begins x h)

module _ (starts : List Bytes) (blank : (s : Bytes) → strip_first starts (b' ' ∷ s) ≡ some s) where
  strip_all_stop :
      (fuel : ℕ) (s : Bytes) → strip_first starts s ≡ none → strip_all fuel starts s ≡ s
  unfolding strip_all
  strip_all_stop zero s h = refl
  strip_all_stop (suc fuel) s h = rw (strip_all, h) refl

  strip_all-blanks :
      (n fuel : ℕ) (s : Bytes)
      → n ≤ fuel
      → strip_first starts s ≡ none
      → strip_all fuel starts (blanks n ++ s) ≡ s
  unfolding strip_all blanks
  strip_all-blanks zero fuel s k h = strip_all_stop fuel s h
  strip_all-blanks (suc n) zero s k h = absurd (omega (arith, k))
  strip_all-blanks (suc n) (suc fuel) s k h =
      rw (strip_all, blank (blanks n ++ s)) (strip_all-blanks n fuel s (omega (arith, k)) h)

front_blank : (s : Bytes) → strip_first spaces (b' ' ∷ s) ≡ some s
unfolding strip_first has_prefix
front_blank s = refl

back_blank : (s : Bytes) → strip_first (reversed spaces) (b' ' ∷ s) ≡ some s
unfolding strip_first has_prefix
back_blank s = refl

-- A text that begins and ends with a visible character.
pub record IsWord (w : Bytes) : Type 0 where
  pub first : ℕ
  pub more : Bytes
  pub last : ℕ
  pub before : Bytes
  pub begins : w ≡ first ∷ more
  pub ends : reverse w ≡ last ∷ before
  pub first_visible : IsVisible first
  pub last_visible : IsVisible last

trimmed_back : Bytes → Bytes
trimmed_back front = reverse (strip_all (length front) (reversed spaces) (reverse front))

-- A text with blanks before it and behind it.
abbrev pub with_blanks : ℕ → Bytes → ℕ → Bytes
with_blanks a w b = blanks a ++ (w ++ blanks b)

long_enough : (a b : ℕ) (w : Bytes) → a ≤ length (with_blanks a w b)
long_enough a b w = omega (arith, length-append (blanks a) (w ++ blanks b), length-blanks a)

front_lem :
    (a b : ℕ) (w : Bytes)
    → strip_first spaces (w ++ blanks b) ≡ none
    → strip_all (length (with_blanks a w b)) spaces (with_blanks a w b) ≡ w ++ blanks b
front_lem a b w = strip_all-blanks spaces front_blank a _ (w ++ blanks b) (long_enough a b w)

back_lem :
    (b : ℕ) (w : Bytes)
    → strip_first (reversed spaces) (reverse w) ≡ none
    → trimmed_back (w ++ blanks b) ≡ w
unfolding trimmed_back
back_lem b w h =
    ap (λ s. reverse (strip_all (length (w ++ blanks b)) (reversed spaces) s))
      (reverse-append w (blanks b) ∙ ap (λ s. s ++ reverse w) (reverse-blanks b))
    ∙ ap reverse (
        strip_all-blanks (reversed spaces) back_blank b (length (w ++ blanks b)) (reverse w)
          (omega (arith, length-append w (blanks b), length-blanks b)) h)
    ∙ reverse-reverse w

-- TrimSpace takes the blanks off a word.
pub trim_space-with_blanks : (a b : ℕ) (w : Bytes) → IsWord w → trim_space (with_blanks a w b) ≡ w
unfolding trim_space trimmed_back
trim_space-with_blanks a b w word =
    ap trimmed_back (
      front_lem a b w (
        subst (λ w. strip_first spaces (w ++ blanks b) ≡ none) (sym word.begins)
          (strip_first_visible word.first (word.more ++ blanks b) word.first_visible)))
    ∙ back_lem b w (
        subst (λ r. strip_first (reversed spaces) r ≡ none) (sym word.ends)
          (strip_last_visible word.last word.before word.last_visible))

no_start : strip_first spaces [] ≡ none
unfolding strip_first has_prefix
no_start = refl

blanks_of : (a b : ℕ) → with_blanks a [] b ≡ with_blanks (a + b) [] 0
unfolding blanks
blanks_of zero b =
    sym (append-nil (blanks b)) ∙ ap (λ n. blanks n ++ []) {x = b} {y = 0 + b} (omega arith)
blanks_of (suc a) b =
    ap (◌∷◌ b' ') (blanks_of a b)
    ∙ ap (λ n. blanks n ++ []) {x = suc (a + b)} {y = suc a + b} (omega arith)

-- Of blanks alone nothing is left.
pub trim_space-blanks : (a b : ℕ) → trim_space (with_blanks a [] b) ≡ []
unfolding trim_space trimmed_back blanks
trim_space-blanks a b =
    ap trim_space (blanks_of a b) ∙ ap trimmed_back (front_lem (a + b) 0 [] no_start)

pub with_blanks-Lacks : (a b : ℕ) (w : Bytes) → Lacks b',' w → Lacks b',' (with_blanks a w b)
with_blanks-Lacks a b w h = ground (
  arith,
  h,
  blanks-Lacks a,
  blanks-Lacks b,
  contains_byte-append b',' (blanks a) (w ++ blanks b),
  contains_byte-append b',' w (blanks b),
)
