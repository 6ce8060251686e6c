-- ===== src/Markdown/Strip.antt =====
-- StripCodeFences: what it keeps and what it hides.
use obsidian_mcp_server.Prelude.{
  ℕ, zero, suc, ◌≤◌, ◌<◌, ◌≡◌, ◌≢◌, refl, sym, ap, ◌∙◌, true, false, Option, none, some, List, [],
  ◌∷◌, ◌++◌, ◌==◌, arith, length, take, drop, replicate, append-nil, Bool-cases, inl, inr,
  length-drop, All,
}
use obsidian_mcp_server.Strings.{Bytes, contains_byte, run_length, split, trim_right}
use obsidian_mcp_server.Strings.Split.{
  Lacks, contains_byte-append, split-Lacks, split-join, split-ne-nil,
}
use obsidian_mcp_server.Markdown.{
  after_backtick, close_span, inline_round, strip_spans, strip_inline_code, fence_opener,
  is_fence_closer, is_return, FenceState, next_fence, strip_line, strip_lines, strip_code_fences,
}

take-Lacks : (c n : ℕ) (s : Bytes) → Lacks c s → Lacks c (take n s)
unfolding contains_byte
take-Lacks c zero s h = refl
take-Lacks c (suc n) [] h = refl
take-Lacks c (suc n) (x ∷ s) h = ground (arith, take-Lacks c n s)

drop-Lacks : (c n : ℕ) (s : Bytes) → Lacks c s → Lacks c (drop n s)
unfolding contains_byte
drop-Lacks c zero s h = h
drop-Lacks c (suc n) [] h = refl
drop-Lacks c (suc n) (x ∷ s) h = ground (arith, drop-Lacks c n s)

after_backtick-Lacks : (c : ℕ) (s r : Bytes) → after_backtick s ≡ some r → Lacks c s → Lacks c r
unfolding after_backtick contains_byte
after_backtick-Lacks c [] r e h = cc
after_backtick-Lacks c (x ∷ s) r e h = ground (arith, after_backtick-Lacks c s r)

after_backtick-lt : (s r : Bytes) → after_backtick s ≡ some r → length r < length s
unfolding after_backtick
after_backtick-lt [] r e = cc
after_backtick-lt (x ∷ s) r e = ground (arith, after_backtick-lt s r, ap (λ o. o) e)

close_span-le :
    (s : Bytes) (o : Option Bytes)
    → ((r : Bytes) → o ≡ some r → length r < length s)
    → length (close_span s o).1 ≤ length s
close_span-le s none h = omega arith
close_span-le s (some r) h = omega (arith, h r refl)

-- Each round of stripInlineCode takes at least one byte.
inline_round-le : (x : ℕ) (xs : Bytes) → length (inline_round x xs).1 ≤ length xs
unfolding inline_round
inline_round-le x xs = ground (
  arith,
  length-drop (run_length b'`' xs) xs,
  close_span-le xs (after_backtick xs) (after_backtick-lt xs),
)

close_span-Lacks :
    (c : ℕ) (s : Bytes) (o : Option Bytes)
    → c ≢ b'`'
    → c ≢ b' '
    → Lacks c s
    → ((r : Bytes) → o ≡ some r → Lacks c r)
    → Lacks c (close_span s o).0 × Lacks c (close_span s o).1
unfolding contains_byte
close_span-Lacks c s none h k l f = ground arith
close_span-Lacks c s (some r) h k l f = (ground arith, f r refl)

inline_round-Lacks :
    (c x : ℕ) (xs : Bytes)
    → c ≢ b'`'
    → c ≢ b' '
    → Lacks c (x ∷ xs)
    → Lacks c (inline_round x xs).0 × Lacks c (inline_round x xs).1
unfolding inline_round contains_byte
inline_round-Lacks c x xs h k l = ground (
  arith,
  take-Lacks c (run_length b'`' xs) xs,
  drop-Lacks c (run_length b'`' xs) xs,
  close_span-Lacks c xs (after_backtick xs) h k (ground arith)
      (λ (r : Bytes) (e : after_backtick xs ≡ some r).
        after_backtick-Lacks c xs r e (ground arith)),
)

strip_spans-Lacks :
    (c fuel : ℕ) (s : Bytes) → c ≢ b'`' → c ≢ b' ' → Lacks c s → Lacks c (strip_spans fuel s)
unfolding strip_spans
strip_spans-Lacks c zero s h k l = unfold contains_byte in refl
strip_spans-Lacks c (suc fuel) [] h k l = unfold contains_byte in refl
strip_spans-Lacks c (suc fuel) (x ∷ xs) h k l =
    let both = inline_round-Lacks c x xs h k l in
    ground (
      arith,
      contains_byte-append c (inline_round x xs).0 (strip_spans fuel (inline_round x xs).1),
      both.0,
      strip_spans-Lacks c fuel (inline_round x xs).1 h k both.1,
    )

-- Fuel beyond the length of the text changes nothing: the loop of stripInlineCode ends by itself.
strip_spans_fuel :
    (f g : ℕ) (s : Bytes) → length s ≤ f → length s ≤ g → strip_spans f s ≡ strip_spans g s
unfolding strip_spans
strip_spans_fuel zero zero s h k = refl
strip_spans_fuel zero (suc g) [] h k = refl
strip_spans_fuel zero (suc g) (x ∷ xs) h k = absurd (omega arith)
strip_spans_fuel (suc f) zero [] h k = refl
strip_spans_fuel (suc f) zero (x ∷ xs) h k = absurd (omega arith)
strip_spans_fuel (suc f) (suc g) [] h k = refl
strip_spans_fuel (suc f) (suc g) (x ∷ xs) h k =
    ap (λ r. (inline_round x xs).0 ++ r)
      (strip_spans_fuel f g (inline_round x xs).1 (omega (arith, inline_round-le x xs))
        (omega (arith, inline_round-le x xs)))

strip_line-Lacks :
    (st : FenceState) (line : Bytes) → Lacks b'\n' line → Lacks b'\n' (strip_line st line)
unfolding strip_line strip_inline_code contains_byte
strip_line-Lacks (some f) line h = unfold contains_byte in refl
strip_line-Lacks none line h =
    ground (arith, strip_spans-Lacks b'\n' (length line) line (omega arith) (omega arith) h)

strip_lines-Lacks :
    (st : FenceState) (lines : List Bytes)
    → All (Lacks b'\n') lines
    → All (Lacks b'\n') (strip_lines st lines)
unfolding strip_lines
strip_lines-Lacks st [] h = tt
strip_lines-Lacks st (line ∷ lines) h =
    (strip_line-Lacks st line h.0, strip_lines-Lacks (next_fence st line) lines h.1)

pub length-strip_lines :
    (st : FenceState) (lines : List Bytes) → length (strip_lines st lines) ≡ length lines
unfolding strip_lines
length-strip_lines st [] = refl
length-strip_lines st (line ∷ lines) = ap suc (length-strip_lines (next_fence st line) lines)

strip_lines-ne-nil : (st : FenceState) (lines : List Bytes) → lines ≢ [] → strip_lines st lines ≢ []
unfolding strip_lines
strip_lines-ne-nil st [] h e = h refl
strip_lines-ne-nil st (line ∷ lines) h e = cc

-- The lines of the stripped text are the stripped lines of the text, one for one and in order: no
-- span or fence that is replaced adds or removes a line.
pub strip_code_fences-lines :
    (content : Bytes)
    → split b'\n' (strip_code_fences content) ≡ strip_lines none (split b'\n' content)
unfolding strip_code_fences
strip_code_fences-lines content =
    split-join b'\n' (strip_lines none (split b'\n' content))
      (strip_lines-ne-nil none (split b'\n' content) (split-ne-nil b'\n' content))
      (strip_lines-Lacks none (split b'\n' content) (split-Lacks b'\n' content))

length-split-strip :
    (content : Bytes)
    → length (split b'\n' (strip_code_fences content)) ≡ length (split b'\n' content)
length-split-strip content =
    ap length (strip_code_fences-lines content) ∙ length-strip_lines none (split b'\n' content)

-- A line that keeps the fence `ch`, `n` open.
abbrev pub StaysOpen : ℕ → ℕ → Bytes → Type 0
StaysOpen ch n line = is_fence_closer (trim_right is_return line) ch n ≡ false

strip_lines_body :
    (ch n : ℕ) (body rest : List Bytes)
    → All (StaysOpen ch n) body
    → strip_lines (some (ch, n)) (body ++ rest)
      ≡ replicate (length body) (b' ' ∷ []) ++ strip_lines (some (ch, n)) rest
unfolding strip_lines
strip_lines_body ch n [] rest h = refl
strip_lines_body ch n (line ∷ body) rest h =
    rw h.0 (ap (◌∷◌ (b' ' ∷ [])) (strip_lines_body ch n body rest h.1))

-- A fenced block is replaced by blanks, a line for a line, whatever its lines hold, and the text
-- behind the closing line is read as if the block was not there. The first line opens a fence,
-- no line of the body closes it, and the last one does.
pub strip_lines_fence :
    (opener closer : Bytes) (ch n : ℕ) (body rest : List Bytes)
    → fence_opener (trim_right is_return opener) ≡ some (ch, n)
    → All (StaysOpen ch n) body
    → is_fence_closer (trim_right is_return closer) ch n ≡ true
    → strip_lines none (opener ∷ (body ++ closer ∷ rest))
      ≡ (b' ' ∷ []) ∷ (replicate (length body) (b' ' ∷ []) ++ (b' ' ∷ []) ∷ strip_lines none rest)
unfolding strip_lines
strip_lines_fence opener closer ch n body rest o b c = rw o (
    ap (◌∷◌ (b' ' ∷ [])) (
      strip_lines_body ch n body (closer ∷ rest) b
      ∙ ap (λ r. replicate (length body) (b' ' ∷ []) ++ (b' ' ∷ []) ∷ r) (rw c refl)))

-- A fence that is never closed hides all that follows.
pub strip_lines_unclosed :
    (ch n : ℕ) (body : List Bytes)
    → All (StaysOpen ch n) body
    → strip_lines (some (ch, n)) body ≡ replicate (length body) (b' ' ∷ [])
unfolding strip_lines
strip_lines_unclosed ch n [] h = refl
strip_lines_unclosed ch n (line ∷ body) h =
    rw h.0 (ap (◌∷◌ (b' ' ∷ [])) (strip_lines_unclosed ch n body h.1))

after_backtick-append :
    (s rest : Bytes) → Lacks b'`' s → after_backtick (s ++ b'`' ∷ rest) ≡ some rest
unfolding after_backtick contains_byte
after_backtick-append [] rest h = refl
after_backtick-append (x ∷ s) rest h = ground (arith, after_backtick-append s rest)

run_length_zero : (s rest : Bytes) → s ≢ [] → Lacks b'`' s → run_length b'`' (s ++ rest) ≡ 0
unfolding run_length contains_byte
run_length_zero [] rest h l = absurd (h refl)
run_length_zero (x ∷ s) rest h l = ground arith

abbrev spans : Bytes → Bytes
spans s = strip_spans (length s) s

spans-cons :
    (x : ℕ) (xs : Bytes) → spans (x ∷ xs) ≡ (inline_round x xs).0 ++ spans (inline_round x xs).1
spans-cons x xs =
    unfold strip_spans in
    ap (λ r. (inline_round x xs).0 ++ r)
      (strip_spans_fuel (length xs) (length (inline_round x xs).1) (inline_round x xs).1
        (inline_round-le x xs) (omega arith))

inline_round_plain : (x : ℕ) (xs : Bytes) → (x == b'`') ≡ false → inline_round x xs ≡ (x ∷ [], xs)
unfolding inline_round
inline_round_plain x xs h = ground arith

inline_round_span :
    (code rest : Bytes)
    → code ≢ []
    → Lacks b'`' code
    → inline_round b'`' (code ++ b'`' ∷ rest) ≡ (b' ' ∷ [], rest)
unfolding inline_round
inline_round_span code rest ne h =
    ground (arith, run_length_zero code (b'`' ∷ rest) ne h, after_backtick-append code rest h)

spans_plain : (pre rest : Bytes) → Lacks b'`' pre → spans (pre ++ rest) ≡ pre ++ spans rest
spans_plain [] rest h = refl
spans_plain (x ∷ pre) rest h =
    spans-cons x (pre ++ rest)
    ∙ rw (inline_round_plain x (pre ++ rest) (unfold contains_byte in ground arith))
        (ap (◌∷◌ x) (spans_plain pre rest (unfold contains_byte in ground arith)))

strip_inline_code_lem : (s : Bytes) → strip_inline_code s ≡ spans s
unfolding strip_inline_code
strip_inline_code_lem s = elim (Bool-cases (contains_byte b'`' s)) [
  | inl some_tick ↦ rw some_tick refl
  | inr no_tick ↦
      rw no_tick (sym (append-nil s) ∙ sym (spans_plain s [] no_tick) ∙ ap spans (append-nil s))
]

-- Text with no backtick, a code span, and any text behind it: the text is kept, the span becomes
-- one space, and the rest is treated the same way.
pub strip_inline_code_span :
    (pre code rest : Bytes)
    → Lacks b'`' pre
    → code ≢ []
    → Lacks b'`' code
    → strip_inline_code (pre ++ b'`' ∷ (code ++ b'`' ∷ rest)) ≡ pre ++ b' ' ∷ strip_inline_code rest
strip_inline_code_span pre code rest p ne h =
    strip_inline_code_lem (pre ++ b'`' ∷ (code ++ b'`' ∷ rest))
    ∙ spans_plain pre (b'`' ∷ (code ++ b'`' ∷ rest)) p
    ∙ ap (λ r. pre ++ r)
        (spans-cons b'`' (code ++ b'`' ∷ rest)
          ∙ rw (inline_round_span code rest ne h)
              (ap (◌∷◌ b' ') (sym (strip_inline_code_lem rest))))
