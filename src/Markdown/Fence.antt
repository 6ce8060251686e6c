-- ===== src/Markdown/Fence.antt =====
-- FenceOpener and IsFenceCloser against a description of the lines that they accept.
use obsidian_mcp_server.Prelude.{
  ℕ, zero, suc, ◌+◌, ◌≤◌, ◌<◌, ◌≡◌, ◌≢◌, ◌↔◌, ◌⊎◌, inl, inr, refl, ap, ◌∙◌, true, none, some, [],
  ◌∷◌, ◌++◌, ◌==◌, if◌then◌else◌, ltb, arith, length, drop, replicate, Bool-cases, ==_iff,
  length-append, length-replicate,
}
use obsidian_mcp_server.Strings.{Bytes, run_length}
use obsidian_mcp_server.Markdown.{fence_run, fence_opener, all_spaces, is_fence_closer}

-- A line that begins with exactly `n` bytes `ch`.
abbrev pub BeginsWithRun : ℕ → ℕ → Bytes → Type 0
BeginsWithRun ch n line =
    (rest : Bytes) × (line ≡ replicate n ch ++ rest) × (run_length ch rest ≡ 0)

run_length_split :
    (ch : ℕ) (line : Bytes)
    → line ≡ replicate (run_length ch line) ch ++ drop (run_length ch line) line
unfolding run_length
run_length_split ch [] = refl
run_length_split ch (x ∷ xs) = elim (Bool-cases (x == ch)) [
  | inl same ↦
      rw same (ap (λ y. y ∷ xs) ((==_iff x ch).0 same) ∙ ap (◌∷◌ ch) (run_length_split ch xs))
  | inr other ↦ rw other refl
]

run_length-drop : (ch : ℕ) (line : Bytes) → run_length ch (drop (run_length ch line) line) ≡ 0
unfolding run_length
run_length-drop ch [] = refl
run_length-drop ch (x ∷ xs) = ground (arith, run_length-drop ch xs)

run_length-replicate :
    (ch n : ℕ) (rest : Bytes) → run_length ch (replicate n ch ++ rest) ≡ n + run_length ch rest
unfolding run_length
run_length-replicate ch zero rest = omega arith
run_length-replicate ch (suc n) rest = ground (arith, run_length-replicate ch n rest)

drop-replicate : (ch n : ℕ) (rest : Bytes) → drop n (replicate n ch ++ rest) ≡ rest
drop-replicate ch zero rest = refl
drop-replicate ch (suc n) rest = drop-replicate ch n rest

fence_run_lem :
    (ch : ℕ) (line : Bytes)
    → fence_run ch line
      ≡ (if ltb (run_length ch line) 3 then none else some (ch, run_length ch line))
unfolding fence_run run_length
fence_run_lem ch (a ∷ b ∷ c ∷ rest) = ground arith
fence_run_lem ch (a ∷ b ∷ []) = ground arith
fence_run_lem ch (a ∷ []) = ground arith
fence_run_lem ch [] = ground arith

all_spaces-replicate : (k : ℕ) → all_spaces (replicate k b' ') ≡ true
unfolding all_spaces
all_spaces-replicate zero = refl
all_spaces-replicate (suc k) = all_spaces-replicate k

all_spaces_lem : (s : Bytes) → all_spaces s ≡ true → s ≡ replicate (length s) b' '
unfolding all_spaces
all_spaces_lem [] h = refl
all_spaces_lem (x ∷ xs) h = ground (arith, all_spaces_lem xs)

run_length_spaces : (ch k : ℕ) → ch ≢ b' ' → run_length ch (replicate k b' ') ≡ 0
unfolding run_length
run_length_spaces ch zero h = refl
run_length_spaces ch (suc k) h = ground arith

-- A run that is cut where it ends has its length.
BeginsWithRun-run_length :
    (ch n : ℕ) (line : Bytes) → BeginsWithRun ch n line → run_length ch line ≡ n
BeginsWithRun-run_length ch n line (rest, e, z) =
    rw e (omega (arith, run_length-replicate ch n rest))

run_length-BeginsWithRun :
    (ch n : ℕ) (line : Bytes) → run_length ch line ≡ n → BeginsWithRun ch n line
run_length-BeginsWithRun ch n line e =
    rw (← e) (drop (run_length ch line) line, run_length_split ch line, run_length-drop ch line)

-- `run_length` of another character is 0 on a line that begins with a run.
run_length_other : (c d : ℕ) (line : Bytes) → c ≢ d → 0 < run_length c line → run_length d line ≡ 0
unfolding run_length
run_length_other c d [] h p = refl
run_length_other c d (x ∷ xs) h p = ground arith

fence_opener_lem :
    (line : Bytes)
    → fence_opener line ≡ (
        if ltb (run_length b'`' line) 3
        then if ltb (run_length b'~' line) 3 then none else some (b'~', run_length b'~' line)
        else some (b'`', run_length b'`' line))
unfolding fence_opener
fence_opener_lem line = ground (arith, fence_run_lem b'`' line, fence_run_lem b'~' line)

-- A line opens a fence of the character `ch` and the length `n` exactly if `ch` is a backtick or a
-- tilde, and the line begins with a run of exactly `n` of it, at least three.
pub fence_opener_iff :
    (line : Bytes) (ch n : ℕ)
    → (fence_opener line ≡ some (ch, n))
      ↔ (((ch ≡ b'`') ⊎ (ch ≡ b'~')) × (3 ≤ n) × BeginsWithRun ch n line)
fence_opener_iff line ch n = (
  λ h. (
    ground (arith, fence_opener_lem line),
    ground (arith, fence_opener_lem line),
    run_length-BeginsWithRun ch n line (ground (arith, fence_opener_lem line)),
  ),
  λ h. ground (
    arith,
    fence_opener_lem line,
    BeginsWithRun-run_length ch n line h.2,
    run_length_other b'~' b'`' line,
  ),
)

-- A line closes a fence of the character `ch` and the length `n` exactly if it is a run of at least
-- `n` of that character and then spaces only. `ch` is not the space itself.
pub is_fence_closer_iff :
    (line : Bytes) (ch n : ℕ)
    → ch ≢ b' '
    → (is_fence_closer line ch n ≡ true)
      ↔ ((j : ℕ) × (k : ℕ) × (n ≤ j) × (line ≡ replicate j ch ++ replicate k b' '))
is_fence_closer_iff line ch n h = (
  λ c. (
    run_length ch line,
    length (drop (run_length ch line) line),
    unfold is_fence_closer in ground arith,
    run_length_split ch line
        ∙ ap (λ s. replicate (run_length ch line) ch ++ s)
            (all_spaces_lem (drop (run_length ch line) line)
              (unfold is_fence_closer in ground arith)),
  ),
  λ (j, k, le, e). rw e (closes j k le),
)
  where
    closes : (j k : ℕ) → n ≤ j → is_fence_closer (replicate j ch ++ replicate k b' ') ch n ≡ true
    closes j k le =
        unfold is_fence_closer in
        ground (
          arith,
          run_length-replicate ch j (replicate k b' '),
          run_length_spaces ch k h,
          length-append (replicate j ch) (replicate k b' '),
          length-replicate j ch,
          drop-replicate ch j (replicate k b' '),
          all_spaces-replicate k,
        )
