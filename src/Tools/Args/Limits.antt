-- ===== src/Tools/Args/Limits.antt =====
-- internal/tools/args.go, effectiveLimit and clampBatch: what bounds an answer.
use obsidian_mcp_server.Prelude.{
  ℕ, zero, suc, ◌≤◌, ◌<◌, ◌≡◌, ◌↔◌, ◌⊎◌, inl, inr, refl, sym, ap, subst, Bool, true, false, List,
  [], ◌∷◌, ◌++◌, ltb, length, take, drop, min, Bool-cases, take-append-drop, length-take, arith,
}
use obsidian_mcp_server.Prelude.Int.{ℤ, pos, negsuc, pos_part}
use obsidian_mcp_server.Tools.Args.{effective_limit, clamp_batch}

-- A limit of at least one and at most the ceiling, and the one requested where that is in this range.
abbrev pub IsLimit : ℤ → ℕ → ℤ → Type 0
IsLimit requested ceiling limit =
    (limit ≡ pos (pos_part limit))
    × ((1 ≤ pos_part limit)
        × ((pos_part limit ≤ ceiling)
            × ((pos_part requested ≡ 0) ⊎ ((ceiling < pos_part requested) ⊎ (limit ≡ requested)))))

-- With a default and a ceiling of at least one, every request gets a limit of at least one and at most
-- the ceiling, and a request in that range is granted as it is.
pub effective_limit_bounds :
    (requested : ℤ) (fallback ceiling : ℕ)
    → 1 ≤ fallback
    → 1 ≤ ceiling
    → IsLimit requested ceiling (effective_limit requested (pos fallback) (pos ceiling))
unfolding effective_limit
effective_limit_bounds (pos n) fallback ceiling h k = ground arith
effective_limit_bounds (negsuc n) fallback ceiling h k = ground arith

clamp_batch_cut {ℓ} :
    {A : Type ℓ} (paths : List A) (max : ℕ)
    → 1 ≤ max
    → max < length paths
    → clamp_batch paths (pos max) ≡ (take max paths, true)
unfolding clamp_batch
clamp_batch_cut paths max h k = ground arith

clamp_batch_kept {ℓ} :
    {A : Type ℓ} (paths : List A) (max : ℕ)
    → length paths ≤ max
    → clamp_batch paths (pos max) ≡ (paths, false)
unfolding clamp_batch
clamp_batch_kept paths max k = ground arith

drop_all {ℓ} : {A : Type ℓ} (n : ℕ) (xs : List A) → length xs ≤ n → xs ++ drop n xs ≡ xs
drop_all zero [] h = refl
drop_all zero (x ∷ xs) h = absurd (omega arith)
drop_all (suc n) [] h = refl
drop_all (suc n) (x ∷ xs) h = ap (◌∷◌ x) (drop_all n xs (omega arith))

-- What a batch of `paths` with the limit `max` is to be.
abbrev pub IsBatch {ℓ} : {A : Type ℓ} → List A → ℕ → List A × Bool → Type ℓ
IsBatch paths max o =
    (length o.0 ≡ min max (length paths))
    × ((o.0 ++ drop max paths ≡ paths) × ((o.1 ≡ true) ↔ (max < length paths)))

-- Of a batch with a positive limit the first paths are kept, as many as there are or as the limit
-- allows, and the answer says that some were cut off exactly if some were.
pub clamp_batch_lem {ℓ} :
    {A : Type ℓ} (paths : List A) (max : ℕ)
    → 1 ≤ max
    → IsBatch paths max (clamp_batch paths (pos max))
clamp_batch_lem paths max h = elim (Bool-cases (ltb max (length paths))) [
  | inl e ↦
      subst (IsBatch paths max) (sym (clamp_batch_cut paths max h (ground arith)))
        (length-take max paths, (take-append-drop max paths, (λ _. ground arith, λ _. refl)))
  | inr e ↦
      subst (IsBatch paths max) (sym (clamp_batch_kept paths max (ground arith)))
        (ground arith, (drop_all max paths (ground arith), (λ t. cc, λ k. ground arith)))
]
