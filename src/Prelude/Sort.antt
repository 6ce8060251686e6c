-- ===== src/Prelude/Sort.antt =====
-- Go's sort.Slice and sort.Strings where no two elements are equal, so that every sorting algorithm
-- gives the same list.
use Prim.Native.Nat.{ℕ, zero, suc}
use mathlib.Core.Path.{◌≡◌, refl, ap, ◌∙◌}
use mathlib.Core.Logic.{◌↔◌, ◌⊎◌, inl, inr}
use mathlib.Core.Bool.{Bool, true, false}
use mathlib.Core.List.{List, [], ◌∷◌, Perm}
use mathlib.Core.List.Perm
use native.Mathlib.Omega.{arith}
use obsidian_mcp_server.Prelude.Tests.{if◌then◌else◌, Bool-cases}
use obsidian_mcp_server.Prelude.Lists.{All, In, length, take, drop, All_map}

module _ {A : Type 0} (before : A → A → Bool) where
  unfoldable pub insert_in_order : A → List A → List A
  insert_in_order x [] = x ∷ []
  insert_in_order x (y ∷ ys) =
      let rest = insert_in_order x ys in if before y x then y ∷ rest else x ∷ y ∷ ys

  unfoldable pub sort : List A → List A
  unfolding insert_in_order
  sort [] = []
  sort (x ∷ xs) = insert_in_order x (sort xs)

  -- No element comes behind one that it should come before.
  unfoldable pub IsSorted : List A → Type 0
  IsSorted [] = Unit
  IsSorted (x ∷ xs) = All (λ y. before y x ≡ false) xs × IsSorted xs

  pub length-insert_in_order :
      (x : A) (xs : List A) → length (insert_in_order x xs) ≡ suc (length xs)
  unfolding insert_in_order
  length-insert_in_order x [] = refl
  length-insert_in_order x (y ∷ ys) = ground (arith, length-insert_in_order x ys)

  pub length-sort : (xs : List A) → length (sort xs) ≡ length xs
  unfolding sort
  length-sort [] = refl
  length-sort (x ∷ xs) = length-insert_in_order x (sort xs) ∙ ap suc (length-sort xs)

  swapped : {P Q R : Type 0} → P ⊎ (Q ⊎ R) → Q ⊎ (P ⊎ R)
  swapped (inl p) = inr (inl p)
  swapped (inr (inl q)) = inl q
  swapped (inr (inr r)) = inr (inr r)

  shifted : {P Q R : Type 0} → (Q → R) → P ⊎ Q → P ⊎ R
  shifted f (inl p) = inl p
  shifted f (inr q) = inr (f q)

  pub In-insert_in_order :
      (z x : A) (xs : List A) → In z (insert_in_order x xs) ↔ ((z ≡ x) ⊎ In z xs)
  unfolding insert_in_order
  In-insert_in_order z x [] = (λ h. h, λ h. h)
  In-insert_in_order z x (y ∷ ys) = elim (Bool-cases (before y x)) [
    | inl e ↦ rw e (
      λ h. swapped (shifted (In-insert_in_order z x ys).0 h),
      λ h. shifted (In-insert_in_order z x ys).1 (swapped h),
    )
    | inr e ↦ rw e (λ h. h, λ h. h)
  ]

  pub In-sort : (z : A) (xs : List A) → In z (sort xs) ↔ In z xs
  unfolding sort
  In-sort z [] = (λ h. h, λ h. h)
  In-sort z (x ∷ xs) = (
    λ h. shifted (In-sort z xs).0 ((In-insert_in_order z x (sort xs)).0 h),
    λ h. (In-insert_in_order z x (sort xs)).1 (shifted (In-sort z xs).1 h),
  )

  pub All-insert_in_order :
      (P : A → Type 0) (x : A) (xs : List A) → P x → All P xs → All P (insert_in_order x xs)
  unfolding insert_in_order
  All-insert_in_order P x [] p h = (p, tt)
  All-insert_in_order P x (y ∷ ys) p h = elim (Bool-cases (before y x)) [
    | inl e ↦ rw e (h.0, All-insert_in_order P x ys p h.1)
    | inr e ↦ rw e (p, h)
  ]

  pub All-sort : (P : A → Type 0) (xs : List A) → All P xs → All P (sort xs)
  unfolding sort
  All-sort P [] h = tt
  All-sort P (x ∷ xs) h = All-insert_in_order P x (sort xs) h.0 (All-sort P xs h.1)

  module _ (asym : (x y : A) → before x y ≡ true → before y x ≡ false)
      (trans : (x y z : A) → before y x ≡ false → before z y ≡ false → before z x ≡ false) where
    insert-IsSorted : (x : A) (xs : List A) → IsSorted xs → IsSorted (insert_in_order x xs)
    unfolding insert_in_order IsSorted
    insert-IsSorted x [] h = (tt, tt)
    insert-IsSorted x (y ∷ ys) h = elim (Bool-cases (before y x)) [
      | inl e ↦ rw e (
        All-insert_in_order (λ z. before z y ≡ false) x ys (asym y x e) h.0,
        insert-IsSorted x ys h.1,
      )
      | inr e ↦ rw e (
        (
          e,
          All_map (λ z. before z y ≡ false) (λ z. before z x ≡ false) ys (λ z k. trans x y z e k)
              h.0,
        ),
        h,
      )
    ]

    pub sort-IsSorted : (xs : List A) → IsSorted (sort xs)
    unfolding sort IsSorted
    sort-IsSorted [] = tt
    sort-IsSorted (x ∷ xs) = insert-IsSorted x (sort xs) (sort-IsSorted xs)

  pub In-take : (n : ℕ) (z : A) (xs : List A) → In z (take n xs) → In z xs
  In-take zero z xs h = elim h [ ]
  In-take (suc n) z [] h = elim h [ ]
  In-take (suc n) z (x ∷ xs) h = shifted (In-take n z xs) h

  All_drop : (P : A → Type 0) (n : ℕ) (xs : List A) → All P xs → All P (drop n xs)
  All_drop P zero xs h = h
  All_drop P (suc n) [] h = tt
  All_drop P (suc n) (x ∷ xs) h = All_drop P n xs h.1

  All_always : (xs : List A) → All (λ z. Unit {0}) xs
  All_always [] = tt
  All_always (x ∷ xs) = (tt, All_always xs)

  All_with : (P Q : A → Type 0) (xs : List A) → All P xs → All Q xs → All (λ z. P z × Q z) xs
  All_with P Q [] p q = tt
  All_with P Q (x ∷ xs) p q = ((p.0, q.0), All_with P Q xs p.1 q.1)

  All_take : (P : A → Type 0) (n : ℕ) (xs : List A) → All P xs → All P (take n xs)
  All_take P zero xs h = tt
  All_take P (suc n) [] h = tt
  All_take P (suc n) (x ∷ xs) h = (h.0, All_take P n xs h.1)

  pub IsSorted-take : (n : ℕ) (xs : List A) → IsSorted xs → IsSorted (take n xs)
  unfolding IsSorted
  IsSorted-take zero xs h = tt
  IsSorted-take (suc n) [] h = tt
  IsSorted-take (suc n) (x ∷ xs) h =
      (All_take (λ z. before z x ≡ false) n xs h.0, IsSorted-take n xs h.1)

  -- What is not taken of a sorted list comes before nothing that is.
  pub drop-take_behind :
      (n : ℕ) (xs : List A)
      → IsSorted xs
      → All (λ z. All (λ x. before z x ≡ false) (take n xs)) (drop n xs)
  unfolding IsSorted
  drop-take_behind zero xs h = All_always xs
  drop-take_behind (suc n) [] h = tt
  drop-take_behind (suc n) (x ∷ xs) h =
      All_with (λ z. before z x ≡ false) (λ z. All (λ w. before z w ≡ false) (take n xs))
        (drop n xs) (All_drop (λ z. before z x ≡ false) n xs h.0) (drop-take_behind n xs h.1)

  Perm-insert_in_order : (x : A) (xs : List A) → Perm (insert_in_order x xs) (x ∷ xs)
  unfolding insert_in_order
  Perm-insert_in_order x [] = Perm.refl (x ∷ [])
  Perm-insert_in_order x (y ∷ ys) = elim (Bool-cases (before y x)) [
    | inl e ↦ rw e (Perm.trans (Perm.cons y (Perm-insert_in_order x ys)) (Perm.swap x y ys))
    | inr e ↦ rw e (Perm.refl (x ∷ y ∷ ys))
  ]

  pub Perm-sort : (xs : List A) → Perm (sort xs) xs
  unfolding sort
  Perm-sort [] = Perm.refl []
  Perm-sort (x ∷ xs) = Perm.trans (Perm-insert_in_order x (sort xs)) (Perm.cons x (Perm-sort xs))
