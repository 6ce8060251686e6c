-- ===== src/Vault/FilePath/Clean.antt =====
-- filepath.Clean by components: what its result is made of.
use obsidian_mcp_server.Prelude.{
  ◌≡◌, ◌≢◌, refl, ap, sym, ◌∙◌, ◌⊎◌, inl, inr, Bool, true, false, ◌||◌, List, [], ◌∷◌, ◌++◌, arith,
  All, Bool-cases, append_assoc, append-nil, All-append,
}
use mathlib.Core.List.{reverse, reverse-append, reverse-reverse}
use obsidian_mcp_server.Strings.{Bytes, eq_bytes, eq_bytes_iff, eq_bytes_refl}
use obsidian_mcp_server.Vault.FilePath.{dot, dot_dot, push_up, push_component, clean_stack}

-- A component that names an entry of its directory.
abbrev pub IsPlain : Bytes → Type 0
IsPlain c = (c ≢ []) × (c ≢ dot) × (c ≢ dot_dot)

push_plain :
    (rooted : Bool) (stack : List Bytes) (c : Bytes)
    → IsPlain c
    → push_component rooted stack c ≡ c ∷ stack
unfolding push_component
push_plain rooted stack c h =
    ground (arith, eq_bytes_iff c [], eq_bytes_iff c dot, eq_bytes_iff c dot_dot)

pub clean_stack_plain :
    (rooted : Bool) (stack cs : List Bytes)
    → All IsPlain cs
    → clean_stack rooted stack cs ≡ reverse cs ++ stack
unfolding clean_stack
clean_stack_plain rooted stack [] h = refl
clean_stack_plain rooted stack (c ∷ cs) h = rw (push_plain rooted stack c h.0) (
    clean_stack_plain rooted (c ∷ stack) cs h.1
    ∙ sym (append_assoc (reverse cs) (c ∷ []) stack)
    ∙ ap (λ s. s ++ stack) (sym (reverse-append (c ∷ []) cs)))

-- Plain components above the `..` that lead out of the path.
abbrev pub NormalStack : List Bytes → Type 0
NormalStack [] = Unit
NormalStack (c ∷ stack) =
    (IsPlain c × NormalStack stack) ⊎ ((c ≡ dot_dot) × All (λ d. d ≡ dot_dot) stack)

up_normal : (stack : List Bytes) → All (λ d. d ≡ dot_dot) stack → NormalStack stack
up_normal [] h = tt
up_normal (c ∷ stack) h = inr h

push_up_normal :
    (rooted : Bool) (stack : List Bytes) → NormalStack stack → NormalStack (push_up rooted stack)
unfolding push_up
push_up_normal true [] h = tt
push_up_normal false [] h = inr (refl, tt)
push_up_normal rooted (c ∷ stack) (inl (p, n)) = elim (Bool-cases (eq_bytes c dot_dot)) [
  | inl e ↦ absurd (p.2 ((eq_bytes_iff c dot_dot).0 e))
  | inr other ↦ rw other n
]
push_up_normal rooted (c ∷ stack) (inr (e, ups)) =
    rw (e, eq_bytes_refl dot_dot) (inr (refl, (refl, ups)))

push_normal :
    (rooted : Bool) (stack : List Bytes) (c : Bytes)
    → NormalStack stack
    → NormalStack (push_component rooted stack c)
unfolding push_component
push_normal rooted stack c h = elim (Bool-cases (eq_bytes c [] || eq_bytes c dot)) [
  | inl skip ↦ rw skip h
  | inr named ↦ elim (Bool-cases (eq_bytes c dot_dot)) [
    | inl up ↦ rw (named, up) (push_up_normal rooted stack h)
    | inr plain ↦
        rw (named, plain)
          (inl (
            (
              ground (arith, eq_bytes_iff c []),
              ground (arith, eq_bytes_iff c dot),
              ground (arith, eq_bytes_iff c dot_dot),
            ),
            h,
          ))
  ]
]

pub clean_stack_normal :
    (rooted : Bool) (stack cs : List Bytes)
    → NormalStack stack
    → NormalStack (clean_stack rooted stack cs)
unfolding clean_stack
clean_stack_normal rooted stack [] h = h
clean_stack_normal rooted stack (c ∷ cs) h =
    clean_stack_normal rooted (push_component rooted stack c) cs (push_normal rooted stack c h)

-- What holds of the components and of `..` holds of the result.
module _ (P : Bytes → Type 0) (up : P dot_dot) where
  push_up-All : (rooted : Bool) (stack : List Bytes) → All P stack → All P (push_up rooted stack)
  unfolding push_up
  push_up-All true [] h = tt
  push_up-All false [] h = (up, tt)
  push_up-All rooted (c ∷ stack) h = elim (Bool-cases (eq_bytes c dot_dot)) [
    | inl e ↦ rw e (up, h)
    | inr n ↦ rw n h.1
  ]

  push_component-All :
      (rooted : Bool) (stack : List Bytes) (c : Bytes)
      → P c
      → All P stack
      → All P (push_component rooted stack c)
  unfolding push_component
  push_component-All rooted stack c p h = elim (Bool-cases (eq_bytes c [] || eq_bytes c dot)) [
    | inl skip ↦ rw skip h
    | inr named ↦ elim (Bool-cases (eq_bytes c dot_dot)) [
      | inl e ↦ rw (named, e) (push_up-All rooted stack h)
      | inr plain ↦ rw (named, plain) (p, h)
    ]
  ]

  pub clean_stack-All :
      (rooted : Bool) (stack cs : List Bytes)
      → All P stack
      → All P cs
      → All P (clean_stack rooted stack cs)
  unfolding clean_stack
  clean_stack-All rooted stack [] h a = h
  clean_stack-All rooted stack (c ∷ cs) h a =
      clean_stack-All rooted (push_component rooted stack c) cs
        (push_component-All rooted stack c a.0 h) a.1

pub clean_stack-append :
    (rooted : Bool) (stack xs ys : List Bytes)
    → clean_stack rooted stack (xs ++ ys) ≡ clean_stack rooted (clean_stack rooted stack xs) ys
unfolding clean_stack
clean_stack-append rooted stack [] ys = refl
clean_stack-append rooted stack (x ∷ xs) ys =
    clean_stack-append rooted (push_component rooted stack x) xs ys

pub All-reverse : (P : Bytes → Type 0) (xs : List Bytes) → All P xs → All P (reverse xs)
All-reverse P [] h = tt
All-reverse P (x ∷ xs) h =
    rw (reverse-append (x ∷ []) xs)
      (All-append P (reverse xs) (x ∷ []) (All-reverse P xs h.1) (h.0, tt))

-- The result begins with `..`.
abbrev pub LeadsUp : List Bytes → Type 0
LeadsUp cs = (rest : List Bytes) × (cs ≡ dot_dot ∷ rest)

LeadsUp-reverse :
    (c : Bytes) (stack : List Bytes) → LeadsUp (reverse stack) → LeadsUp (reverse (c ∷ stack))
LeadsUp-reverse c stack (rest, e) =
    (rest ++ c ∷ [], reverse-append (c ∷ []) stack ∙ ap (λ s. s ++ c ∷ []) e)

ups-LeadsUp :
    (c : Bytes) (stack : List Bytes)
    → c ≡ dot_dot
    → All (λ d. d ≡ dot_dot) stack
    → LeadsUp (reverse (c ∷ stack))
ups-LeadsUp c [] e h = ([], ap (λ x. x ∷ []) e)
ups-LeadsUp c (d ∷ stack) e h = LeadsUp-reverse c (d ∷ stack) (ups-LeadsUp d stack h.0 h.1)

pub normal_cases :
    (stack : List Bytes) → NormalStack stack → All IsPlain stack ⊎ LeadsUp (reverse stack)
normal_cases [] h = inl tt
normal_cases (c ∷ stack) (inl (p, n)) = elim (normal_cases stack n) [
  | inl plain ↦ inl (p, plain)
  | inr up ↦ inr (LeadsUp-reverse c stack up)
]
normal_cases (c ∷ stack) (inr (e, h)) = inr (ups-LeadsUp c stack e h)

clean_plain_list :
    (rooted : Bool) (cs : List Bytes) → All IsPlain cs → clean_stack rooted [] cs ≡ reverse cs
clean_plain_list rooted cs h = clean_stack_plain rooted [] cs h ∙ append-nil (reverse cs)

-- The stack of a rooted path through plain components, and then more components.
pub clean_stack_below :
    (rs cs : List Bytes)
    → All IsPlain rs
    → All IsPlain cs
    → reverse (clean_stack true [] (rs ++ cs)) ≡ rs ++ cs
clean_stack_below rs cs h k =
    ap reverse (clean_plain_list true (rs ++ cs) (All-append IsPlain rs cs h k))
    ∙ reverse-reverse (rs ++ cs)

skip_dot : (stack : List Bytes) → clean_stack true stack (dot ∷ []) ≡ stack
unfolding clean_stack push_component eq_bytes
skip_dot stack = refl

pub clean_stack_below_dot :
    (rs : List Bytes) → All IsPlain rs → reverse (clean_stack true [] (rs ++ dot ∷ [])) ≡ rs
clean_stack_below_dot rs h =
    ap reverse (
      clean_stack-append true [] rs (dot ∷ [])
      ∙ ap (λ st. clean_stack true st (dot ∷ [])) (clean_plain_list true rs h)
      ∙ skip_dot (reverse rs))
    ∙ reverse-reverse rs
