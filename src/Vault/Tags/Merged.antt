-- ===== src/Vault/Tags/Merged.antt =====
-- internal/vault/tags.go, mergeTags: the union of two lists of tags, each tag once.
use obsidian_mcp_server.Prelude.{
  ◌≡◌, ◌≢◌, ◌↔◌, ◌⊎◌, inl, inr, refl, sym, ap, ◌∙◌, subst, true, false, List, [], ◌∷◌, ◌++◌, In,
  All, arith, Bool-cases, Any-append, Any-left, Any-right, All-append, append_assoc, append-nil,
}
use mathlib.Core.Bool.{false≢true}
use obsidian_mcp_server.Strings.{Bytes, eq_bytes, eq_bytes_iff}
use obsidian_mcp_server.Vault.Tags.{has_tag, add_once, add_all, merge_tags}

-- No tag stands in the list twice.
unfoldable pub IsDistinct : List Bytes → Type 0
IsDistinct [] = Unit
IsDistinct (t ∷ ts) = All (λ u. u ≢ t) ts × IsDistinct ts

pub has_tag_iff : (tag : Bytes) (ts : List Bytes) → (has_tag tag ts ≡ true) ↔ In tag ts
unfolding has_tag
has_tag_iff tag [] = (λ h. false≢true h, λ h. elim h [ ])
has_tag_iff tag (t ∷ ts) = elim (Bool-cases (eq_bytes t tag)) [
  | inl e ↦ rw e (λ h. inl (sym ((eq_bytes_iff t tag).0 e)), λ h. refl)
  | inr e ↦ rw e (
    λ h. inr ((has_tag_iff tag ts).0 h),
    λ h. elim h [
      | inl k ↦ absurd (false≢true (sym e ∙ (eq_bytes_iff t tag).1 (sym k)))
      | inr k ↦ (has_tag_iff tag ts).1 k
    ],
  )
]

lacking : (tag : Bytes) (ts : List Bytes) → has_tag tag ts ≡ false → All (λ u. u ≢ tag) ts
unfolding has_tag
lacking tag [] h = tt
lacking tag (t ∷ ts) h =
    (λ e. ground (arith, h, (eq_bytes_iff t tag).1 e), lacking tag ts (ground (arith, h)))

behind-IsDistinct :
    (tag : Bytes) (ts : List Bytes)
    → All (λ u. u ≢ tag) ts
    → IsDistinct ts
    → IsDistinct (ts ++ tag ∷ [])
unfolding IsDistinct
behind-IsDistinct tag [] h d = (tt, tt)
behind-IsDistinct tag (t ∷ ts) h d = (
  All-append (λ u. u ≢ t) ts (tag ∷ []) d.0 ((λ e. h.0 (sym e)), tt),
  behind-IsDistinct tag ts h.1 d.1,
)

-- What becomes of the tags put out so far when tags are added.
abbrev Adds : List Bytes → List Bytes → List Bytes → Type 0
Adds out ts new =
    (IsDistinct out → IsDistinct new)
    × ((tag : Bytes) → In tag new ↔ (In tag out ⊎ In tag ts))
    × ((more : List Bytes) × (new ≡ out ++ more))

add_once-Adds : (t : Bytes) (out : List Bytes) → Adds out (t ∷ []) (add_once t out)
add_once-Adds t out = elim (Bool-cases (has_tag t out)) [
  | inl e ↦ rw e (
    λ d. d,
    λ tag. (
      λ h. inl h,
      λ h. elim h [
        | inl k ↦ k
        | inr k ↦ elim k [
          | inl q ↦ subst (λ z. In z out) (sym q) ((has_tag_iff t out).0 e)
          | inr q ↦ absurd q
        ]
      ],
    ),
    ([], sym (append-nil out)),
  )
  | inr e ↦ rw e (
    λ d. behind-IsDistinct t out (lacking t out e) d,
    λ tag. (
      Any-append (λ y. tag ≡ y) out (t ∷ []),
      λ h. elim h [
        | inl k ↦ Any-left (λ y. tag ≡ y) out (t ∷ []) k
        | inr k ↦ Any-right (λ y. tag ≡ y) out (t ∷ []) k
      ],
    ),
    (t ∷ [], refl),
  )
]

add_all-Adds : (out ts : List Bytes) → Adds out ts (add_all out ts)
unfolding add_all
add_all-Adds out [] = (
  λ d. d,
  λ tag. (λ h. inl h, λ h. elim h [ inl k ↦ k | inr k ↦ absurd k ]),
  ([], sym (append-nil out)),
)
add_all-Adds out (t ∷ ts) =
    let one = add_once-Adds t out in
    let more = add_all-Adds (add_once t out) ts in
    (
      λ d. more.0 (one.0 d),
      λ tag. (
        λ h. elim ((more.1 tag).0 h) [
          | inl k ↦ elim ((one.1 tag).0 k) [
            | inl q ↦ inl q
            | inr q ↦ elim q [ inl e ↦ inr (inl e) | inr e ↦ absurd e ]
          ]
          | inr k ↦ inr (inr k)
        ],
        λ h. (more.1 tag).1 (elim h [
          | inl k ↦ inl ((one.1 tag).1 (inl k))
          | inr k ↦ elim k [ inl e ↦ inl ((one.1 tag).1 (inr (inl e))) | inr q ↦ inr q ]
        ]),
      ),
      (
        one.2.0 ++ more.2.0,
        more.2.1 ∙ ap (λ l. l ++ more.2.0) one.2.1 ∙ append_assoc out one.2.0 more.2.0,
      ),
    )

-- The merged tags are the tags of the frontmatter and the inline tags, each once; those of the
-- frontmatter stand first.
pub merge_tags-IsDistinct :
    (fm_tags inline_tags : List Bytes)
    → IsDistinct (merge_tags fm_tags inline_tags)
      × ((tag : Bytes)
          → In tag (merge_tags fm_tags inline_tags) ↔ (In tag fm_tags ⊎ In tag inline_tags))
      × ((more : List Bytes) × (merge_tags fm_tags inline_tags ≡ merge_tags fm_tags [] ++ more))
unfolding merge_tags IsDistinct add_all
merge_tags-IsDistinct fm_tags inline_tags =
    let fm = add_all-Adds [] fm_tags in
    let all = add_all-Adds (add_all [] fm_tags) inline_tags in
    (
      all.0 (fm.0 tt),
      λ tag. (
        λ h. elim ((all.1 tag).0 h) [
          | inl k ↦ elim ((fm.1 tag).0 k) [ inl e ↦ absurd e | inr q ↦ inl q ]
          | inr k ↦ inr k
        ],
        λ h. (all.1 tag).1 (elim h [ inl k ↦ inl ((fm.1 tag).1 (inr k)) | inr k ↦ inr k ]),
      ),
      all.2,
    )
