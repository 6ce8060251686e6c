-- ===== src/Vault/Headings/Sections.antt =====
-- What PatchNote does to a note, by the section that its heading begins.
use obsidian_mcp_server.Prelude.{
  ℕ, ◌+◌, ◌≡◌, ◌⊎◌, inl, inr, refl, ap, sym, ◌∙◌, true, false, none, some, List, [], ◌∷◌, ◌++◌,
  length, take, drop, arith, All, Bool-cases, append_assoc, take-length-append, drop-length-append,
  length-append,
}
use obsidian_mcp_server.Prelude.Exec.{ok, err}
use obsidian_mcp_server.Strings.{Bytes}
use obsidian_mcp_server.Vault.Headings.{
  heading_level, is_heading_line, find_heading, ends_section, body_end, Position, before, after,
  replace_body, unknown, heading_not_found, unknown_position, patch_at, line_at, patch_lines,
}

abbrev pub IsOther : Bytes → Bytes → Type 0
IsOther heading line = is_heading_line line heading ≡ false

-- Lines that begin with the end of a section, or none.
abbrev pub Ends : ℕ → List Bytes → Type 0
Ends level [] = Unit
Ends level (line ∷ lines) = ends_section level line ≡ true

-- The section of a heading: the first line that is this heading, the lines below it up to a
-- heading of the same or a higher level, and the lines around it.
pub record Section (heading : Bytes) (lines : List Bytes) : Type 0 where
  pub front : List Bytes
  pub title : Bytes
  pub body : List Bytes
  pub rest : List Bytes
  pub whole : lines ≡ front ++ title ∷ (body ++ rest)
  pub first : All (IsOther heading) front
  pub titled : is_heading_line title heading ≡ true
  pub inner : All (λ l. ends_section (length (heading_level title)) l ≡ false) body
  pub ended : Ends (length (heading_level title)) rest

find_heading_front :
    (heading : Bytes) (front lines : List Bytes) (i : ℕ)
    → All (IsOther heading) front
    → find_heading heading i (front ++ lines) ≡ find_heading heading (length front + i) lines
unfolding find_heading
find_heading_front heading [] lines i h = ap (λ k. find_heading heading k lines) (omega arith)
find_heading_front heading (l ∷ front) lines i h = rw h.0 (
    find_heading_front heading front lines (i + 1) h.1
    ∙ ap (λ k. find_heading heading k lines) (omega arith))

find_heading_title :
    (heading title : Bytes) (lines : List Bytes) (i : ℕ)
    → is_heading_line title heading ≡ true
    → find_heading heading i (title ∷ lines) ≡ some i
unfolding find_heading
find_heading_title heading title lines i h = rw h refl

body_end_lem :
    (level i : ℕ) (body rest : List Bytes)
    → All (λ l. ends_section level l ≡ false) body
    → Ends level rest
    → body_end level i (body ++ rest) ≡ length body + i
unfolding body_end
body_end_lem level i [] [] h e = omega arith
body_end_lem level i [] (l ∷ rest) h e = rw e (omega arith)
body_end_lem level i (l ∷ body) rest h e =
    rw h.0 (body_end_lem level (i + 1) body rest h.1 e ∙ omega arith)

-- Every note that has the heading has its section.
cut_body :
    (level : ℕ) (lines : List Bytes)
    → (body : List Bytes) × (rest : List Bytes) × (lines ≡ body ++ rest)
      × All (λ l. ends_section level l ≡ false) body
      × Ends level rest
cut_body level [] = ([], [], refl, tt, tt)
cut_body level (l ∷ lines) = elim (Bool-cases (ends_section level l)) [
  | inl e ↦ ([], l ∷ lines, refl, tt, e)
  | inr o ↦
      let (body, rest, w, a, e) = cut_body level lines in (l ∷ body, rest, ap (◌∷◌ l) w, (o, a), e)
]

section_below :
    (heading : Bytes) (l : Bytes) (lines : List Bytes)
    → is_heading_line l heading ≡ true
    → Section heading (l ∷ lines)
section_below heading l lines t =
    let (body, rest, w, a, e) = cut_body (length (heading_level l)) lines in
    record {
      front = [];
      title = l;
      body = body;
      rest = rest;
      whole = ap (◌∷◌ l) w;
      first = tt;
      titled = t;
      inner = a;
      ended = e;
    }

section_behind :
    (heading l : Bytes) (lines : List Bytes)
    → IsOther heading l
    → Section heading lines
    → Section heading (l ∷ lines)
section_behind heading l lines o s = record {
  front = l ∷ s.front;
  title = s.title;
  body = s.body;
  rest = s.rest;
  whole = ap (◌∷◌ l) s.whole;
  first = (o, s.first);
  titled = s.titled;
  inner = s.inner;
  ended = s.ended;
}

-- A note has the section of a heading, or no line is that heading.
pub section_cases :
    (heading : Bytes) (lines : List Bytes) → Section heading lines ⊎ All (IsOther heading) lines
section_cases heading [] = inr tt
section_cases heading (l ∷ lines) = elim (Bool-cases (is_heading_line l heading)) [
  | inl t ↦ inl (section_below heading l lines t)
  | inr o ↦ elim (section_cases heading lines) [
    | inl s ↦ inl (section_behind heading l lines o s)
    | inr all ↦ inr (o, all)
  ]
]

line_at-append :
    (front : List Bytes) (l : Bytes) (lines : List Bytes)
    → line_at (length front) (front ++ l ∷ lines) ≡ l
line_at-append [] l lines = refl
line_at-append (x ∷ front) l lines = line_at-append front l lines

find_heading_all :
    (heading : Bytes) (lines : List Bytes) (i : ℕ)
    → All (IsOther heading) lines
    → find_heading heading i lines ≡ none
unfolding find_heading
find_heading_all heading [] i h = refl
find_heading_all heading (l ∷ lines) i h = rw h.0 (find_heading_all heading lines (i + 1) h.1)

find_section :
    (heading : Bytes) (lines : List Bytes) (s : Section heading lines)
    → find_heading heading 0 lines ≡ some (length s.front)
find_section heading lines s =
    ap (find_heading heading 0) s.whole
    ∙ find_heading_front heading s.front (s.title ∷ (s.body ++ s.rest)) 0 s.first
    ∙ find_heading_title heading s.title (s.body ++ s.rest) (length s.front + 0) s.titled
    ∙ ap some (omega arith)

-- The same note with its section between what stands before and behind it.
take_front :
    (front : List Bytes) (l : Bytes) (lines : List Bytes)
    → (take (length front + 1) (front ++ l ∷ lines) ≡ front ++ l ∷ [])
      × (drop (length front + 1) (front ++ l ∷ lines) ≡ lines)
take_front front l lines =
    let n : length front + 1 ≡ length (front ++ l ∷ []) =
      omega (arith, length-append front (l ∷ [])) in
    let w : front ++ l ∷ lines ≡ (front ++ l ∷ []) ++ lines =
      sym (append_assoc front (l ∷ []) lines) in
    rw (n, w)
      (take-length-append (front ++ l ∷ []) lines, drop-length-append (front ++ l ∷ []) lines)

take_body :
    (front : List Bytes) (l : Bytes) (body rest : List Bytes)
    → (take (length body + (length front + 1)) (front ++ l ∷ (body ++ rest)) ≡ front ++ l ∷ body)
      × (drop (length body + (length front + 1)) (front ++ l ∷ (body ++ rest)) ≡ rest)
take_body front l body rest =
    let n : length body + (length front + 1) ≡ length (front ++ l ∷ body) =
      omega (arith, length-append front (l ∷ body)) in
    let w : front ++ l ∷ (body ++ rest) ≡ (front ++ l ∷ body) ++ rest =
      sym (append_assoc front (l ∷ body) rest) in
    rw (n, w)
      (take-length-append (front ++ l ∷ body) rest, drop-length-append (front ++ l ∷ body) rest)

patch_found_lem :
    (heading : Bytes) (pos : Position) (content lines : List Bytes) (s : Section heading lines)
    → patch_lines heading pos content lines
      ≡ patch_at pos
          (s.front ++ s.title ∷ (s.body ++ s.rest))
          (length s.front)
          (length s.body + (length s.front + 1))
          content
unfolding patch_lines
patch_found_lem heading pos content lines s =
    let n = length s.front in
    rw (find_section heading lines s) (
      ap
        (λ ls.
          patch_at pos ls n
            (body_end (length (heading_level (line_at n ls))) (n + 1) (drop (n + 1) ls)) content)
        s.whole
      ∙ rw (line_at-append s.front s.title (s.body ++ s.rest)) (
          rw (take_front s.front s.title (s.body ++ s.rest)).1 (
            rw (body_end_lem (length (heading_level s.title)) (n + 1) s.body s.rest s.inner s.ended)
              refl)))

-- A patch of a note that has the heading puts the content before the heading, behind the section, or
-- in the place of the section's body, and keeps every other line; an unknown position is refused.
pub patch_lines_section :
    (heading : Bytes) (content lines : List Bytes) (s : Section heading lines)
    → (patch_lines heading before content lines
        ≡ ok (s.front ++ (content ++ s.title ∷ (s.body ++ s.rest))))
      × (patch_lines heading after content lines
          ≡ ok ((s.front ++ s.title ∷ s.body) ++ (content ++ s.rest)))
      × (patch_lines heading replace_body content lines
          ≡ ok ((s.front ++ s.title ∷ []) ++ (content ++ s.rest)))
      × (patch_lines heading unknown content lines ≡ err unknown_position)
unfolding patch_at
patch_lines_section heading content lines s =
    let at = λ (pos : Position). patch_found_lem heading pos content lines s in
    let body = take_body s.front s.title s.body s.rest in
    (
      at before
          ∙ rw (take-length-append s.front (s.title ∷ (s.body ++ s.rest)))
              (rw (drop-length-append s.front (s.title ∷ (s.body ++ s.rest))) refl),
      at after ∙ rw (body.0, body.1) refl,
      at replace_body ∙ rw ((take_front s.front s.title (s.body ++ s.rest)).0, body.1) refl,
      at unknown,
    )

-- Where no line is the heading, every patch is refused.
pub patch_lines_missing :
    (heading : Bytes) (pos : Position) (content lines : List Bytes)
    → All (IsOther heading) lines
    → patch_lines heading pos content lines ≡ err heading_not_found
unfolding patch_lines
patch_lines_missing heading pos content lines h = rw (find_heading_all heading lines 0 h) refl

-- Replacing the body of a section twice is replacing it by the second text, where the first text
-- holds no heading that would end the section.
pub replace_body_twice :
    (heading : Bytes) (c d lines : List Bytes) (s : Section heading lines)
    → All (λ l. ends_section (length (heading_level s.title)) l ≡ false) c
    → patch_lines heading replace_body d ((s.front ++ s.title ∷ []) ++ (c ++ s.rest))
      ≡ patch_lines heading replace_body d lines
replace_body_twice heading c d lines s h =
    let again : Section heading ((s.front ++ s.title ∷ []) ++ (c ++ s.rest)) = record {
      front = s.front;
      title = s.title;
      body = c;
      rest = s.rest;
      whole = append_assoc s.front (s.title ∷ []) (c ++ s.rest);
      first = s.first;
      titled = s.titled;
      inner = h;
      ended = s.ended;
    } in
    (patch_lines_section heading d ((s.front ++ s.title ∷ []) ++ (c ++ s.rest)) again).2
    ∙ sym (patch_lines_section heading d lines s).2
