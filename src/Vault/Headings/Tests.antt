-- ===== src/Vault/Headings/Tests.antt =====
-- A note with sections, and instances of the theorems.
use obsidian_mcp_server.Prelude.{◌≡◌, refl, List, [], ◌∷◌, ◌++◌}
use obsidian_mcp_server.Prelude.Exec.{ok, err}
use obsidian_mcp_server.Strings.{Bytes, codes, eq_bytes}
use obsidian_mcp_server.Strings.Space.{trim_space}
use obsidian_mcp_server.Vault.Headings.{
  heading_level, is_heading_line, find_heading, ends_section, before, after, replace_body, unknown,
  unknown_position, patch_lines, outline,
}
use obsidian_mcp_server.Vault.Headings.Sections.{Section, patch_lines_section}
use obsidian_mcp_server.Vault.Headings.Ranges.{first_titled, next_number, outline-find_heading}

abbrev note : List Bytes
note =
    codes "intro" ∷ codes "## One " ∷ codes "a" ∷ codes "### Deep" ∷ codes "# Two" ∷ codes "b" ∷ []

levels :
    (heading_level (codes "### Deep") ≡ codes "###")
    × (heading_level (codes "#tag") ≡ [])
    × (heading_level (codes "##") ≡ codes "##")
unfolding heading_level
levels = (refl, refl, refl)

trims : trim_space (0xC2 ∷ 0xA0 ∷ codes " a b\r" ++ 0xE3 ∷ 0x80 ∷ 0x80 ∷ []) ≡ codes "a b"
unfolding trim_space
trims = refl

section : Section (codes "One") note
unfolding is_heading_line ends_section heading_level trim_space eq_bytes
section = record {
  front = codes "intro" ∷ [];
  title = codes "## One ";
  body = codes "a" ∷ codes "### Deep" ∷ [];
  rest = codes "# Two" ∷ codes "b" ∷ [];
  whole = refl;
  first = (refl, tt);
  titled = refl;
  inner = (refl, (refl, tt));
  ended = refl;
}

replaced :
    patch_lines (codes "One") replace_body (codes "new" ∷ []) note
    ≡ ok (codes "intro" ∷ codes "## One " ∷ codes "new" ∷ codes "# Two" ∷ codes "b" ∷ [])
unfolding patch_lines is_heading_line heading_level trim_space eq_bytes
replaced = refl

patch_lines_section_example :
    (patch_lines (codes "One") before [] note
      ≡ ok (section.front ++ ([] ++ section.title ∷ (section.body ++ section.rest))))
    × (patch_lines (codes "One") after [] note
        ≡ ok ((section.front ++ section.title ∷ section.body) ++ ([] ++ section.rest)))
    × (patch_lines (codes "One") replace_body [] note
        ≡ ok ((section.front ++ section.title ∷ []) ++ ([] ++ section.rest)))
    × (patch_lines (codes "One") unknown [] note ≡ err unknown_position)
patch_lines_section_example = patch_lines_section (codes "One") [] note section

outline-find_heading_example :
    first_titled (codes "Two") (outline note) ≡ next_number (find_heading (codes "Two") 0 note)
outline-find_heading_example = outline-find_heading (codes "Two") note
