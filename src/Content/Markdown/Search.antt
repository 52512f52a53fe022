-- ===== src/Content/Markdown/Search.antt =====
-- crates/content/src/markdown.rs and lib.rs: the text that search sees.
use forgepost.Prelude.{none, some, List, [], ◌∷◌, ◌++◌, if◌then◌else◌}
use forgepost.Text.{Text, codes, is_empty}
use forgepost.Text.Ops.{trim}
use forgepost.Json.{Json, Items, nil, cons, as_str}
use forgepost.Content.{
  Block, Document, current_content, BlockKind, paragraph, heading, image, quote, code,
  call_to_action, divider, list, video,
}
use forgepost.Content.Video.{str_or_empty}
use forgepost.Content.Markdown.Render.{text_of, items_of}

-- The items that are strings.
unfoldable pub strings_of : Items → List Text
strings_of nil = []
strings_of (cons item items) = elim (as_str item) [
  | none ↦ strings_of items
  | some s ↦ s ∷ strings_of items
]

-- `parts.join("\n")`.
unfoldable pub join_lines : List Text → Text
join_lines [] = []
join_lines (s ∷ []) = s
join_lines (s ∷ t ∷ ts) = s ++ codes "\n" ++ join_lines (t ∷ ts)

unfoldable pub block_search_text : BlockKind → Json → Text
unfolding text_of items_of strings_of join_lines
block_search_text (heading level) content = text_of content
block_search_text paragraph content = text_of content
block_search_text quote content = text_of content
block_search_text call_to_action content = text_of content
block_search_text code content = str_or_empty content (codes "code")
block_search_text image content = str_or_empty content (codes "alt")
block_search_text video content =
    let title = str_or_empty content (codes "title") in
    if is_empty title then str_or_empty content (codes "url") else title
block_search_text (list ordered) content = elim (items_of content) [
  | none ↦ []
  | some items ↦ join_lines (strings_of items)
]
block_search_text divider content = []

-- The texts of the blocks, in order, that are not blank.
unfoldable pub searchable_parts : Document → List Block → List Text
unfolding block_search_text trim current_content
searchable_parts d [] = []
searchable_parts d (b ∷ bs) =
    let rest = searchable_parts d bs in
    elim (current_content d b.id) [
      | none ↦ rest
      | some content ↦
          let text = block_search_text b.kind content in
          if is_empty (trim text) then rest else text ∷ rest
    ]

unfoldable pub searchable_text : Document → Text
unfolding searchable_parts join_lines
searchable_text d = join_lines (searchable_parts d d.blocks)
