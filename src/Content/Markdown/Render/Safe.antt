-- ===== src/Content/Markdown/Render/Safe.antt =====
-- The lists, the blocks and the document.
use forgepost.Prelude.{
  ◌≡◌, refl, Bool, true, false, Option, none, some, List, [], ◌∷◌, ◌++◌, any, inl, inr,
  append_assoc,
}
use forgepost.Text.{codes, text_eq}
use forgepost.Json.{Json, Items, nil, cons}
use forgepost.Content.{
  BlockKind, paragraph, heading, image, quote, code, call_to_action, divider, list, video,
}
use forgepost.Content.Markdown.Markup.{
  decimal, elements, IsMarkup, join, void, element, bare, slash, spelled,
}
use forgepost.Content.Markdown.Inline.Safe.{render_inline-IsMarkup}
use forgepost.Content.Markdown.Render.{
  text_of, item_text, list_tag, render_items, render_list, items_of, render_block, render_html,
}
use forgepost.Content.Markdown.Render.Elements.{feed, empty, block_element, render_code-IsMarkup}
use forgepost.Content.Markdown.Render.Media.{render_image-IsMarkup, render_video-IsMarkup}

render_items-IsMarkup : (items : Items) → IsMarkup (render_items items)
unfolding render_items
render_items-IsMarkup nil = empty
render_items-IsMarkup (cons item items) = spelled (simp append_assoc) (
    join _ (render_items items)
      (block_element (codes "li") [] _ (inl refl) bare (render_inline-IsMarkup (item_text item)))
      (render_items-IsMarkup items))

render_list-IsMarkup : (ordered : Bool) (content : Json) → IsMarkup (render_list ordered content)
unfolding render_list
render_list-IsMarkup ordered content = spelled (simp append_assoc) (
    block_element (list_tag ordered) [] _ (inl (tag_known ordered)) bare
      (join _ _ feed (listed (items_of content))))
  where
    tag_known : (o : Bool) → any (text_eq (list_tag o)) elements ≡ true
    tag_known true = refl
    tag_known false = refl

    listed : (o : Option Items) → IsMarkup (elim o [ none ↦ [] | some items ↦ render_items items ])
    listed none = empty
    listed (some items) = render_items-IsMarkup items

render_block-IsMarkup : (kind : BlockKind) (content : Json) → IsMarkup (render_block kind content)
unfolding render_block
render_block-IsMarkup (heading level) content = spelled (simp append_assoc) (
    block_element (codes "h" ++ decimal level) [] _ (inr (level, refl)) bare
      (render_inline-IsMarkup (text_of content)))
render_block-IsMarkup paragraph content =
    spelled (simp append_assoc)
      (block_element (codes "p") [] _ (inl refl) bare (render_inline-IsMarkup (text_of content)))
render_block-IsMarkup quote content = spelled (simp append_assoc) (
    block_element (codes "blockquote") [] _ (inl refl) bare
      (render_inline-IsMarkup (text_of content)))
render_block-IsMarkup code content = render_code-IsMarkup content
render_block-IsMarkup image content = render_image-IsMarkup content
render_block-IsMarkup divider content =
    join _ (codes "\n") (void (codes "hr") (codes " /") refl slash) feed
render_block-IsMarkup call_to_action content = spelled (simp append_assoc) (
    block_element (codes "p") [] _ (inl refl) bare
      (element (codes "strong") [] _ (inl refl) bare (render_inline-IsMarkup (text_of content))))
render_block-IsMarkup video content = render_video-IsMarkup content
render_block-IsMarkup (list ordered) content = render_list-IsMarkup ordered content

-- Whatever the blocks hold, what the renderer returns is markup: of the listed elements and
-- attributes, whose values have no quotes and no angle brackets, with safe addresses in its links.
pub render_html-IsMarkup : (blocks : List (BlockKind × Json)) → IsMarkup (render_html blocks)
unfolding render_html
render_html-IsMarkup [] = empty
render_html-IsMarkup ((kind, content) ∷ blocks) =
    join _ _ (render_block-IsMarkup kind content) (render_html-IsMarkup blocks)
