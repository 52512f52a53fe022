-- ===== src/Content/Markdown/Render.antt =====
-- crates/content/src/markdown.rs: render_html, one block after the other.
mod Tests
pub mod Elements
pub mod Media
pub mod Safe
use forgepost.Prelude.{
  ℕ, Bool, true, false, not, ◌&&◌, ◌||◌, Option, none, some, List, [], ◌∷◌, ◌++◌, all,
  if◌then◌else◌,
}
use forgepost.Text.{Text, codes, is_empty}
use forgepost.Text.Ops.{split_once, is_ascii_digit}
use forgepost.Json.{
  Json, Items, nil, cons, null, boolean, number, string, array, object, get, as_str,
}
use forgepost.Content.{
  BlockKind, paragraph, heading, image, quote, code, call_to_action, divider, list, video,
}
use forgepost.Content.Video.{str_or_empty, video_embed_url, video_thumbnail}
use forgepost.Content.Markdown.Escape.{html_escape}
use forgepost.Content.Markdown.Url.{is_safe_url}
use forgepost.Content.Markdown.Markup.{decimal}
use forgepost.Content.Markdown.Inline.{render_inline}

-- One digit at least, and nothing but digits.
abbrev pub is_digits : Text → Bool
is_digits part = not (is_empty part) && all is_ascii_digit part

-- The attributes of a size, which may be cut at an `x`.
abbrev pub attrs_of : Text → Option (Text × Text) → Text
attrs_of size (some (w, h)) =
    (if is_digits w then codes " width=\"" ++ w ++ codes "\"" else [])
    ++ (if is_digits h then codes " height=\"" ++ h ++ codes "\"" else [])
attrs_of size none = if is_digits size then codes " height=\"" ++ size ++ codes "\"" else []

unfoldable pub image_size_attrs : Text → Text
unfolding split_once
image_size_attrs size = attrs_of size (split_once (codes "x") size)

unfoldable pub text_of : Json → Text
text_of content = str_or_empty content (codes "text")

-- The class of a code block, if it has a language.
unfoldable pub lang_attr : Text → Text
unfolding html_escape
lang_attr language =
    if is_empty language
    then []
    else codes " class=\"language-" ++ html_escape language ++ codes "\""

unfoldable pub render_code : Json → Text
unfolding html_escape lang_attr
render_code content =
    codes "<pre><code"
    ++ lang_attr (str_or_empty content (codes "language"))
    ++ codes ">"
    ++ html_escape (str_or_empty content (codes "code"))
    ++ codes "</code></pre>\n"

unfoldable pub img_tag : Text → Text → Text → Text
unfolding html_escape image_size_attrs
img_tag src alt size =
    codes "<img src=\""
    ++ html_escape src
    ++ codes "\" alt=\""
    ++ html_escape alt
    ++ codes "\" loading=\"lazy\" decoding=\"async\""
    ++ image_size_attrs size
    ++ codes " />"

-- An image of an address, with its alternative text, its size and the address that it links to.
unfoldable pub image_html : Text → Text → Text → Text → Text
unfolding html_escape is_safe_url img_tag
image_html src alt size href =
    if not (is_safe_url src)
    then codes "<p><strong>Blocked link:</strong> " ++ html_escape alt ++ codes "</p>\n"
    else if is_empty href || not (is_safe_url href)
    then codes "<p>" ++ img_tag src alt size ++ codes "</p>\n"
    else codes "<p><a href=\""
      ++ html_escape href
      ++ codes "\">"
      ++ img_tag src alt size
      ++ codes "</a></p>\n"

unfoldable pub render_image : Json → Text
unfolding image_html
render_image content =
    image_html (str_or_empty content (codes "src")) (str_or_empty content (codes "alt"))
      (str_or_empty content (codes "size")) (str_or_empty content (codes "href"))

unfoldable pub poster : Text → Text
unfolding html_escape
poster thumb =
    if is_empty thumb
    then []
    else codes "<img class=\"video-thumb\" src=\""
      ++ html_escape thumb
      ++ codes "\" alt=\"\" loading=\"lazy\" decoding=\"async\">\n"

unfoldable pub caption : Text → Text
unfolding html_escape
caption title =
    if is_empty title
    then []
    else codes "<figcaption>" ++ html_escape title ++ codes "</figcaption>\n"

-- A video of an address, with its title and the address of its thumbnail.
unfoldable pub video_html : Text → Text → Text → Text
unfolding html_escape poster caption
video_html url title thumb =
    codes
      "<figure class=\"video\">\n<button type=\"button\" class=\"video-box\" data-video data-src=\""
    ++ html_escape url
    ++ codes "\" aria-label=\""
    ++ html_escape (if is_empty title then codes "Play video" else codes "Play video: " ++ title)
    ++ codes "\">\n"
    ++ poster thumb
    ++ codes "<span class=\"video-play\" aria-hidden=\"true\">&#9654;</span>\n</button>\n"
    ++ caption title
    ++ codes "</figure>\n"

unfoldable pub render_video : Json → Text
unfolding video_html video_embed_url video_thumbnail
render_video content =
    video_html (video_embed_url content) (str_or_empty content (codes "title"))
      (video_thumbnail content)

-- `item.as_str().unwrap_or_default()`.
abbrev pub item_text : Json → Text
item_text item = elim (as_str item) [ none ↦ [] | some s ↦ s ]

unfoldable pub render_items : Items → Text
unfolding render_inline
render_items nil = []
render_items (cons item items) =
    codes "<li>" ++ render_inline (item_text item) ++ codes "</li>\n" ++ render_items items

-- `value.as_array()`.
abbrev pub as_array : Json → Option Items
as_array (array items) = some items
as_array null = none
as_array (boolean b) = none
as_array (number s) = none
as_array (string s) = none
as_array (object m) = none

unfoldable pub items_of : Json → Option Items
items_of content = elim (get content (codes "items")) [ none ↦ none | some v ↦ as_array v ]

abbrev pub list_tag : Bool → Text
list_tag ordered = if ordered then codes "ol" else codes "ul"

unfoldable pub render_list : Bool → Json → Text
unfolding render_items items_of
render_list ordered content =
    codes "<"
    ++ list_tag ordered
    ++ codes ">\n"
    ++ elim (items_of content) [ none ↦ [] | some items ↦ render_items items ]
    ++ codes "</"
    ++ list_tag ordered
    ++ codes ">\n"

unfoldable pub render_block : BlockKind → Json → Text
unfolding render_inline text_of render_code render_image render_video render_list decimal
render_block (heading level) content =
    codes "<h"
    ++ decimal level
    ++ codes ">"
    ++ render_inline (text_of content)
    ++ codes "</h"
    ++ decimal level
    ++ codes ">\n"
render_block paragraph content = codes "<p>" ++ render_inline (text_of content) ++ codes "</p>\n"
render_block quote content =
    codes "<blockquote>" ++ render_inline (text_of content) ++ codes "</blockquote>\n"
render_block code content = render_code content
render_block image content = render_image content
render_block divider content = codes "<hr />\n"
render_block call_to_action content =
    codes "<p><strong>" ++ render_inline (text_of content) ++ codes "</strong></p>\n"
render_block video content = render_video content
render_block (list ordered) content = render_list ordered content

unfoldable pub render_html : List (BlockKind × Json) → Text
unfolding render_block
render_html [] = []
render_html ((kind, content) ∷ blocks) = render_block kind content ++ render_html blocks
