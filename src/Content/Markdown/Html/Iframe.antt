-- ===== src/Content/Markdown/Html/Iframe.antt =====
-- crates/content/src/markdown.rs: paragraphs of one raw <iframe> element.
use forgepost.Prelude.{Bool, false, ◌&&◌, ◌||◌, Option, none, some, List, [], ◌∷◌, if◌then◌else◌}
use forgepost.Text.{Text, codes, text_eq, is_empty, strip_prefix, starts_with}
use forgepost.Text.Ops.{trim, trim_start}
use forgepost.Json.{Json, object, end, string, set}
use forgepost.Content.{ParsedBlock, video}
use forgepost.Content.Markdown.Outcome.{Outcome, done, and_then}
use forgepost.Content.Markdown.Html.Tag.{tag_at, is_number}

unfoldable pub keeps : Text → Text → Bool
keeps name value =
    text_eq name (codes "src")
    || text_eq name (codes "title")
    || (text_eq name (codes "width") && is_number value)
    || (text_eq name (codes "height") && is_number value)

unfoldable pub kept_attrs : List (Text × Text) → List (Text × Text)
unfolding keeps
kept_attrs [] = []
kept_attrs ((name, value) ∷ more) =
    let rest = kept_attrs more in if keeps name value then (name, value) ∷ rest else rest

-- Whether the element ends with its tag, or with a closing tag and white space around it.
unfoldable pub is_closed : Text → Bool
unfolding trim trim_start
is_closed after_open = elim (strip_prefix (codes "</iframe") (trim_start after_open)) [
  | none ↦ is_empty (trim_start after_open)
  | some rest ↦ elim (strip_prefix (codes ">") (trim_start rest)) [
    | none ↦ false
    | some left ↦ is_empty (trim left)
  ]
]

-- The attributes that are kept of an element that ends well.
unfoldable pub element_attrs : Option (List (Text × Text) × Text) → Option (List (Text × Text))
unfolding kept_attrs is_closed
element_attrs none = none
element_attrs (some (attrs, after_open)) =
    if is_closed after_open then some (kept_attrs attrs) else none

-- The attributes of the element that the whole text is.
unfoldable pub parse_iframe_tag : Text → Outcome (Option (List (Text × Text)))
unfolding tag_at element_attrs
parse_iframe_tag s = and_then (tag_at (codes "iframe") s) (λ found. done (element_attrs found))

-- The first value of `src`.
unfoldable pub first_src : List (Text × Text) → Option Text
first_src [] = none
first_src ((name, value) ∷ more) =
    let rest = first_src more in if text_eq name (codes "src") then some value else rest

-- The title, width and height set in the content.
unfoldable pub set_attrs : List (Text × Text) → Json → Json
set_attrs [] content = content
set_attrs ((name, value) ∷ more) content =
    let set_one =
      if text_eq name (codes "title")
      then set content (codes "title") (string value)
      else if text_eq name (codes "width")
      then set content (codes "width") (string value)
      else if text_eq name (codes "height")
      then set content (codes "height") (string value)
      else content in
    set_attrs more set_one

unfoldable pub iframe_content : Text → List (Text × Text) → Json
unfolding set_attrs
iframe_content src attrs =
    set_attrs attrs (
      set (set (object end) (codes "provider") (string (codes "iframe"))) (codes "url")
        (string src))

-- The video of an element with an address of the web.
unfoldable pub iframe_of : List (Text × Text) → Option ParsedBlock
unfolding first_src iframe_content
iframe_of attrs = elim (first_src attrs) [
  | none ↦ none
  | some src ↦
      if starts_with (codes "https://") src || starts_with (codes "http://") src
      then some record { kind = video; content = iframe_content src attrs }
      else none
]

abbrev pub video_of : Option (List (Text × Text)) → Option ParsedBlock
video_of none = none
video_of (some attrs) = iframe_of attrs

unfoldable pub iframe_video_paragraph : Text → Outcome (Option ParsedBlock)
unfolding parse_iframe_tag iframe_of trim
iframe_video_paragraph text =
    and_then (parse_iframe_tag (trim text)) (λ found. done (video_of found))
