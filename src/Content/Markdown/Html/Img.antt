-- ===== src/Content/Markdown/Html/Img.antt =====
-- crates/content/src/markdown.rs: paragraphs of raw <img> tags.
use forgepost.Prelude.{
  ℕ, zero, suc, ◌&&◌, Option, none, some, List, [], ◌∷◌, ◌++◌, length, if◌then◌else◌,
}
use forgepost.Text.{Text, codes, text_eq, is_empty, strip_prefix}
use forgepost.Text.Ops.{trim, trim_start, split_once}
use forgepost.Content.Markdown.Outcome.{Outcome, done, unfinished, and_then}
use forgepost.Content.Markdown.Html.Tag.{tag_at, is_number}

pub record HtmlImg : Type 0 where
  pub src : Text
  pub alt : Text
  pub size : Text
  pub href : Text

-- The four attributes that are kept.
pub record ImgAttrs : Type 0 where
  pub src : Text
  pub alt : Text
  pub width : Text
  pub height : Text

unfoldable pub keep_attr : Text → Text → ImgAttrs → ImgAttrs
keep_attr name value a =
    if text_eq name (codes "src")
    then record a { src = value }
    else if text_eq name (codes "alt")
    then record a { alt = value }
    else if text_eq name (codes "width") && is_number value
    then record a { width = value }
    else if text_eq name (codes "height") && is_number value
    then record a { height = value }
    else a

unfoldable pub keep_attrs : List (Text × Text) → ImgAttrs → ImgAttrs
unfolding keep_attr
keep_attrs [] a = a
keep_attrs ((name, value) ∷ more) a = keep_attrs more (keep_attr name value a)

unfoldable pub size_of : Text → Text → Text
size_of width height =
    if is_empty width
    then height
    else if is_empty height
    then width ++ codes "x"
    else width ++ codes "x" ++ height

unfoldable pub img_of : List (Text × Text) → Option HtmlImg
unfolding keep_attrs size_of
img_of found =
    let a = keep_attrs found record { src = []; alt = []; width = []; height = [] } in
    if is_empty a.src
    then none
    else some record { src = a.src; alt = a.alt; size = size_of a.width a.height; href = [] }

unfoldable pub img_behind : Option (List (Text × Text) × Text) → Option (HtmlImg × Text)
unfolding img_of
img_behind none = none
img_behind (some (attrs, rest)) = elim (img_of attrs) [ none ↦ none | some img ↦ some (img, rest) ]

-- The image of the tag at the start, behind white space, and what is behind the tag.
unfoldable pub parse_html_img : Text → Outcome (Option (HtmlImg × Text))
unfolding tag_at img_behind trim_start
parse_html_img s = and_then (tag_at (codes "img") (trim_start s)) (λ found. done (img_behind found))

-- `[<img …>](url)` behind its bracket: what stands in it, the address, and what follows.
unfoldable pub link_parts : Text → Option (Text × Text × Text)
unfolding split_once trim
link_parts after_bracket = elim (split_once (codes "](") after_bracket) [
  | none ↦ none
  | some (inner, href_part) ↦ elim (split_once (codes ")") href_part) [
    | none ↦ none
    | some (raw, after) ↦
        let href = trim raw in if is_empty href then none else some (inner, href, after)
  ]
]

-- The image that is all there is in the brackets, with its address, and what follows.
abbrev pub linked_img : Text → Text → Option (HtmlImg × Text) → Option (HtmlImg × Text)
linked_img href after none = none
linked_img href after (some (img, left)) =
    if is_empty left then some (record img { href = href }, after) else none

-- The image at the start of a text, which may be linked, and what follows.
unfoldable pub next_img : Text → Outcome (Option (HtmlImg × Text))
unfolding link_parts parse_html_img
next_img rest = elim (strip_prefix (codes "[") rest) [
  | none ↦ parse_html_img rest
  | some after_bracket ↦ elim (link_parts after_bracket) [
    | none ↦ done none
    | some (inner, href, after) ↦
        and_then (parse_html_img inner) (λ found. done (linked_img href after found))
  ]
]

abbrev pub with_img : HtmlImg → Option (List HtmlImg) → Option (List HtmlImg)
with_img img none = none
with_img img (some imgs) = some (img ∷ imgs)

-- An image put before those that `scan` finds behind it.
unfoldable pub imgs_from :
    (Text → Outcome (Option (List HtmlImg)))
    → Option (HtmlImg × Text)
    → Outcome (Option (List HtmlImg))
unfolding trim_start
imgs_from scan none = done none
imgs_from scan (some (img, rest)) =
    and_then (scan (trim_start rest)) (λ more. done (with_img img more))

unfoldable pub html_imgs : ℕ → Text → Outcome (Option (List HtmlImg))
unfolding next_img imgs_from
html_imgs rounds [] = done (some [])
html_imgs zero (c ∷ s) = unfinished
html_imgs (suc rounds) (c ∷ s) =
    and_then (next_img (c ∷ s)) (λ found. imgs_from (λ t. html_imgs rounds t) found)

unfoldable pub html_img_paragraph : Text → Outcome (Option (List HtmlImg))
unfolding html_imgs trim
html_img_paragraph text = html_imgs (length text) (trim text)
