-- ===== src/Content/Markdown/Parse/Typed.antt =====
-- The blocks of a source.
use forgepost.Prelude.{
  ℕ, zero, suc, ◌≤◌, Bool, Option, none, some, List, [], ◌∷◌, max, min, ◌==◌, if◌then◌else◌, arith,
  Bool-cases, inl, inr, All-append, map, length,
}
use forgepost.Text.{Text, codes, starts_with, is_empty}
use forgepost.Text.Ops.{trim, lines}
use forgepost.Content.{ParsedBlock}
use forgepost.Content.Markdown.Outcome.{done, Holds, and_then-Holds, both}
use forgepost.Content.Markdown.Lines.{
  parse_heading, is_horizontal_rule, parse_list_marker, count_start, skip,
}
use forgepost.Content.Markdown.Image.{ParsedImage, image_line}
use forgepost.Content.Markdown.Image.Ends.{image_line-Holds}
use forgepost.Content.Markdown.Html.Img.{HtmlImg, html_img_paragraph}
use forgepost.Content.Markdown.Html.Iframe.{iframe_video_paragraph, parse_iframe_tag, video_of}
use forgepost.Content.Markdown.Html.Ends.{html_img_paragraph-Holds, parse_iframe_tag-Holds}
use forgepost.Content.Markdown.VideoUrl.{parse_video_line}
use forgepost.Content.Markdown.Parse.{
  frame_or, tags_or, paragraph_blocks, paragraph_lines, list_or, images_or, heading_or, video_or,
  next_block, parse_lines, parse_markdown, is_fence, image_block, html_image_block,
}
use forgepost.Content.Markdown.Parse.Ends.{Takes, next_block-Holds}
use forgepost.Content.Markdown.Parse.Videos.{
  AllTyped, MayBeTyped, parse_video_line-MayBeTyped, iframe_of-MayBeTyped,
}

-- The blocks of a round, whatever lines are left.
abbrev FoundTyped : List ParsedBlock × List Text → Type 0
FoundTyped found = AllTyped found.0

images-AllTyped : (imgs : List ParsedImage) → AllTyped (map (λ i. image_block i) imgs)
unfolding image_block
images-AllTyped [] = tt
images-AllTyped (img ∷ imgs) = (tt, images-AllTyped imgs)

html_images-AllTyped : (imgs : List HtmlImg) → AllTyped (map (λ i. html_image_block i) imgs)
unfolding html_image_block
html_images-AllTyped [] = tt
html_images-AllTyped (img ∷ imgs) = (tt, html_images-AllTyped imgs)

frame_or-AllTyped :
    (text : Text) (o : Option ParsedBlock) → MayBeTyped o → AllTyped (frame_or text o)
frame_or-AllTyped text none h = (tt, tt)
frame_or-AllTyped text (some block) h = (h, tt)

iframe-Holds : (text : Text) → Holds MayBeTyped (iframe_video_paragraph text)
unfolding iframe_video_paragraph
iframe-Holds text =
    and_then-Holds (λ o. Unit {0}) MayBeTyped (parse_iframe_tag (trim text))
      (λ found. done (video_of found)) (parse_iframe_tag-Holds (trim text))
      (λ found u. video_typed found)
  where
    video_typed : (found : Option (List (Text × Text))) → MayBeTyped (video_of found)
    video_typed none = tt
    video_typed (some attrs) = iframe_of-MayBeTyped attrs

paragraph_blocks-AllTyped : (text : Text) → Holds AllTyped (paragraph_blocks text)
unfolding paragraph_blocks
paragraph_blocks-AllTyped text =
    and_then-Holds (λ o. Unit {0}) AllTyped (html_img_paragraph text) (λ imgs. tags_or text imgs)
      (html_img_paragraph-Holds text) (λ imgs u. tags imgs)
  where
    tags : (imgs : Option (List HtmlImg)) → Holds AllTyped (tags_or text imgs)
    tags (some imgs) = html_images-AllTyped imgs
    tags none =
        and_then-Holds MayBeTyped AllTyped (iframe_video_paragraph text)
          (λ video. done (frame_or text video)) (iframe-Holds text)
          (λ o h. frame_or-AllTyped text o h)

list_or-FoundTyped :
    (l : Text) (ls : List Text) (o : Option (Bool × Text)) → Holds FoundTyped (list_or l ls o)
unfolding list_or
list_or-FoundTyped l ls (some (ordered, item)) = (tt, tt)
list_or-FoundTyped l ls none =
    and_then-Holds AllTyped FoundTyped (paragraph_blocks (paragraph_lines [] (l ∷ ls)).0)
      (λ blocks. done (blocks, (paragraph_lines [] (l ∷ ls)).1))
      (paragraph_blocks-AllTyped (paragraph_lines [] (l ∷ ls)).0) (λ bs h. h)

images_or-FoundTyped :
    (l : Text) (ls : List Text) (imgs : List ParsedImage) → Holds FoundTyped (images_or l ls imgs)
unfolding images_or
images_or-FoundTyped l ls (img ∷ imgs) = images-AllTyped (img ∷ imgs)
images_or-FoundTyped l ls [] = list_or-FoundTyped l ls (parse_list_marker (trim l))

-- A heading with a level of HTML, if there is one.
abbrev Levelled : Option (ℕ × Text) → Type 0
Levelled none = Unit
Levelled (some (level, text)) = (1 ≤ level) × (level ≤ 6)

parse_heading-Levelled : (line : Text) → Levelled (parse_heading line)
unfolding parse_heading
parse_heading-Levelled line = level_of (count_start 35 line)
  where
    level_of :
        (n : ℕ) → Levelled (if n == 0 then none else some (min 6 (max 1 n), trim (skip n line)))
    level_of zero = tt
    level_of (suc n) = ground arith

heading_or-FoundTyped :
    (l : Text) (ls : List Text) (o : Option (ℕ × Text))
    → Levelled o
    → Holds FoundTyped (heading_or l ls o)
unfolding heading_or
heading_or-FoundTyped l ls (some (level, text)) h = (h, tt)
heading_or-FoundTyped l ls none h = elim (Bool-cases (starts_with (codes ">") (trim l))) [
  | inl quoted ↦ rw quoted (tt, tt)
  | inr other ↦ elim (Bool-cases (is_horizontal_rule (trim l))) [
    | inl rule ↦ rw (other, rule) (tt, tt)
    | inr text ↦
        rw (other, text)
          (and_then-Holds (λ o. Unit {0}) FoundTyped (image_line (trim l)) _
            (image_line-Holds (trim l)) (λ imgs u. images_or-FoundTyped l ls imgs))
  ]
]

video_or-FoundTyped :
    (l : Text) (ls : List Text) (o : Option ParsedBlock)
    → MayBeTyped o
    → Holds FoundTyped (video_or l ls o)
unfolding video_or
video_or-FoundTyped l ls (some block) h = (h, tt)
video_or-FoundTyped l ls none h = elim (Bool-cases (is_fence (trim l))) [
  | inl fence ↦ rw fence (tt, tt)
  | inr other ↦
      rw other
        (heading_or-FoundTyped l ls (parse_heading (trim l)) (parse_heading-Levelled (trim l)))
]

next_block-FoundTyped : (l : Text) (ls : List Text) → Holds FoundTyped (next_block l ls)
unfolding next_block
next_block-FoundTyped l ls = elim (Bool-cases (is_empty (trim l))) [
  | inl blank ↦ rw blank tt
  | inr text ↦
      rw text (
        video_or-FoundTyped l ls (parse_video_line (trim l)) (parse_video_line-MayBeTyped (trim l)))
]

parse_lines-AllTyped :
    (rounds : ℕ) (ls : List Text) → length ls ≤ rounds → Holds AllTyped (parse_lines rounds ls)
unfolding parse_lines
parse_lines-AllTyped rounds [] h = tt
parse_lines-AllTyped zero (l ∷ ls) h = let impossible : ⊥ = omega (arith, h) in elim impossible [ ]
parse_lines-AllTyped (suc rounds) (l ∷ ls) h =
    and_then-Holds (λ found. Takes (length ls) found × FoundTyped found) AllTyped (next_block l ls)
      _
      (both (Takes (length ls)) FoundTyped (next_block l ls) (next_block-Holds l ls)
        (next_block-FoundTyped l ls))
      (λ found (t, typed).
        and_then-Holds AllTyped AllTyped (parse_lines rounds found.1) _
          (parse_lines-AllTyped rounds found.1 (omega (arith, t, h)))
          (λ more typed'. All-append _ found.0 more typed typed'))

-- The blocks of a source, which are there unless the parser panics, are typed: a heading has a level
-- from 1 to 6, and a video plays from an address of the web.
pub parse_markdown-AllTyped : (source : Text) → Holds AllTyped (parse_markdown source)
unfolding parse_markdown
parse_markdown-AllTyped source =
    parse_lines-AllTyped (length (lines source)) (lines source) (omega arith)
