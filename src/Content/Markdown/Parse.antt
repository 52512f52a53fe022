-- ===== src/Content/Markdown/Parse.antt =====
-- crates/content/src/markdown.rs: parse_markdown, block by block over the lines.
mod Tests
pub mod Ends
pub mod Videos
pub mod Typed
use forgepost.Prelude.{
  ℕ, zero, suc, Bool, true, false, not, ◌&&◌, ◌||◌, Option, none, some, List, [], ◌∷◌, ◌++◌, ◌==◌,
  length, map, if◌then◌else◌,
}
use forgepost.Text.{Text, codes, is_empty, starts_with}
use forgepost.Text.Ops.{trim, trim_start, trim_end, skip_char, lines}
use forgepost.Json.{Json, Items, nil, cons, object, end, member, string, array}
use forgepost.Content.{
  ParsedBlock, BlockKind, paragraph, heading, image, quote, code, divider, list,
}
use forgepost.Content.Markdown.Search.{join_lines}
use forgepost.Content.Markdown.Outcome.{Outcome, done, panic, unfinished, and_then}
use forgepost.Content.Markdown.Lines.{parse_heading, is_horizontal_rule, parse_list_marker}
use forgepost.Content.Markdown.Image.{ParsedImage, image_line, image_content}
use forgepost.Content.Markdown.VideoUrl.{parse_video_line}
use forgepost.Content.Markdown.Html.Img.{HtmlImg, html_img_paragraph}
use forgepost.Content.Markdown.Html.Iframe.{iframe_video_paragraph}

abbrev pub is_fence : Text → Bool
is_fence s = starts_with (codes "```") s

abbrev pub text_content : Text → Json
text_content text = object (member (codes "text") (string text) end)

-- The lines up to a closing fence, and those behind it.
unfoldable pub fenced : List Text → List Text × List Text
unfolding trim_start
fenced [] = ([], [])
fenced (l ∷ ls) =
    let rest = fenced ls in if is_fence (trim_start l) then ([], ls) else (l ∷ rest.0, rest.1)

unfoldable pub code_block : Text → List Text → ParsedBlock
unfolding trim skip_char join_lines
code_block trimmed body = record {
  kind = code;
  content = object (
      member (codes "code") (string (join_lines body))
        (member (codes "language") (string (trim (skip_char 96 trimmed))) end));
}

-- A text with a line added, which a line feed parts from what is there.
abbrev pub add_line : Text → Text → Text
add_line text line = if is_empty text then line else text ++ codes "\n" ++ line

-- The text of the quoted lines, and the lines behind them.
unfoldable pub quoted_lines : Text → List Text → Text × List Text
unfolding trim trim_start skip_char
quoted_lines text [] = (text, [])
quoted_lines text (l ∷ ls) =
    let more = quoted_lines (add_line text (trim (skip_char 62 (trim_start l)))) ls in
    if starts_with (codes ">") (trim_start l) then more else (text, l ∷ ls)

-- Whether a line is an item of a list like the one that is open.
abbrev pub same_order : Bool → Bool → Bool
same_order true true = true
same_order false false = true
same_order true false = false
same_order false true = false

-- The items from a line on, if it is one, given those behind it.
abbrev pub item_or :
    Bool → Text → List Text → Items × List Text → Option (Bool × Text) → Items × List Text
item_or ordered l ls more none = (nil, l ∷ ls)
item_or ordered l ls more (some (o, item)) =
    if same_order o ordered then (cons (string item) more.0, more.1) else (nil, l ∷ ls)

unfoldable pub list_items : Bool → List Text → Items × List Text
unfolding parse_list_marker trim
list_items ordered [] = (nil, [])
list_items ordered (l ∷ ls) =
    let more = list_items ordered ls in
    if is_empty (trim l)
    then (nil, l ∷ ls)
    else item_or ordered l ls more (parse_list_marker (trim l))

abbrev pub is_some {ℓ} : {A : Type ℓ} → Option A → Bool
is_some none = false
is_some (some a) = true

-- Whether a line ends a paragraph.
unfoldable pub ends_paragraph : Text → Bool
unfolding is_horizontal_rule parse_list_marker
ends_paragraph t =
    is_empty t
    || starts_with (codes "#") t
    || starts_with (codes ">") t
    || is_fence t
    || is_horizontal_rule t
    || is_some (parse_list_marker t)

unfoldable pub paragraph_lines : Text → List Text → Text × List Text
unfolding ends_paragraph trim trim_end
paragraph_lines text [] = (text, [])
paragraph_lines text (l ∷ ls) =
    let more = paragraph_lines (add_line text (trim_end l)) ls in
    if ends_paragraph (trim l) then (text, l ∷ ls) else more

unfoldable pub image_block : ParsedImage → ParsedBlock
unfolding image_content
image_block img = record { kind = image; content = image_content img.src img.alt img.size img.href }

unfoldable pub html_image_block : HtmlImg → ParsedBlock
unfolding image_content
html_image_block img = record {
  kind = image;
  content = image_content img.src img.alt img.size img.href;
}

abbrev pub frame_or : Text → Option ParsedBlock → List ParsedBlock
frame_or text (some block) = block ∷ []
frame_or text none = record { kind = paragraph; content = text_content text } ∷ []

-- The images that a paragraph is, or else the video, or else the paragraph.
unfoldable pub tags_or : Text → Option (List HtmlImg) → Outcome (List ParsedBlock)
unfolding html_image_block iframe_video_paragraph
tags_or text (some imgs) = done (map (λ img. html_image_block img) imgs)
tags_or text none = and_then (iframe_video_paragraph text) (λ video. done (frame_or text video))

-- The blocks of a paragraph.
unfoldable pub paragraph_blocks : Text → Outcome (List ParsedBlock)
unfolding tags_or html_img_paragraph
paragraph_blocks text = and_then (html_img_paragraph text) (λ imgs. tags_or text imgs)

-- A list if the line is an item, or else a paragraph; and the lines behind.
unfoldable pub list_or :
    Text → List Text → Option (Bool × Text) → Outcome (List ParsedBlock × List Text)
unfolding list_items paragraph_lines paragraph_blocks
list_or l ls (some (ordered, item)) =
    let more = list_items ordered ls in
    done (
      record {
        kind = list ordered;
        content = object (member (codes "items") (array (cons (string item) more.0)) end);
      }
          ∷ [],
      more.1,
    )
list_or l ls none =
    let text = paragraph_lines [] (l ∷ ls) in
    and_then (paragraph_blocks text.0) (λ blocks. done (blocks, text.1))

-- The images of the line, or else a list or a paragraph.
unfoldable pub images_or :
    Text → List Text → List ParsedImage → Outcome (List ParsedBlock × List Text)
unfolding parse_list_marker list_or image_block trim
images_or l ls (img ∷ imgs) = done (map (λ i. image_block i) (img ∷ imgs), ls)
images_or l ls [] = list_or l ls (parse_list_marker (trim l))

-- A heading, or else a quote, a rule, or what else a line may start.
unfoldable pub heading_or :
    Text → List Text → Option (ℕ × Text) → Outcome (List ParsedBlock × List Text)
unfolding quoted_lines is_horizontal_rule image_line images_or trim
heading_or l ls (some (level, text)) =
    done (record { kind = heading level; content = text_content text } ∷ [], ls)
heading_or l ls none =
    let text = quoted_lines [] (l ∷ ls) in
    if starts_with (codes ">") (trim l)
    then done (record { kind = quote; content = text_content text.0 } ∷ [], text.1)
    else if is_horizontal_rule (trim l)
    then done (record { kind = divider; content = object end } ∷ [], ls)
    else and_then (image_line (trim l)) (λ images. images_or l ls images)

-- A video, or else code, or what else a line may start.
unfoldable pub video_or :
    Text → List Text → Option ParsedBlock → Outcome (List ParsedBlock × List Text)
unfolding trim fenced code_block parse_heading heading_or
video_or l ls (some video) = done (video ∷ [], ls)
video_or l ls none =
    if is_fence (trim l)
    then done (code_block (trim l) (fenced ls).0 ∷ [], (fenced ls).1)
    else heading_or l ls (parse_heading (trim l))

-- The blocks that start with a line, and the lines behind them.
unfoldable pub next_block : Text → List Text → Outcome (List ParsedBlock × List Text)
unfolding trim parse_video_line video_or
next_block l ls =
    if is_empty (trim l) then done ([], ls) else video_or l ls (parse_video_line (trim l))

unfoldable pub parse_lines : ℕ → List Text → Outcome (List ParsedBlock)
unfolding next_block
parse_lines rounds [] = done []
parse_lines zero (l ∷ ls) = unfinished
parse_lines (suc rounds) (l ∷ ls) =
    and_then (next_block l ls)
      (λ found. and_then (parse_lines rounds found.1) (λ more. done (found.0 ++ more)))

-- As many rounds as there are lines.
unfoldable pub parse_markdown : Text → Outcome (List ParsedBlock)
unfolding parse_lines lines
parse_markdown source = parse_lines (length (lines source)) (lines source)
