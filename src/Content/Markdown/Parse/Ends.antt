-- ===== src/Content/Markdown/Parse/Ends.antt =====
-- The parser ends: each round takes a line at least.
use forgepost.Prelude.{
  ℕ, zero, suc, ◌≤◌, ◌≡◌, ◌≢◌, subst, refl, ap, Bool, true, false, ◌&&◌, Option, none, some, List,
  [], ◌∷◌, length, if◌then◌else◌, arith, Bool-cases, inl, inr,
}
use forgepost.Text.{Text, codes, starts_with, is_empty}
use forgepost.Text.Ops.{trim, trim_start, trim_end, skip_char, is_whitespace, lines}
use forgepost.Json.{Items}
use forgepost.Content.{ParsedBlock}
use forgepost.Content.Markdown.Outcome.{done, unfinished, Holds, and_then-Holds}
use forgepost.Content.Markdown.Lines.{
  parse_heading, count_start, is_horizontal_rule, parse_list_marker,
}
use forgepost.Content.Markdown.Image.{ParsedImage, image_line}
use forgepost.Content.Markdown.Image.Ends.{image_line-Holds}
use forgepost.Content.Markdown.Html.Img.{HtmlImg, html_img_paragraph}
use forgepost.Content.Markdown.Html.Iframe.{iframe_video_paragraph}
use forgepost.Content.Markdown.Html.Ends.{html_img_paragraph-Holds, iframe_video_paragraph-Holds}
use forgepost.Content.Markdown.VideoUrl.{parse_video_line}
use forgepost.Content.Markdown.Parse.{
  is_fence, same_order, item_or, fenced, quoted_lines, list_items, is_some, ends_paragraph,
  paragraph_lines, frame_or, tags_or, paragraph_blocks, add_line, list_or, images_or, heading_or,
  video_or, next_block, parse_lines, parse_markdown,
}

-- No more than n lines are left.
abbrev pub Takes : ℕ → List ParsedBlock × List Text → Type 0
Takes n found = length found.1 ≤ n

fenced-length : (ls : List Text) → length (fenced ls).1 ≤ length ls
unfolding fenced
fenced-length [] = omega arith
fenced-length (l ∷ ls) = elim (Bool-cases (is_fence (trim_start l))) [
  | inl fence ↦ rw fence (omega arith)
  | inr body ↦ rw body (omega (arith, fenced-length ls))
]

quoted_lines-length : (text : Text) (ls : List Text) → length (quoted_lines text ls).1 ≤ length ls
unfolding quoted_lines
quoted_lines-length text [] = omega arith
quoted_lines-length text (l ∷ ls) = elim (Bool-cases (starts_with (codes ">") (trim_start l))) [
  | inl quoted ↦
      rw quoted
        (omega (arith, quoted_lines-length (add_line text (trim (skip_char 62 (trim_start l)))) ls))
  | inr other ↦ rw other (omega arith)
]

paragraph_lines-length :
    (text : Text) (ls : List Text) → length (paragraph_lines text ls).1 ≤ length ls
unfolding paragraph_lines
paragraph_lines-length text [] = omega arith
paragraph_lines-length text (l ∷ ls) = elim (Bool-cases (ends_paragraph (trim l))) [
  | inl ends ↦ rw ends (omega arith)
  | inr goes ↦ rw goes (omega (arith, paragraph_lines-length (add_line text (trim_end l)) ls))
]

item_or-length :
    (ordered : Bool) (l : Text) (ls : List Text) (more : Items × List Text)
    (o : Option (Bool × Text))
    → length more.1 ≤ length ls
    → length (item_or ordered l ls more o).1 ≤ suc (length ls)
item_or-length ordered l ls more none h = omega arith
item_or-length ordered l ls more (some (o, item)) h = elim (Bool-cases (same_order o ordered)) [
  | inl same ↦ rw same (omega (arith, h))
  | inr other ↦ rw other (omega arith)
]

list_items-length : (ordered : Bool) (ls : List Text) → length (list_items ordered ls).1 ≤ length ls
unfolding list_items
list_items-length ordered [] = omega arith
list_items-length ordered (l ∷ ls) = elim (Bool-cases (is_empty (trim l))) [
  | inl blank ↦ rw blank (omega arith)
  | inr text ↦ rw text (
      item_or-length ordered l ls (list_items ordered ls) (parse_list_marker (trim l))
        (list_items-length ordered ls))
]

starts_with-trim :
    (c : ℕ) (s : Text)
    → starts_with (c ∷ []) (trim s) ≡ true
    → starts_with (c ∷ []) (trim_start s) ≡ true
unfolding trim trim_end
starts_with-trim c s h = before_end (trim_start s) h
  where
    before_end :
        (t : Text) → starts_with (c ∷ []) (trim_end t) ≡ true → starts_with (c ∷ []) t ≡ true
    before_end [] h = h
    before_end (d ∷ t) h = at_end (trim_end t) (is_empty (trim_end t) && is_whitespace d) h
      where
        at_end :
            (r : Text) (b : Bool)
            → starts_with (c ∷ []) (if b then [] else d ∷ r) ≡ true
            → starts_with (c ∷ []) (d ∷ t) ≡ true
        at_end r true k = cc
        at_end r false k = k

-- The first line of a quote, and of a paragraph, is taken.
quote_takes :
    (l : Text) (ls : List Text)
    → starts_with (codes ">") (trim l) ≡ true
    → length (quoted_lines [] (l ∷ ls)).1 ≤ length ls
unfolding quoted_lines
quote_takes l ls h =
    rw (starts_with-trim 62 l h)
      (quoted_lines-length (add_line [] (trim (skip_char 62 (trim_start l)))) ls)

heading_none : (t : Text) → parse_heading t ≡ none → starts_with (codes "#") t ≡ false
unfolding parse_heading count_start
heading_none [] h = refl
heading_none (c ∷ s) h = ground arith

paragraph_takes :
    (l : Text) (ls : List Text)
    → ends_paragraph (trim l) ≡ false
    → length (paragraph_lines [] (l ∷ ls)).1 ≤ length ls
unfolding paragraph_lines
paragraph_takes l ls h = rw h (paragraph_lines-length (add_line [] (trim_end l)) ls)

paragraph_blocks-Holds : (text : Text) → Holds (λ bs. Unit {0}) (paragraph_blocks text)
unfolding paragraph_blocks
paragraph_blocks-Holds text =
    and_then-Holds (λ o. Unit {0}) (λ bs. Unit {0}) (html_img_paragraph text)
      (λ imgs. tags_or text imgs) (html_img_paragraph-Holds text) (λ imgs u. tags imgs)
  where
    tags : (imgs : Option (List HtmlImg)) → Holds (λ bs. Unit {0}) (tags_or text imgs)
    tags (some imgs) = tt
    tags none =
        and_then-Holds (λ o. Unit {0}) (λ bs. Unit {0}) (iframe_video_paragraph text)
          (λ video. done (frame_or text video)) (iframe_video_paragraph-Holds text) (λ o u. tt)

-- A line that starts nothing else, and is no item of a list.
list_or-Holds :
    (l : Text) (ls : List Text) (o : Option (Bool × Text))
    → (o ≡ none → ends_paragraph (trim l) ≡ false)
    → Holds (Takes (length ls)) (list_or l ls o)
unfolding list_or
list_or-Holds l ls (some (ordered, item)) h = list_items-length ordered ls
list_or-Holds l ls none h =
    and_then-Holds (λ bs. Unit {0}) (Takes (length ls))
      (paragraph_blocks (paragraph_lines [] (l ∷ ls)).0)
      (λ blocks. done (blocks, (paragraph_lines [] (l ∷ ls)).1))
      (paragraph_blocks-Holds (paragraph_lines [] (l ∷ ls)).0)
      (λ bs u. paragraph_takes l ls (h refl))

images_or-Holds :
    (l : Text) (ls : List Text) (imgs : List ParsedImage)
    → (parse_list_marker (trim l) ≡ none → ends_paragraph (trim l) ≡ false)
    → Holds (Takes (length ls)) (images_or l ls imgs)
unfolding images_or
images_or-Holds l ls (img ∷ imgs) h = omega arith
images_or-Holds l ls [] h = list_or-Holds l ls (parse_list_marker (trim l)) h

goes_on :
    (t : Text)
    → is_empty t ≡ false
    → starts_with (codes "#") t ≡ false
    → starts_with (codes ">") t ≡ false
    → is_fence t ≡ false
    → is_horizontal_rule t ≡ false
    → parse_list_marker t ≡ none
    → ends_paragraph t ≡ false
unfolding ends_paragraph
goes_on t e h q f r m =
    let item : is_some (parse_list_marker t) ≡ false = ap is_some m in rw (e, h, q, f, r, item) refl

heading_or-Holds :
    (l : Text) (ls : List Text) (o : Option (ℕ × Text))
    → is_empty (trim l) ≡ false
    → is_fence (trim l) ≡ false
    → (o ≡ none → starts_with (codes "#") (trim l) ≡ false)
    → Holds (Takes (length ls)) (heading_or l ls o)
unfolding heading_or
heading_or-Holds l ls (some (level, text)) e f g = omega arith
heading_or-Holds l ls none e f g = elim (Bool-cases (starts_with (codes ">") (trim l))) [
  | inl quoted ↦ rw quoted (quote_takes l ls quoted)
  | inr other ↦ elim (Bool-cases (is_horizontal_rule (trim l))) [
    | inl rule ↦ rw (other, rule) (omega arith)
    | inr text ↦
        rw (other, text)
          (and_then-Holds (λ o. Unit {0}) (Takes (length ls)) (image_line (trim l)) _
            (image_line-Holds (trim l))
            (λ imgs u.
              images_or-Holds l ls imgs
                (λ missing. goes_on (trim l) e (g refl) other f text missing)))
  ]
]

video_or-Holds :
    (l : Text) (ls : List Text) (o : Option ParsedBlock)
    → is_empty (trim l) ≡ false
    → Holds (Takes (length ls)) (video_or l ls o)
unfolding video_or
video_or-Holds l ls (some video) e = omega arith
video_or-Holds l ls none e = elim (Bool-cases (is_fence (trim l))) [
  | inl fence ↦ rw fence (fenced-length ls)
  | inr other ↦
      rw other (heading_or-Holds l ls (parse_heading (trim l)) e other (heading_none (trim l)))
]

-- A round takes the line it starts with, or panics.
pub next_block-Holds : (l : Text) (ls : List Text) → Holds (Takes (length ls)) (next_block l ls)
unfolding next_block
next_block-Holds l ls = elim (Bool-cases (is_empty (trim l))) [
  | inl blank ↦ rw blank (omega arith)
  | inr text ↦ rw text (video_or-Holds l ls (parse_video_line (trim l)) text)
]

parse_lines-Holds :
    (rounds : ℕ) (ls : List Text)
    → length ls ≤ rounds
    → Holds (λ bs. Unit {0}) (parse_lines rounds ls)
unfolding parse_lines
parse_lines-Holds rounds [] h = tt
parse_lines-Holds zero (l ∷ ls) h = let impossible : ⊥ = omega (arith, h) in elim impossible [ ]
parse_lines-Holds (suc rounds) (l ∷ ls) h =
    and_then-Holds (Takes (length ls)) (λ bs. Unit {0}) (next_block l ls) _ (next_block-Holds l ls)
      (λ found t.
        and_then-Holds (λ bs. Unit {0}) (λ bs. Unit {0}) (parse_lines rounds found.1) _
          (parse_lines-Holds rounds found.1 (omega (arith, t, h))) (λ more u. tt))

-- The parser ends: whatever the source, it needs no more rounds than the source has lines, and every
-- scan of a line or a tag ends as well.
pub parse_markdown_ends : (source : Text) → parse_markdown source ≢ unfinished
unfolding parse_markdown
parse_markdown_ends source e =
    subst (Holds (λ bs. Unit {0})) e
      (parse_lines-Holds (length (lines source)) (lines source) (omega arith))
