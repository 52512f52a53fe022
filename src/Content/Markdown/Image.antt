-- ===== src/Content/Markdown/Image.antt =====
-- crates/content/src/markdown.rs: images in Markdown. A position is a number of bytes, as in the
-- source, and a slice that would cut a character is a panic.
pub mod Ends
use forgepost.Prelude.{
  ℕ, zero, suc, ◌+◌, ◌-◌, Bool, true, false, not, ◌&&◌, ◌||◌, Option, none, some, List, [], ◌∷◌,
  ◌++◌, ◌==◌, ltb, leb, all, length, if◌then◌else◌,
}
use forgepost.Text.{Text, codes, is_empty, strip_prefix, starts_with}
use forgepost.Text.Ops.{
  trim, trim_start, trim_end, split_once, split_last, ends_with, is_ascii_digit,
}
use forgepost.Json.{Json, object, end, string, set}
use forgepost.Content.Markdown.Outcome.{Outcome, done, panic, unfinished, and_then}

-- The bytes of a character in UTF-8, and those of a text.
abbrev pub utf8_len : ℕ → ℕ
utf8_len c = if ltb c 128 then 1 else if ltb c 2048 then 2 else if ltb c 65536 then 3 else 4

unfoldable pub byte_len : Text → ℕ
byte_len [] = 0
byte_len (c ∷ s) = utf8_len c + byte_len s

-- `&s[n..]`; `none` is a panic.
unfoldable pub byte_drop : ℕ → Text → Option Text
byte_drop n [] = if n == 0 then some [] else none
byte_drop n (c ∷ s) =
    let rest = byte_drop (n - utf8_len c) s in
    if n == 0 then some (c ∷ s) else if leb (utf8_len c) n then rest else none

unfoldable pub is_valid_size : Text → Bool
unfolding split_once
is_valid_size s = if is_empty s then false else elim (split_once (codes "x") s) [
  | some (w, h) ↦
      (is_empty w || all is_ascii_digit w)
      && (is_empty h || all is_ascii_digit h)
      && not (is_empty w && is_empty h)
  | none ↦ all is_ascii_digit s
]

-- The address and the size.
unfoldable pub split_image_size : Text → Text × Text
unfolding split_last ends_with trim_end is_valid_size
split_image_size src = elim (split_last 61 src) [
  | none ↦ (src, [])
  | some (before, after) ↦
      if (ends_with (codes " ") before || ends_with (codes "\t") before) && is_valid_size after
      then (trim_end before, after)
      else (src, [])
]

pub record ParsedImage : Type 0 where
  pub src : Text
  pub alt : Text
  pub size : Text
  pub href : Text
  pub consumed : ℕ

-- The image whose alternative text and address are delimited, if it has an address.
unfoldable pub plain_image : Text → Text → Option ParsedImage
unfolding trim split_image_size byte_len
plain_image alt raw =
    let (src, size) = split_image_size (trim raw) in
    if is_empty (trim raw) || is_empty src
    then none
    else some record {
      src = src;
      alt = alt;
      size = size;
      href = [];
      consumed = 1 + (byte_len alt + 1 + 1) + 1 + byte_len raw + 1;
    }

unfoldable pub parse_plain_image_at_start : Text → Option ParsedImage
unfolding split_once trim_start plain_image
parse_plain_image_at_start s = elim (strip_prefix (codes "!") s) [
  | none ↦ none
  | some rest ↦ elim (split_once (codes "]") rest) [
    | none ↦ none
    | some (bracket, behind) ↦ elim (strip_prefix (codes "[") bracket) [
      | none ↦ none
      | some alt ↦ elim (strip_prefix (codes "(") (trim_start behind)) [
        | none ↦ none
        | some paren_open ↦ elim (split_once (codes ")") paren_open) [
          | none ↦ none
          | some (raw, after) ↦ plain_image alt raw
        ]
      ]
    ]
  ]
]

-- What an image links to, behind it.
unfoldable pub image_link : ParsedImage → Text → Option ParsedImage
unfolding split_once trim byte_len
image_link plain tail = elim (strip_prefix (codes "](") tail) [
  | none ↦ none
  | some target ↦ elim (split_once (codes ")") target) [
    | none ↦ none
    | some (raw, after) ↦
        let href = trim raw in
        if is_empty href
        then none
        else some
            record plain { href = href; consumed = 1 + plain.consumed + 1 + 1 + byte_len raw + 1 }
  ]
]

-- `rest[consumed..]`.
unfoldable pub slice : ℕ → Text → Outcome Text
unfolding byte_drop
slice n s = elim (byte_drop n s) [ none ↦ panic | some rest ↦ done rest ]

unfoldable pub parse_image_at_start : Text → Outcome (Option ParsedImage)
unfolding parse_plain_image_at_start image_link slice
parse_image_at_start s = elim (strip_prefix (codes "[") s) [
  | none ↦ done (parse_plain_image_at_start s)
  | some inner ↦ elim (parse_plain_image_at_start inner) [
    | none ↦ done none
    | some plain ↦ and_then (slice plain.consumed inner) (λ tail. done (image_link plain tail))
  ]
]

abbrev pub may_be_image : Text → Bool
may_be_image s = starts_with (codes "!") s || starts_with (codes "[![") s

abbrev pub with_image : ParsedImage → List ParsedImage × Text → List ParsedImage × Text
with_image img more = (img ∷ more.0, more.1)

-- An image, if there is one, and those that `scan` finds behind it.
unfoldable pub images_from :
    (Text → Outcome (List ParsedImage × Text))
    → Text
    → Option ParsedImage
    → Outcome (List ParsedImage × Text)
unfolding slice trim_start
images_from scan rest none = done ([], rest)
images_from scan rest (some img) = and_then (slice img.consumed rest) (λ sliced.
    if is_empty (trim_start sliced) || not (may_be_image (trim_start sliced))
    then done (img ∷ [], trim_start sliced)
    else and_then (scan (trim_start sliced)) (λ more. done (with_image img more)))

-- The images at the start of a text, and what is left.
unfoldable pub images_at_start : ℕ → Text → Outcome (List ParsedImage × Text)
unfolding parse_image_at_start images_from
images_at_start zero rest = unfinished
images_at_start (suc rounds) rest =
    and_then (parse_image_at_start rest)
      (λ found. images_from (λ t. images_at_start rounds t) rest found)

-- The images of a line that holds nothing else.
unfoldable pub image_line : Text → Outcome (List ParsedImage)
unfolding images_at_start
image_line trimmed =
    if not (may_be_image trimmed)
    then done []
    else and_then (images_at_start (suc (length trimmed)) trimmed)
        (λ found. if is_empty found.1 then done found.0 else done [])

unfoldable pub image_content : Text → Text → Text → Text → Json
image_content src alt size href =
    let plain = set (set (object end) (codes "src") (string src)) (codes "alt") (string alt) in
    let sized = if is_empty size then plain else set plain (codes "size") (string size) in
    if is_empty href then sized else set sized (codes "href") (string href)
