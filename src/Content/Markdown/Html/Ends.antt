-- ===== src/Content/Markdown/Html/Ends.antt =====
-- The scans of raw images and frames.
use forgepost.Prelude.{
  ℕ, zero, suc, ◌≤◌, ◌≡◌, refl, ap, Bool, true, false, Option, none, some, List, [], ◌∷◌, ◌++◌,
  length, length-append, if◌then◌else◌, arith, Option-cases, inl, inr, some-inj,
}
use forgepost.Text.{Text, codes, strip_prefix, is_empty}
use forgepost.Text.Ops.{trim, trim_start, split_once}
use forgepost.Content.Markdown.Outcome.{Outcome, done, and_then, Holds, and_then-Holds}
use forgepost.Content.Markdown.Inline.Spans.{strip_prefix-append, split_once-append}
use forgepost.Content.Markdown.Html.Tag.{tag_at}
use forgepost.Content.Markdown.Html.Img.{
  HtmlImg, img_of, img_behind, linked_img, imgs_from, parse_html_img, link_parts, next_img,
  html_imgs, html_img_paragraph,
}
use forgepost.Content.Markdown.Html.Iframe.{parse_iframe_tag, iframe_video_paragraph}
use forgepost.Content.Markdown.Html.Attributes.{Leaves, trim_start-length, trim-length}
use forgepost.Content.Markdown.Html.Scan.{tag_bound}

img_behind-Leaves :
    (n : ℕ) (o : Option (List (Text × Text) × Text)) → Leaves n o → Leaves n (img_behind o)
unfolding img_behind
img_behind-Leaves n none l = tt
img_behind-Leaves n (some (attrs, rest)) l = named (img_of attrs)
  where
    named :
        (o : Option HtmlImg)
        → Leaves n
            (elim o as (λ _. Option (HtmlImg × Text)) [ none ↦ none | some img ↦ some (img, rest) ])
    named none = tt
    named (some img) = l

-- An image's tag, and a linked one, leave less than they were in.
parse_html_img-Holds : (n : ℕ) (s : Text) → length s ≤ suc n → Holds (Leaves n) (parse_html_img s)
unfolding parse_html_img
parse_html_img-Holds n s l =
    and_then-Holds (Leaves n) (Leaves n) (tag_at (codes "img") (trim_start s))
      (λ found. done (img_behind found))
      (tag_bound (codes "img") n (trim_start s) (omega (arith, trim_start-length s, l)))
      (λ found h. img_behind-Leaves n found h)

linked_img-Leaves :
    (href after : Text) (n : ℕ) (o : Option (HtmlImg × Text))
    → length after ≤ n
    → Leaves n (linked_img href after o)
linked_img-Leaves href after n none l = tt
linked_img-Leaves href after n (some (img, [])) l = l
linked_img-Leaves href after n (some (img, c ∷ left)) l = tt

split_once-length :
    (sep s inside after : Text) → split_once sep s ≡ some (inside, after) → length after ≤ length s
split_once-length sep s inside after h =
    let whole = ap length (split_once-append sep s inside after h) in
    let a = length-append inside (sep ++ after) in
    let b = length-append sep after in omega (arith, whole, a, b)

some_when : (b : Bool) (x y : Text × Text × Text) → (if b then none else some x) ≡ some y → x ≡ y
some_when true x y h = cc
some_when false x y h = some-inj h

link_parts-length :
    (s inner href after : Text) → link_parts s ≡ some (inner, href, after) → length after ≤ length s
unfolding link_parts
link_parts-length s inner href after h = elim (Option-cases (split_once (codes "](") s)) [
  | inl missing ↦
      let impossible : none ≡ some (inner, href, after) = rw (missing, link_parts) at h in cc
  | inr ((i, part), found) ↦ elim (Option-cases (split_once (codes ")") part)) [
    | inl missing ↦
        let impossible : none ≡ some (inner, href, after) = rw (found, missing, link_parts) at h in
        cc
    | inr ((raw, a), closed) ↦
        let whole = rw (found, closed, link_parts) at h in
        let same = some_when (is_empty (trim raw)) (i, trim raw, a) (inner, href, after) whole in
        let tail : a ≡ after = cc in
        let tail_length = ap length tail in
        omega (
          arith,
          split_once-length (codes "](") s i part found,
          split_once-length (codes ")") part raw a closed,
          tail_length,
        )
  ]
]

next_img-Holds : (n : ℕ) (s : Text) → length s ≤ suc n → Holds (Leaves n) (next_img s)
unfolding next_img
next_img-Holds n s l = bracketed (strip_prefix (codes "[") s) (strip_prefix-append (codes "[") s)
  where
    bracketed :
        (o : Option Text)
        → ((t : Text) → o ≡ some t → s ≡ codes "[" ++ t)
        → Holds (Leaves n) (elim o as (λ x. Outcome (Option (HtmlImg × Text))) [
          | none ↦ parse_html_img s
          | some after_bracket ↦
              elim (link_parts after_bracket) as (λ x. Outcome (Option (HtmlImg × Text))) [
                | none ↦ done none
                | some (inner, href, after) ↦
                    and_then (parse_html_img inner) (λ found. done (linked_img href after found))
              ]
        ])
    bracketed none f = parse_html_img-Holds n s l
    bracketed (some t) f = parts (link_parts t) (link_parts-length t)
      where
        parts :
            (o : Option (Text × Text × Text))
            → ((inner href after : Text) → o ≡ some (inner, href, after) → length after ≤ length t)
            → Holds (Leaves n) (elim o as (λ x. Outcome (Option (HtmlImg × Text))) [
              | none ↦ done none
              | some (inner, href, after) ↦
                  and_then (parse_html_img inner) (λ found. done (linked_img href after found))
            ])
        parts none g = tt
        parts (some (inner, href, after)) g =
            let opened = ap length (f t refl) in
            let short = g inner href after refl in
            and_then-Holds (Leaves (length inner)) (Leaves n) (parse_html_img inner)
              (λ found. done (linked_img href after found))
              (parse_html_img-Holds (length inner) inner (omega arith))
              (λ found h. linked_img-Leaves href after n found (omega (arith, opened, short, l)))

imgs_from-Holds :
    (scan : Text → Outcome (Option (List HtmlImg))) (n : ℕ)
    → ((t : Text) → length t ≤ n → Holds (λ o. Unit {0}) (scan t))
    → (o : Option (HtmlImg × Text)) → Leaves n o
    → Holds (λ o. Unit {0}) (imgs_from scan o)
unfolding imgs_from
imgs_from-Holds scan n ih none l = tt
imgs_from-Holds scan n ih (some (img, rest)) l =
    and_then-Holds (λ o. Unit {0}) (λ o. Unit {0}) (scan (trim_start rest)) _
      (ih (trim_start rest) (omega (arith, trim_start-length rest, l))) (λ o h. tt)

html_imgs-Holds : (n : ℕ) (s : Text) → length s ≤ n → Holds (λ o. Unit {0}) (html_imgs n s)
unfolding html_imgs
html_imgs-Holds n [] l = tt
html_imgs-Holds zero (c ∷ s) l = let impossible : ⊥ = omega (arith, l) in elim impossible [ ]
html_imgs-Holds (suc n) (c ∷ s) l =
    and_then-Holds (Leaves n) (λ o. Unit {0}) (next_img (c ∷ s)) _ (next_img-Holds n (c ∷ s) l)
      (λ o h. imgs_from-Holds (λ t. html_imgs n t) n (λ t m. html_imgs-Holds n t m) o h)

pub html_img_paragraph-Holds : (text : Text) → Holds (λ o. Unit {0}) (html_img_paragraph text)
unfolding html_img_paragraph
html_img_paragraph-Holds text = html_imgs-Holds (length text) (trim text) (trim-length text)

pub parse_iframe_tag-Holds : (s : Text) → Holds (λ o. Unit {0}) (parse_iframe_tag s)
unfolding parse_iframe_tag
parse_iframe_tag-Holds s =
    and_then-Holds (Leaves (length s)) (λ o. Unit {0}) (tag_at (codes "iframe") s) _
      (tag_bound (codes "iframe") (length s) s (omega arith)) (λ o h. tt)

pub iframe_video_paragraph-Holds :
    (text : Text) → Holds (λ o. Unit {0}) (iframe_video_paragraph text)
unfolding iframe_video_paragraph
iframe_video_paragraph-Holds text =
    and_then-Holds (λ o. Unit {0}) (λ o. Unit {0}) (parse_iframe_tag (trim text)) _
      (parse_iframe_tag-Holds (trim text)) (λ o h. tt)
