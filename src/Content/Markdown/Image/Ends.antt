-- ===== src/Content/Markdown/Image/Ends.antt =====
-- The scan of a line for images ends: an image consumes a character at least.
use forgepost.Prelude.{
  ℕ, zero, suc, ◌+◌, ◌-◌, ◌≤◌, ◌<◌, ◌≡◌, refl, Bool, true, false, not, ◌||◌, Option, none, some,
  List, [], ◌∷◌, length, if◌then◌else◌, arith, Bool-cases, inl, inr,
}
use forgepost.Text.{Text, codes, strip_prefix, is_empty}
use forgepost.Text.Ops.{trim_start, trim, split_once}
use forgepost.Content.Markdown.Outcome.{Outcome, done, panic, and_then, Holds, and_then-Holds}
use forgepost.Content.Markdown.Html.Attributes.{trim_start-length}
use forgepost.Content.Markdown.Image.{
  byte_len, utf8_len, byte_drop, slice, ParsedImage, plain_image, parse_plain_image_at_start,
  image_link, parse_image_at_start, split_image_size, may_be_image, with_image, images_from,
  images_at_start, image_line,
}

byte_drop-length : (n : ℕ) (s r : Text) → byte_drop n s ≡ some r → length r ≤ length s
unfolding byte_drop
byte_drop-length n [] r h = ground arith
byte_drop-length n (c ∷ s) r h = ground (arith, byte_drop-length (n - utf8_len c) s r)

byte_drop-strict : (n : ℕ) (s r : Text) → 1 ≤ n → byte_drop n s ≡ some r → length r < length s
unfolding byte_drop
byte_drop-strict n [] r l h = ground (arith, l)
byte_drop-strict n (c ∷ s) r l h = ground (arith, l, byte_drop-length (n - utf8_len c) s r)

-- A slice behind one byte at least is shorter.
slice-Holds : (n : ℕ) (s : Text) → 1 ≤ n → Holds (λ r. length r < length s) (slice n s)
unfolding slice
slice-Holds n s l = sliced (byte_drop n s) (λ r e. byte_drop-strict n s r l e)
  where
    sliced :
        (o : Option Text)
        → ((r : Text) → o ≡ some r → length r < length s)
        → Holds
            (λ r. length r < length s)
            (elim o as (λ _. Outcome Text) [ none ↦ panic | some rest ↦ done rest ])
    sliced none f = tt
    sliced (some r) f = f r refl

-- An image that consumes a byte at least, if there is one.
abbrev Consumes : Option ParsedImage → Type 0
Consumes none = Unit
Consumes (some img) = 1 ≤ img.consumed

-- A property of a chain that ends in no image holds of it if it holds of what follows.
chain :
    {A : Type 0} (o : Option A) (f : A → Option ParsedImage)
    → ((a : A) → Consumes (f a))
    → Consumes (elim o [ none ↦ none | some a ↦ f a ])
chain none f h = tt
chain (some a) f h = h a

plain_image-Consumes : (alt raw : Text) → Consumes (plain_image alt raw)
unfolding plain_image
plain_image-Consumes alt raw =
    elim (Bool-cases (is_empty (trim raw) || is_empty (split_image_size (trim raw)).0)) [
      | inl missing ↦ rw missing tt
      | inr given ↦ rw given (omega arith)
    ]

parse_plain_image_at_start-Consumes : (s : Text) → Consumes (parse_plain_image_at_start s)
unfolding parse_plain_image_at_start
parse_plain_image_at_start-Consumes s = chain (strip_prefix (codes "!") s) _ (λ rest.
    chain (split_once (codes "]") rest) _ (λ (bracket, behind).
      chain (strip_prefix (codes "[") bracket) _ (λ alt.
        chain (strip_prefix (codes "(") (trim_start behind)) _ (λ paren.
          chain (split_once (codes ")") paren) _ (λ (raw, after). plain_image-Consumes alt raw)))))

image_link-Consumes : (plain : ParsedImage) (tail : Text) → Consumes (image_link plain tail)
unfolding image_link
image_link-Consumes plain tail =
    chain (strip_prefix (codes "](") tail) _
      (λ target. chain (split_once (codes ")") target) _ (λ (raw, after). linked raw))
  where
    linked :
        (raw : Text)
        → Consumes (
            if is_empty (trim raw)
            then none
            else some record plain {
              href = trim raw;
              consumed = 1 + plain.consumed + 1 + 1 + byte_len raw + 1;
            })
    linked raw = elim (Bool-cases (is_empty (trim raw))) [
      | inl missing ↦ rw missing tt
      | inr given ↦ rw given (omega arith)
    ]

parse_image_at_start-Holds : (s : Text) → Holds Consumes (parse_image_at_start s)
unfolding parse_image_at_start
parse_image_at_start-Holds s = bracketed (strip_prefix (codes "[") s)
  where
    bracketed :
        (o : Option Text)
        → Holds Consumes (elim o as (λ x. Outcome (Option ParsedImage)) [
          | none ↦ done (parse_plain_image_at_start s)
          | some inner ↦
              elim (parse_plain_image_at_start inner) as (λ x. Outcome (Option ParsedImage)) [
                | none ↦ done none
                | some plain ↦
                    and_then (slice plain.consumed inner) (λ tail. done (image_link plain tail))
              ]
        ])
    bracketed none = parse_plain_image_at_start-Consumes s
    bracketed (some inner) =
        inside (parse_plain_image_at_start inner) (parse_plain_image_at_start-Consumes inner)
      where
        inside :
            (o : Option ParsedImage)
            → Consumes o
            → Holds Consumes (elim o as (λ x. Outcome (Option ParsedImage)) [
              | none ↦ done none
              | some plain ↦
                  and_then (slice plain.consumed inner) (λ tail. done (image_link plain tail))
            ])
        inside none c = tt
        inside (some plain) c =
            and_then-Holds (λ r. length r < length inner) Consumes (slice plain.consumed inner) _
              (slice-Holds plain.consumed inner c) (λ tail h. image_link-Consumes plain tail)

images_from-Holds :
    (scan : Text → Outcome (List ParsedImage × Text)) (rest : Text) (o : Option ParsedImage)
    → ((t : Text) → length t < length rest → Holds (λ o. Unit {0}) (scan t))
    → Consumes o
    → Holds (λ o. Unit {0}) (images_from scan rest o)
unfolding images_from
images_from-Holds scan rest none ih c = tt
images_from-Holds scan rest (some img) ih c =
    and_then-Holds (λ r. length r < length rest) (λ o. Unit {0}) (slice img.consumed rest) _
      (slice-Holds img.consumed rest c)
      (λ sliced h.
        next sliced (is_empty (trim_start sliced) || not (may_be_image (trim_start sliced)))
          (omega (arith, trim_start-length sliced, h)))
  where
    next :
        (sliced : Text) (b : Bool)
        → length (trim_start sliced) < length rest
        → Holds
            (λ o. Unit {0})
            (if b
              then done (img ∷ [], trim_start sliced)
              else and_then (scan (trim_start sliced)) (λ more. done (with_image img more)))
    next sliced true m = tt
    next sliced false m =
        and_then-Holds (λ o. Unit {0}) (λ o. Unit {0}) (scan (trim_start sliced)) _
          (ih (trim_start sliced) m) (λ o h. tt)

-- With more rounds than characters the scan ends.
images_at_start-Holds :
    (rounds : ℕ) (rest : Text)
    → length rest < rounds
    → Holds (λ o. Unit {0}) (images_at_start rounds rest)
unfolding images_at_start
images_at_start-Holds zero rest l = let impossible : ⊥ = omega (arith, l) in elim impossible [ ]
images_at_start-Holds (suc rounds) rest l =
    and_then-Holds Consumes (λ o. Unit {0}) (parse_image_at_start rest) _
      (parse_image_at_start-Holds rest)
      (λ found h.
        images_from-Holds (λ t. images_at_start rounds t) rest found
          (λ t m. images_at_start-Holds rounds t (omega (arith, m, l))) h)

pub image_line-Holds : (trimmed : Text) → Holds (λ o. Unit {0}) (image_line trimmed)
unfolding image_line
image_line-Holds trimmed = line (may_be_image trimmed)
  where
    line :
        (b : Bool)
        → Holds
            (λ o. Unit {0})
            (if not b
              then done []
              else and_then
                  (images_at_start (suc (length trimmed)) trimmed)
                  (λ found. if is_empty found.1 then done found.0 else done []))
    line false = tt
    line true =
        and_then-Holds (λ o. Unit {0}) (λ o. Unit {0})
          (images_at_start (suc (length trimmed)) trimmed) _
          (images_at_start-Holds (suc (length trimmed)) trimmed (omega arith))
          (λ found h. alone (is_empty found.1) found.0)
      where
        alone :
            (b : Bool) (imgs : List ParsedImage)
            → Holds (λ o. Unit {0}) (if b then done imgs else done [])
        alone true imgs = tt
        alone false imgs = tt
