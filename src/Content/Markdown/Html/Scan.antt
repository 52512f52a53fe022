-- ===== src/Content/Markdown/Html/Scan.antt =====
-- The scan of a raw tag.
use forgepost.Prelude.{
  ℕ, suc, ◌≤◌, ◌≡◌, refl, ap, not, Option, none, some, List, [], ◌∷◌, ◌++◌, length, if◌then◌else◌,
  arith, Bool-cases, inl, inr,
}
use forgepost.Text.{Text, codes, strip_prefix, text_eq, is_empty}
use forgepost.Text.Ops.{to_ascii_lowercase}
use forgepost.Content.Markdown.Outcome.{Outcome, done, Holds, Holds-map}
use forgepost.Content.Markdown.Inline.Spans.{strip_prefix-append}
use forgepost.Content.Markdown.Html.Tag.{until, attributes_of, is_ident, read_ident, tag_at}
use forgepost.Content.Markdown.Html.Attributes.{
  Leaves, until-length, Leaves-grow, attributes_of-Holds,
}

read_ident-Leaves : (s : Text) → Leaves (length s) (read_ident s)
unfolding read_ident
read_ident-Leaves s = named (until (λ c. not (is_ident c)) s).0
  where
    named :
        (name : Text)
        → Leaves
            (length s)
            (if is_empty name then none else some (name, (until (λ c. not (is_ident c)) s).1))
    named [] = tt
    named (c ∷ name) = until-length (λ c. not (is_ident c)) s

-- A tag leaves less than it was in.
pub tag_at-Holds : (tag : Text) (c : ℕ) (s : Text) → Holds (Leaves (length s)) (tag_at tag (c ∷ s))
unfolding tag_at
tag_at-Holds tag c s =
    opened (strip_prefix (codes "<") (c ∷ s)) (strip_prefix-append (codes "<") (c ∷ s))
  where
    named :
        (o : Option (Text × Text))
        → Leaves (length s) o
        → Holds (Leaves (length s)) (elim o as (λ x. Outcome (Option (List (Text × Text) × Text))) [
          | none ↦ done none
          | some (name, rest) ↦
              if text_eq (to_ascii_lowercase name) tag
              then attributes_of (suc (length rest)) rest
              else done none
        ])
    named none l = tt
    named (some (name, rest)) l = elim (Bool-cases (text_eq (to_ascii_lowercase name) tag)) [
      | inr differs ↦ rw differs tt
      | inl same ↦ rw same (
          Holds-map (Leaves (length rest)) (Leaves (length s)) _
            (λ o h. Leaves-grow (length rest) (length s) o l h)
            (attributes_of-Holds (suc (length rest)) rest (omega arith)))
    ]

    opened :
        (o : Option Text)
        → ((t : Text) → o ≡ some t → c ∷ s ≡ codes "<" ++ t)
        → Holds (Leaves (length s)) (elim o as (λ x. Outcome (Option (List (Text × Text) × Text))) [
          | none ↦ done none
          | some t ↦ elim (read_ident t) as (λ x. Outcome (Option (List (Text × Text) × Text))) [
            | none ↦ done none
            | some (name, rest) ↦
                if text_eq (to_ascii_lowercase name) tag
                then attributes_of (suc (length rest)) rest
                else done none
          ]
        ])
    opened none f = tt
    opened (some t) f =
        let same = ap length (f t refl) in
        named (read_ident t) (
          Leaves-grow (length t) (length s) (read_ident t) (omega (arith, same))
            (read_ident-Leaves t))

pub tag_bound : (tag : Text) (n : ℕ) (s : Text) → length s ≤ suc n → Holds (Leaves n) (tag_at tag s)
unfolding tag_at
tag_bound tag n [] l = tt
tag_bound tag n (c ∷ s) l =
    Holds-map (Leaves (length s)) (Leaves n) (tag_at tag (c ∷ s))
      (λ o h. Leaves-grow (length s) n o (omega (arith, l)) h) (tag_at-Holds tag c s)
