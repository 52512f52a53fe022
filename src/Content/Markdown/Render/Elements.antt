-- ===== src/Content/Markdown/Render/Elements.antt =====
-- The attributes of an element and the code of a block.
use forgepost.Prelude.{
  ◌≡◌, refl, true, false, not, Option, none, some, [], ◌∷◌, ◌++◌, all, any, arith, if◌then◌else◌,
  Bool-cases, &&_true, inl, inr, append_assoc, append-nil, All-append, subst,
}
use forgepost.Text.{Text, codes, text_eq, is_empty}
use forgepost.Text.Ops.{split_once, is_ascii_digit}
use forgepost.Json.{Json}
use forgepost.Content.Video.{str_or_empty}
use forgepost.Content.Markdown.Escape.{html_escape, IsInert, is_inert, html_escape-IsInert}
use forgepost.Content.Markdown.Markup.{
  attributes, IsMarkup, IsAttributes, IsElement, inert, join, element, bare, attribute, spelled,
}
use forgepost.Content.Markdown.Render.{
  is_digits, attrs_of, image_size_attrs, lang_attr, render_code,
}

pub html_escape-IsMarkup : (s : Text) → IsMarkup (html_escape s)
html_escape-IsMarkup s = inert (html_escape s) (html_escape-IsInert s)

-- A literal text, whose characters are all tested.
literal : (s : Text) → all is_inert s ≡ true → IsInert s
literal [] h = tt
literal (c ∷ s) h = let (d, ds) = &&_true (is_inert c) (all is_inert s) h in (d, literal s ds)

pub feed : IsMarkup (codes "\n")
feed = inert (codes "\n") (refl, tt)

pub empty : IsMarkup []
empty = inert [] tt

-- An attribute that is no address of a link.
pub plain_attribute :
    (name value rest : Text)
    → any (text_eq name) attributes ≡ true
    → text_eq name (codes "href") ≡ false
    → IsInert value
    → IsAttributes rest
    → IsAttributes (codes " " ++ name ++ codes "=\"" ++ value ++ codes "\"" ++ rest)
plain_attribute name value rest known other i r =
    attribute name value rest known i (λ h. let impossible : true ≡ false = cc in cc) r

pub fixed_attribute :
    (name value rest : Text)
    → any (text_eq name) attributes ≡ true
    → text_eq name (codes "href") ≡ false
    → all is_inert value ≡ true
    → IsAttributes rest
    → IsAttributes (codes " " ++ name ++ codes "=\"" ++ value ++ codes "\"" ++ rest)
fixed_attribute name value rest known other i r =
    plain_attribute name value rest known other (literal value i) r

pub words : (s : Text) → all is_inert s ≡ true → IsMarkup s
words s h = inert s (literal s h)

digits-IsInert : (s : Text) → all is_ascii_digit s ≡ true → IsInert s
digits-IsInert [] h = tt
digits-IsInert (c ∷ s) h =
    let (d, ds) = &&_true (is_ascii_digit c) (all is_ascii_digit s) h in
    (ground (arith, d), digits-IsInert s ds)

-- A width or a height, written only if it is a number.
sized :
    (name part rest : Text)
    → any (text_eq name) attributes ≡ true
    → text_eq name (codes "href") ≡ false
    → IsAttributes rest
    → IsAttributes (
        (if is_digits part then codes " " ++ name ++ codes "=\"" ++ part ++ codes "\"" else [])
        ++ rest)
sized name part rest known other r = elim (Bool-cases (is_digits part)) [
  | inr other ↦ rw other r
  | inl number ↦
      let (_, ds) = &&_true (not (is_empty part)) (all is_ascii_digit part) number in
      rw number (plain_attribute name part rest known other (digits-IsInert part ds) r)
]

attrs_of-IsAttributes :
    (size rest : Text) (o : Option (Text × Text))
    → IsAttributes rest
    → IsAttributes (attrs_of size o ++ rest)
attrs_of-IsAttributes size rest none r = sized (codes "height") size rest refl refl r
attrs_of-IsAttributes size rest (some (w, h)) r =
    subst IsAttributes (simp append_assoc)
      (sized (codes "width") w _ refl refl (sized (codes "height") h rest refl refl r))

pub size-IsAttributes :
    (size rest : Text) → IsAttributes rest → IsAttributes (image_size_attrs size ++ rest)
unfolding image_size_attrs
size-IsAttributes size rest r = attrs_of-IsAttributes size rest (split_once (codes "x") size) r

-- An element with a line feed behind it.
pub block_element :
    (name attrs body : Text)
    → IsElement name
    → IsAttributes attrs
    → IsMarkup body
    → IsMarkup
        (codes "<" ++ name ++ attrs ++ codes ">" ++ body ++ (codes "</" ++ name ++ codes ">\n"))
block_element name attrs body known a m =
    spelled (simp append_assoc) (join _ (codes "\n") (element name attrs body known a m) feed)

lang_attr-IsAttributes : (language : Text) → IsAttributes (lang_attr language)
unfolding lang_attr
lang_attr-IsAttributes language = elim (Bool-cases (is_empty language)) [
  | inl none_given ↦ rw none_given bare
  | inr given ↦
      let name =
        All-append _ (codes "language-") (html_escape language) (literal (codes "language-") refl)
          (html_escape-IsInert language) in
      rw given (
        subst IsAttributes (simp (append_assoc, append-nil)) (
          plain_attribute (codes "class") (codes "language-" ++ html_escape language) [] refl refl
            name bare))
]

pub render_code-IsMarkup : (content : Json) → IsMarkup (render_code content)
unfolding render_code
render_code-IsMarkup content = spelled (simp append_assoc) (
    block_element (codes "pre") [] _ (inl refl) bare (
      element (codes "code") (lang_attr (str_or_empty content (codes "language"))) _ (inl refl)
        (lang_attr-IsAttributes (str_or_empty content (codes "language")))
        (html_escape-IsMarkup (str_or_empty content (codes "code")))))
