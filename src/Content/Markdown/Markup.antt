-- ===== src/Content/Markdown/Markup.antt =====
-- The markup that an article may show, described apart from the renderer of
-- crates/content/src/markdown.rs: its elements, its attributes, and what their values hold.
use forgepost.Prelude.{
  ℕ, ◌≡◌, true, ◌+◌, ◌/◌, ◌%◌, ltb, List, [], ◌∷◌, ◌++◌, ◌⊎◌, any, if◌then◌else◌, subst,
}
use forgepost.Text.{Text, codes, text_eq}
use forgepost.Content.Markdown.Escape.{IsInert}
use forgepost.Content.Markdown.Url.{is_safe_url}

-- The digits of a u8.
unfoldable pub decimal : ℕ → Text
decimal n =
    if ltb n 10
    then (48 + n) ∷ []
    else if ltb n 100
    then (48 + n / 10) ∷ (48 + n % 10) ∷ []
    else (48 + n / 100) ∷ (48 + n / 10 % 10) ∷ (48 + n % 10) ∷ []

abbrev pub elements : List Text
elements =
    codes "p"
    ∷ codes "blockquote"
    ∷ codes "pre"
    ∷ codes "code"
    ∷ codes "strong"
    ∷ codes "em"
    ∷ codes "a"
    ∷ codes "ol"
    ∷ codes "ul"
    ∷ codes "li"
    ∷ codes "figure"
    ∷ codes "figcaption"
    ∷ codes "button"
    ∷ codes "span"
    ∷ []

abbrev pub attributes : List Text
attributes =
    codes "class"
    ∷ codes "href"
    ∷ codes "src"
    ∷ codes "alt"
    ∷ codes "loading"
    ∷ codes "decoding"
    ∷ codes "width"
    ∷ codes "height"
    ∷ codes "type"
    ∷ codes "data-src"
    ∷ codes "aria-label"
    ∷ codes "aria-hidden"
    ∷ []

-- The name of an element: one of the list, or that of a heading.
abbrev pub IsElement : Text → Type 0
IsElement name = (any (text_eq name) elements ≡ true) ⊎ ((n : ℕ) × (name ≡ codes "h" ++ decimal n))

-- Attributes: values have no quotes and no angle brackets, and the address of a link is safe.
pub data IsAttributes : Text → Type 0 where
  bare : IsAttributes []
  slash : IsAttributes (codes " /")
  flag : (rest : Text) → IsAttributes rest → IsAttributes (codes " data-video" ++ rest)
  attribute :
      (name value rest : Text)
      → any (text_eq name) attributes ≡ true
      → IsInert value
      → (text_eq name (codes "href") ≡ true → is_safe_url value ≡ true)
      → IsAttributes rest
      → IsAttributes (codes " " ++ name ++ codes "=\"" ++ value ++ codes "\"" ++ rest)

pub data IsMarkup : Text → Type 0 where
  inert : (s : Text) → IsInert s → IsMarkup s
  join : (s t : Text) → IsMarkup s → IsMarkup t → IsMarkup (s ++ t)
  void :
      (name attrs : Text)
      → any (text_eq name) (codes "img" ∷ codes "hr" ∷ []) ≡ true
      → IsAttributes attrs
      → IsMarkup (codes "<" ++ name ++ attrs ++ codes ">")
  element :
      (name attrs body : Text)
      → IsElement name
      → IsAttributes attrs
      → IsMarkup body
      → IsMarkup
          (codes "<" ++ name ++ attrs ++ codes ">" ++ body ++ codes "</" ++ name ++ codes ">")

-- Markup, however its text is put together.
pub spelled : {s t : Text} → s ≡ t → IsMarkup s → IsMarkup t
spelled e h = subst IsMarkup e h
