-- ===== src/Content/Markdown/Html/Tag.antt =====
-- crates/content/src/markdown.rs: the attributes of a raw tag, as parse_html_img and parse_iframe_tag
-- scan them alike.
use forgepost.Prelude.{
  ℕ, zero, suc, ◌+◌, ◌/◌, ◌%◌, Bool, not, ◌&&◌, ◌||◌, Option, none, some, List, [], ◌∷◌, ◌++◌, ◌==◌,
  ltb, all, length, if◌then◌else◌,
}
use forgepost.Text.{Text, codes, text_eq, is_empty, strip_prefix}
use forgepost.Text.Ops.{to_ascii_lowercase, is_ascii_digit, is_ascii_alphanumeric}
use forgepost.Content.Markdown.Outcome.{Outcome, done, unfinished, and_then}

-- The bytes of a character, each taken as a character.
unfoldable pub byte_chars : ℕ → Text
byte_chars c =
    if ltb c 128
    then c ∷ []
    else if ltb c 2048
    then (192 + c / 64) ∷ (128 + c % 64) ∷ []
    else if ltb c 65536
    then (224 + c / 4096) ∷ (128 + c / 64 % 64) ∷ (128 + c % 64) ∷ []
    else (240 + c / 262144) ∷ (128 + c / 4096 % 64) ∷ (128 + c / 64 % 64) ∷ (128 + c % 64) ∷ []

abbrev pub is_blank : ℕ → Bool
is_blank c = (c == 32) || (c == 9) || (c == 10) || (c == 13)

unfoldable pub skip_blanks : Text → Text
skip_blanks [] = []
skip_blanks (c ∷ s) = let rest = skip_blanks s in if is_blank c then rest else c ∷ s

-- The characters up to the first that stops, and the rest with it.
unfoldable pub until : (ℕ → Bool) → Text → Text × Text
until stop [] = ([], [])
until stop (c ∷ s) = let rest = until stop s in if stop c then ([], c ∷ s) else (c ∷ rest.0, rest.1)

unfoldable pub latin : Text → Text
unfolding byte_chars
latin [] = []
latin (c ∷ s) = byte_chars c ++ latin s

abbrev pub ends_name : ℕ → Bool
ends_name c = (c == 61) || is_blank c || (c == 62) || (c == 47)

abbrev pub ends_value : ℕ → Bool
ends_value c = is_blank c || (c == 62)

-- A quoted value, which has to be closed.
unfoldable pub quoted : ℕ → Text → Option (Text × Text)
unfolding until latin
quoted quote s =
    let (value, rest) = until (λ c. c == quote) s in
    elim rest [ [] ↦ none | q ∷ after ↦ some (latin value, after) ]

-- What is behind the `=` of an attribute.
unfoldable pub value_after_equals : Text → Option (Text × Text)
unfolding quoted until latin
value_after_equals [] = some ([], [])
value_after_equals (c ∷ s) =
    let plain = until ends_value (c ∷ s) in
    if (c == 34) || (c == 39) then quoted c s else some (latin plain.0, plain.1)

-- The value of an attribute, which may have none.
unfoldable pub attribute_value : Text → Option (Text × Text)
unfolding value_after_equals skip_blanks
attribute_value [] = some ([], [])
attribute_value (c ∷ s) = if c == 61 then value_after_equals (skip_blanks s) else some ([], c ∷ s)

-- An attribute that starts here.
unfoldable pub one_attribute : Text → Option (Text × Text × Text)
unfolding until attribute_value skip_blanks to_ascii_lowercase
one_attribute s =
    let name = until ends_name s in
    elim (attribute_value (skip_blanks name.1)) [
      | none ↦ none
      | some (value, rest) ↦ some (to_ascii_lowercase name.0, value, rest)
    ]

-- One attribute put before the others.
abbrev pub with_attribute :
    Text → Text → Option (List (Text × Text) × Text) → Option (List (Text × Text) × Text)
with_attribute name value none = none
with_attribute name value (some (more, left)) = some ((name, value) ∷ more, left)

-- One round at a text without blanks at its start; `scan` goes on behind it.
unfoldable pub attributes_from :
    (Text → Outcome (Option (List (Text × Text) × Text)))
    → Text
    → Outcome (Option (List (Text × Text) × Text))
attributes_from scan [] = done none
attributes_from scan (c ∷ rest) =
    if c == 62
    then done (some ([], rest))
    else if c == 47
    then elim (strip_prefix (codes ">") rest) [
      | some after ↦ done (some ([], after))
      | none ↦ scan rest
    ]
    else elim (one_attribute (c ∷ rest)) [
      | none ↦ done none
      | some (name, value, after) ↦
          and_then (scan after) (λ found. done (with_attribute name value found))
    ]

-- The attributes in order, and what is behind the tag; `none` if it is not closed.
unfoldable pub attributes_of : ℕ → Text → Outcome (Option (List (Text × Text) × Text))
unfolding skip_blanks attributes_from one_attribute
attributes_of zero s = unfinished
attributes_of (suc rounds) s = attributes_from (λ t. attributes_of rounds t) (skip_blanks s)

abbrev pub is_number : Text → Bool
is_number v = not (is_empty v) && all is_ascii_digit v

abbrev pub is_ident : ℕ → Bool
is_ident c = is_ascii_alphanumeric c || (c == 45) || (c == 95)

unfoldable pub read_ident : Text → Option (Text × Text)
unfolding until
read_ident s =
    let (name, rest) = until (λ c. not (is_ident c)) s in
    if is_empty name then none else some (name, rest)

-- The attributes of a tag of a name at the start of a text, and what is behind it.
unfoldable pub tag_at : Text → Text → Outcome (Option (List (Text × Text) × Text))
unfolding read_ident attributes_of to_ascii_lowercase
tag_at tag s = elim (strip_prefix (codes "<") s) [
  | none ↦ done none
  | some t ↦ elim (read_ident t) [
    | none ↦ done none
    | some (name, rest) ↦
        if text_eq (to_ascii_lowercase name) tag
        then attributes_of (suc (length rest)) rest
        else done none
  ]
]
