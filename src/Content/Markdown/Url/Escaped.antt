-- ===== src/Content/Markdown/Url/Escaped.antt =====
-- An address and its escaped form are judged alike.
use forgepost.Prelude.{
  ℕ, ◌≡◌, refl, sym, ap, ◌∙◌, Bool, true, false, not, ◌||◌, List, [], ◌∷◌, ◌++◌, ◌==◌, arith, any,
  All, Bool-cases, inl, inr,
}
use forgepost.Text.{Text, starts_with, is_empty}
use forgepost.Text.Ops.{is_whitespace, trim_start, trim_end, trim, skip_char, to_ascii_lowercase}
use forgepost.Content.Markdown.Escape.{escape_char, html_escape}
use forgepost.Content.Markdown.Url.{normalized, executable_schemes, is_safe_url}

-- The characters that are escaped.
abbrev is_special : ℕ → Bool
is_special c = (c == 38) || (c == 60) || (c == 62) || (c == 34) || (c == 39)

empty-html_escape : (s : Text) → is_empty (html_escape s) ≡ is_empty s
unfolding html_escape escape_char
empty-html_escape [] = refl
empty-html_escape (c ∷ s) = ground arith

trim_start-html_escape : (s : Text) → trim_start (html_escape s) ≡ html_escape (trim_start s)
unfolding html_escape escape_char trim_start is_whitespace
trim_start-html_escape [] = refl
trim_start-html_escape (c ∷ s) = ground (arith, trim_start-html_escape s)

escape_char-plain : (c : ℕ) → is_special c ≡ false → escape_char c ≡ c ∷ []
unfolding escape_char
escape_char-plain c h = ground arith

escape_char-solid :
    (c : ℕ) → is_special c ≡ true → All (λ d. is_whitespace d ≡ false) (escape_char c)
unfolding escape_char is_whitespace
escape_char-solid c h = ground arith

special_white : (c : ℕ) → is_special c ≡ true → is_whitespace c ≡ false
unfolding is_whitespace
special_white c h = ground arith

pub trim_end-solid :
    (u s : Text) → All (λ d. is_whitespace d ≡ false) u → trim_end (u ++ s) ≡ u ++ trim_end s
unfolding trim_end
trim_end-solid [] s h = refl
trim_end-solid (c ∷ u) s (h, hs) = ground (arith, trim_end-solid u s hs)

trim_end-white :
    (c : ℕ) (s : Text)
    → is_special c ≡ false
    → trim_end (html_escape s) ≡ html_escape (trim_end s)
    → trim_end (c ∷ html_escape s) ≡ html_escape (trim_end (c ∷ s))
unfolding html_escape trim_end
trim_end-white c s h ih =
    let plain = escape_char-plain c h in
    let same = empty-html_escape (trim_end s) in ground (arith, plain, same, ih)

trim_end-html_escape : (s : Text) → trim_end (html_escape s) ≡ html_escape (trim_end s)
unfolding html_escape trim_end
trim_end-html_escape [] = refl
trim_end-html_escape (c ∷ s) = elim (Bool-cases (is_special c)) [
  | inl special ↦
      trim_end-solid (escape_char c) (html_escape s) (escape_char-solid c special)
      ∙ ap (λ t. escape_char c ++ t) (trim_end-html_escape s)
      ∙ sym (ap html_escape (trim_end-solid (c ∷ []) s (special_white c special, tt)))
  | inr plain ↦ rw (escape_char-plain c plain) (trim_end-white c s plain (trim_end-html_escape s))
]

skip_char-html_escape : (s : Text) → skip_char 8203 (html_escape s) ≡ html_escape (skip_char 8203 s)
unfolding html_escape escape_char skip_char
skip_char-html_escape [] = refl
skip_char-html_escape (c ∷ s) = ground (arith, skip_char-html_escape s)

starts_with-html_escape :
    (p : Text) (s : Text)
    → All (λ c. is_special c ≡ false) p
    → starts_with p (normalized (html_escape s)) ≡ starts_with p (normalized s)
unfolding html_escape escape_char normalized to_ascii_lowercase
starts_with-html_escape [] s h = refl
starts_with-html_escape (d ∷ p) [] h = refl
starts_with-html_escape (d ∷ p) (c ∷ s) (h, hs) =
    ground (arith, starts_with-html_escape (d ∷ p) s (h, hs), starts_with-html_escape p s hs)

any-html_escape :
    (ps : List Text) (s : Text)
    → All (λ p. All (λ c. is_special c ≡ false) p) ps
    → any (λ p. starts_with p (normalized (html_escape s))) ps
      ≡ any (λ p. starts_with p (normalized s)) ps
any-html_escape [] s h = refl
any-html_escape (p ∷ ps) s (h, hs) =
    rw (starts_with-html_escape p s h, any-html_escape ps s hs) refl

schemes_plain : All (λ p. All (λ c. is_special c ≡ false) p) executable_schemes
schemes_plain = ground arith

bare-html_escape :
    (url : Text) → skip_char 8203 (trim (html_escape url)) ≡ html_escape (skip_char 8203 (trim url))
unfolding trim
bare-html_escape url =
    let at_start = ap trim_end (trim_start-html_escape url) in
    let at_end = at_start ∙ trim_end-html_escape (trim_start url) in
    ap (skip_char 8203) at_end ∙ skip_char-html_escape (trim_end (trim_start url))

-- An address is judged the same before and after it is escaped.
pub is_safe_url-html_escape : (url : Text) → is_safe_url (html_escape url) ≡ is_safe_url url
unfolding is_safe_url
is_safe_url-html_escape url =
    let refuse : Text → Bool = λ a. any (λ p. starts_with p (normalized a)) executable_schemes in
    ap (λ a. not (refuse a)) (bare-html_escape url)
    ∙ ap not (any-html_escape executable_schemes (skip_char 8203 (trim url)) schemes_plain)
