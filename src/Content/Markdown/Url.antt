-- ===== src/Content/Markdown/Url.antt =====
-- crates/content/src/markdown.rs: is_safe_url.
pub mod Escaped
pub mod Browser
use forgepost.Prelude.{
  ℕ, ◌≡◌, refl, sym, ap, ◌∙◌, Bool, true, false, not, ◌||◌, ◌&&◌, List, [], ◌∷◌, ◌++◌, ◌==◌, leb,
  ltb, if◌then◌else◌, arith, keep, any, All, Bool-cases, inl, inr,
}
use forgepost.Text.{Text, codes, starts_with, is_empty}
use forgepost.Text.Ops.{
  is_whitespace, trim_start, trim_end, trim, skip_char, to_ascii_lowercase, ascii_lower,
}
use forgepost.Content.Markdown.Escape.{escape_char, html_escape}

abbrev pub is_break : ℕ → Bool
is_break c = (c == 9) || (c == 10) || (c == 13)

-- The address as the schemes are looked for: without tabs and line breaks, in lower case.
unfoldable pub normalized : Text → Text
unfolding to_ascii_lowercase
normalized url = to_ascii_lowercase (keep (λ c. not (is_break c)) url)

abbrev pub executable_schemes : List Text
executable_schemes =
    codes "javascript:"
    ∷ codes "vbscript:"
    ∷ codes "file:"
    ∷ codes "data:text/html"
    ∷ codes "data:text/javascript"
    ∷ codes "data:application/xhtml"
    ∷ codes "data:image/svg"
    ∷ []

unfoldable pub is_safe_url : Text → Bool
unfolding normalized trim skip_char
is_safe_url url =
    let lower = normalized (skip_char 8203 (trim url)) in
    not (any (λ scheme. starts_with scheme lower) executable_schemes)

-- What a browser makes of an address: it drops the characters up to the space at the front, and
-- tabs and line breaks everywhere, and reads the scheme in any case.
unfoldable pub drop_controls : Text → Text
drop_controls [] = []
drop_controls (c ∷ s) = let rest = drop_controls s in if leb c 32 then rest else c ∷ s

unfoldable pub runs_script : Text → Bool
unfolding drop_controls
runs_script url = starts_with (codes "javascript:") (normalized (drop_controls url))
