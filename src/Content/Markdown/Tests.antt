-- ===== src/Content/Markdown/Tests.antt =====
-- The properties of escaping, addresses, rendering and parsing at inputs.
use forgepost.Prelude.{◌≡◌, ◌≢◌, refl, some, true, false, List, [], ◌∷◌, ◌++◌, length}
use forgepost.Text.{Text, codes}
use forgepost.Json.{Json, object, member, end, string}
use forgepost.Content.{BlockKind, heading, image}
use forgepost.Content.Markdown.Escape.{html_escape, unescape, unescape-html_escape}
use forgepost.Content.Markdown.Url.{is_safe_url, runs_script}
use forgepost.Content.Markdown.Url.Escaped.{is_safe_url-html_escape}
use forgepost.Content.Markdown.Url.Browser.{is_safe_url-runs_script, is_safe_url-control}
use forgepost.Content.Markdown.Markup.{IsMarkup}
use forgepost.Content.Markdown.Inline.{spans, inline_spans}
use forgepost.Content.Markdown.Inline.Safe.{inline_spans_total}
use forgepost.Content.Markdown.Render.{render_html}
use forgepost.Content.Markdown.Render.Safe.{render_html-IsMarkup}
use forgepost.Content.Markdown.Outcome.{unfinished, Holds}
use forgepost.Content.Markdown.Parse.{parse_markdown}
use forgepost.Content.Markdown.Parse.Ends.{parse_markdown_ends}
use forgepost.Content.Markdown.Parse.Videos.{AllTyped}
use forgepost.Content.Markdown.Parse.Typed.{parse_markdown-AllTyped}

unescape-html_escape_example : unescape (html_escape (codes "<a & 'b'>")) ≡ codes "<a & 'b'>"
unescape-html_escape_example = unescape-html_escape (codes "<a & 'b'>")

abbrev address : Text
address = codes " https://example.org/?a=1&b=2"

is_safe_url-html_escape_example : is_safe_url (html_escape address) ≡ is_safe_url address
is_safe_url-html_escape_example = is_safe_url-html_escape address

is_safe_url-runs_script_example : runs_script (codes "\t/a") ≡ false
unfolding is_safe_url
is_safe_url-runs_script_example =
    is_safe_url-runs_script (codes "\t/a") (refl, (refl, (refl, tt))) refl

is_safe_url-control_example :
    (is_safe_url (1 ∷ codes "javascript:" ++ codes "alert(1)") ≡ true)
    × (runs_script (1 ∷ codes "javascript:" ++ codes "alert(1)") ≡ true)
is_safe_url-control_example = is_safe_url-control 1 (codes "alert(1)") refl

abbrev marked : Text
marked = codes "a **b** [c](d) `*e*`"

inline_spans_total_example : spans (length marked) marked ≡ some (inline_spans marked)
inline_spans_total_example = inline_spans_total marked

abbrev blocks : List (BlockKind × Json)
blocks =
    (heading 2, object (member (codes "text") (string (codes "<b>")) end))
    ∷ (
      image,
      object (
          member (codes "alt") (string (codes "\"")) (
            member (codes "href") (string (codes "javascript:1"))
              (member (codes "src") (string (codes "/i.png")) end))),
    )
    ∷ []

render_html-IsMarkup_example : IsMarkup (render_html blocks)
render_html-IsMarkup_example = render_html-IsMarkup blocks

abbrev source : Text
source = codes "# A\n\n> b\n\nhttps://youtu.be/abc\n- [x](y)\n<img src=a>"

parse_markdown_ends_example : parse_markdown source ≢ unfinished
parse_markdown_ends_example = parse_markdown_ends source

parse_markdown-AllTyped_example : Holds AllTyped (parse_markdown source)
parse_markdown-AllTyped_example = parse_markdown-AllTyped source
