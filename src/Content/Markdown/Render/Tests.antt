-- ===== src/Content/Markdown/Render/Tests.antt =====
-- Runs of the renderer.
use forgepost.Prelude.{◌≡◌, refl, true, [], ◌∷◌}
use forgepost.Text.{codes}
use forgepost.Json.{Json, object, member, end, string, array, cons, nil}
use forgepost.Content.{heading, list, image}
use forgepost.Content.Markdown.Url.{is_safe_url}
use forgepost.Content.Markdown.Render.{render_html}
use forgepost.Content.Markdown.Inline.{spans}

abbrev title : Json
title = object (member (codes "text") (string (codes "A *b*")) end)

abbrev shopping : Json
shopping = object (member (codes "items") (array (cons (string (codes "<x>")) nil)) end)

abbrev picture : Json
picture = object (
    member (codes "alt") (string (codes "a")) (
      member (codes "size") (string (codes "80x"))
        (member (codes "src") (string (codes "/i.png")) end)))

render_html_run :
    render_html ((heading 12, title) ∷ (list true, shopping) ∷ (image, picture) ∷ [])
    ≡ codes
        "<h12>A <em>b</em></h12>\n<ol>\n<li>&lt;x&gt;</li>\n</ol>\n<p><img src=\"/i.png\" alt=\"a\" loading=\"lazy\" decoding=\"async\" width=\"80\" /></p>\n"
unfolding render_html spans is_safe_url
render_html_run = refl
