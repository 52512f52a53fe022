-- ===== src/Content/Markdown/Inline/Tests.antt =====
-- Runs of the inline renderer.
use forgepost.Prelude.{◌≡◌, refl}
use forgepost.Text.{codes}
use forgepost.Content.Markdown.Inline.{render_inline}

render_inline_run :
    render_inline (codes "a **b *c* d** [x](javascript:1) [*y*]( /z ) `*`<")
    ≡ codes "a <strong>b <em>c</em> d</strong> x <a href=\"/z\"><em>y</em></a> <code>*</code>&lt;"
unfolding render_inline
render_inline_run = refl
