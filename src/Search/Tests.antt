-- ===== src/Search/Tests.antt =====
-- The search at a query and a snippet.
use forgepost.Prelude.{◌≡◌, ◌⊎◌, refl, []}
use forgepost.Text.{Text, codes}
use forgepost.Content.Markdown.Outcome.{done, Holds}
use forgepost.Search.{fts_match_expr, escape_snippet}
use forgepost.Search.Query.{IsPhrases, fts_match_expr-IsPhrases}
use forgepost.Search.Snippet.{IsHighlighted, escape_snippet-IsHighlighted}

fts_match_expr_run : fts_match_expr (codes " a\"b  OR \" c*") ≡ codes "\"ab\" \"OR\" \"c*\"*"
unfolding fts_match_expr
fts_match_expr_run = refl

abbrev query : Text
query = codes "hello \"wor"

fts_match_expr-IsPhrases_example : (fts_match_expr query ≡ []) ⊎ IsPhrases (fts_match_expr query)
fts_match_expr-IsPhrases_example = fts_match_expr-IsPhrases query

abbrev snippet : Text
snippet = codes "<b><mark>x</mark> & <mark>y"

escape_snippet_run : escape_snippet snippet ≡ done (codes "&lt;b&gt;<mark>x</mark> &amp; <mark>y")
unfolding escape_snippet
escape_snippet_run = refl

escape_snippet-IsHighlighted_example : Holds IsHighlighted (escape_snippet snippet)
escape_snippet-IsHighlighted_example = escape_snippet-IsHighlighted snippet
