-- ===== src/Content/Markdown/Parse/Tests.antt =====
-- Runs of the parser.
use forgepost.Prelude.{◌≡◌, refl, true, false, [], ◌∷◌}
use forgepost.Text.{codes}
use forgepost.Json.{Json, object, member, end, string, array, cons, nil}
use forgepost.Content.{heading, list, image, paragraph, code, quote, video}
use forgepost.Content.Markdown.Outcome.{done, panic}
use forgepost.Content.Markdown.Parse.{parse_markdown, text_content}

parse_markdown_run :
    parse_markdown (codes "## A\r\n\n> b\n>c\n```rs\nx\n\ny\n```\np\nq\n- i\n- j\n1. k")
    ≡ done (
        record { kind = heading 2; content = text_content (codes "A") }
        ∷ record { kind = quote; content = text_content (codes "b\nc") }
        ∷ record {
          kind = code;
          content = object (
              member
                (codes "code")
                (string (codes "x\n\ny"))
                (member (codes "language") (string (codes "rs")) end));
        }
        ∷ record { kind = paragraph; content = text_content (codes "p\nq") }
        ∷ record {
          kind = list false;
          content = object (
              member
                (codes "items")
                (array (cons (string (codes "i")) (cons (string (codes "j")) nil)))
                end);
        }
        ∷ record {
          kind = list true;
          content = object (member (codes "items") (array (cons (string (codes "k")) nil)) end);
        }
        ∷ [])
unfolding parse_markdown
parse_markdown_run = refl

abbrev picture : Json
picture = object (
    member (codes "alt") (string (codes "a")) (
      member (codes "size") (string (codes "80x"))
        (member (codes "src") (string (codes "/s.png")) end)))

abbrev linked : Json
linked = object (
    member (codes "alt") (string [])
      (member (codes "href") (string (codes "/h")) (member (codes "src") (string (codes "x")) end)))

parse_image_run :
    parse_markdown (codes "![a](/s.png =80x) [![](x)](/h)")
    ≡ done (
        record { kind = image; content = picture } ∷ record { kind = image; content = linked } ∷ [])
unfolding parse_markdown
parse_image_run = refl

abbrev badge : Json
badge = object (
    member (codes "alt") (string []) (
      member (codes "href") (string (codes "/h")) (
        member (codes "size") (string (codes "10x"))
          (member (codes "src") (string (codes "/i")) end))))

abbrev frame : Json
frame = object (
    member (codes "provider") (string (codes "iframe"))
      (member (codes "url") (string (codes "https://v")) end))

abbrev clip : Json
clip = object (
    member (codes "id") (string (codes "abc")) (
      member (codes "provider") (string (codes "youtube"))
        (member (codes "url") (string (codes "https://youtu.be/abc?t=1")) end)))

parse_html_run :
    parse_markdown (
      codes
        "[<IMG src='/i' width=10\nonerror=x>](/h)\n\n<iframe src=\"https://v\"></iframe>\n\nhttps://youtu.be/abc?t=1")
    ≡ done (
        record { kind = image; content = badge }
        ∷ record { kind = video; content = frame }
        ∷ record { kind = video; content = clip }
        ∷ [])
unfolding parse_markdown
parse_html_run = refl

panic_run : parse_markdown (codes "![a]  (é)") ≡ panic
unfolding parse_markdown
panic_run = refl
