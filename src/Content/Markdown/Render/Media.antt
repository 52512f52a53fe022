-- ===== src/Content/Markdown/Render/Media.antt =====
-- The images and the videos.
use forgepost.Prelude.{
  ◌≡◌, refl, Bool, true, false, not, ◌||◌, [], ◌++◌, arith, if◌then◌else◌, Bool-cases, inl, inr,
  append_assoc, append-nil, ◌∙◌,
}
use forgepost.Text.{Text, codes, is_empty}
use forgepost.Json.{Json}
use forgepost.Content.Video.{str_or_empty, video_embed_url, video_thumbnail}
use forgepost.Content.Markdown.Escape.{html_escape, html_escape-IsInert}
use forgepost.Content.Markdown.Url.{is_safe_url}
use forgepost.Content.Markdown.Url.Escaped.{is_safe_url-html_escape}
use forgepost.Content.Markdown.Markup.{
  IsMarkup, join, void, element, bare, slash, flag, attribute, spelled,
}
use forgepost.Content.Markdown.Render.{
  img_tag, image_html, render_image, poster, caption, video_html, render_video,
}
use forgepost.Content.Markdown.Render.Elements.{
  html_escape-IsMarkup, feed, empty, plain_attribute, fixed_attribute, words, size-IsAttributes,
  block_element,
}

img_tag-IsMarkup : (src alt size : Text) → IsMarkup (img_tag src alt size)
unfolding img_tag
img_tag-IsMarkup src alt size =
    let ends = size-IsAttributes size (codes " /") slash in
    let loads =
      fixed_attribute (codes "loading") (codes "lazy") _ refl refl refl
        (fixed_attribute (codes "decoding") (codes "async") _ refl refl refl ends) in
    let tells =
      plain_attribute (codes "alt") (html_escape alt) _ refl refl (html_escape-IsInert alt) loads in
    spelled (simp append_assoc) (
      void (codes "img") _ refl (
        plain_attribute (codes "src") (html_escape src) _ refl refl (html_escape-IsInert src)
          tells))

right_of : (a b : Bool) → (a || not b) ≡ false → b ≡ true
right_of a b h = ground arith

image_html-IsMarkup : (src alt size href : Text) → IsMarkup (image_html src alt size href)
unfolding image_html
image_html-IsMarkup src alt size href = elim (Bool-cases (is_safe_url src)) [
  | inr unsafe ↦ rw unsafe (
      spelled (simp append_assoc) (
        block_element (codes "p") [] _ (inl refl) bare (
          join _ _
            (element (codes "strong") [] (codes "Blocked link:") (inl refl) bare
              (words (codes "Blocked link:") refl))
            (join (codes " ") _ (words (codes " ") refl) (html_escape-IsMarkup alt)))))
  | inl safe ↦ rw safe (elim (Bool-cases (is_empty href || not (is_safe_url href))) [
    | inl unlinked ↦ rw unlinked (
        spelled (simp append_assoc)
          (block_element (codes "p") [] _ (inl refl) bare (img_tag-IsMarkup src alt size)))
    | inr linked ↦
        let fine : is_safe_url href ≡ true = right_of (is_empty href) (is_safe_url href) linked in
        let judged = is_safe_url-html_escape href ∙ fine in
        let link =
          attribute (codes "href") (html_escape href) [] refl (html_escape-IsInert href)
            (λ h. judged) bare in
        rw linked (
          spelled (simp (append_assoc, append-nil)) (
            block_element (codes "p") [] _ (inl refl) bare
              (element (codes "a") _ _ (inl refl) link (img_tag-IsMarkup src alt size))))
  ])
]

pub render_image-IsMarkup : (content : Json) → IsMarkup (render_image content)
unfolding render_image
render_image-IsMarkup content =
    image_html-IsMarkup (str_or_empty content (codes "src")) (str_or_empty content (codes "alt"))
      (str_or_empty content (codes "size")) (str_or_empty content (codes "href"))

poster-IsMarkup : (thumb : Text) → IsMarkup (poster thumb)
unfolding poster
poster-IsMarkup thumb = elim (Bool-cases (is_empty thumb)) [
  | inl missing ↦ rw missing empty
  | inr given ↦
      let loads = plain_attribute (codes "alt") [] _ refl refl tt (
        fixed_attribute (codes "loading") (codes "lazy") _ refl refl refl
          (fixed_attribute (codes "decoding") (codes "async") [] refl refl refl bare)) in
      let source =
        plain_attribute (codes "src") (html_escape thumb) _ refl refl (html_escape-IsInert thumb)
          loads in
      let image =
        void (codes "img") _ refl
          (fixed_attribute (codes "class") (codes "video-thumb") _ refl refl refl source) in
      rw given (spelled (simp append_assoc) (join _ (codes "\n") image feed))
]

caption-IsMarkup : (title : Text) → IsMarkup (caption title)
unfolding caption
caption-IsMarkup title = elim (Bool-cases (is_empty title)) [
  | inl missing ↦ rw missing empty
  | inr given ↦ rw given (
      spelled (simp append_assoc)
        (block_element (codes "figcaption") [] _ (inl refl) bare (html_escape-IsMarkup title)))
]

play-IsMarkup : IsMarkup (codes "<span class=\"video-play\" aria-hidden=\"true\">&#9654;</span>\n")
play-IsMarkup =
    block_element (codes "span") _ (codes "&#9654;") (inl refl)
      (fixed_attribute (codes "class") (codes "video-play") _ refl refl refl
        (fixed_attribute (codes "aria-hidden") (codes "true") [] refl refl refl bare))
      (words (codes "&#9654;") refl)

-- The button that plays a video.
button-IsMarkup :
    (url label thumb : Text)
    → IsMarkup (
        codes "<button type=\"button\" class=\"video-box\" data-video data-src=\""
        ++ html_escape url
        ++ codes "\" aria-label=\""
        ++ html_escape label
        ++ codes "\">\n"
        ++ poster thumb
        ++ codes "<span class=\"video-play\" aria-hidden=\"true\">&#9654;</span>\n</button>\n")
button-IsMarkup url label thumb =
    let named =
      plain_attribute (codes "aria-label") (html_escape label) [] refl refl
        (html_escape-IsInert label) bare in
    let played = flag _ (
      plain_attribute (codes "data-src") (html_escape url) _ refl refl (html_escape-IsInert url)
        named) in
    let attrs =
      fixed_attribute (codes "type") (codes "button") _ refl refl refl
        (fixed_attribute (codes "class") (codes "video-box") _ refl refl refl played) in
    spelled (simp (append_assoc, append-nil)) (
      block_element (codes "button") _ _ (inl refl) attrs
        (join _ _ feed (join _ _ (poster-IsMarkup thumb) play-IsMarkup)))

video_html-IsMarkup : (url title thumb : Text) → IsMarkup (video_html url title thumb)
unfolding video_html
video_html-IsMarkup url title thumb =
    let label = if is_empty title then codes "Play video" else codes "Play video: " ++ title in
    spelled (simp append_assoc) (
      block_element (codes "figure") (codes " class=\"video\"") _ (inl refl)
        (fixed_attribute (codes "class") (codes "video") [] refl refl refl bare)
        (join _ _ feed (join _ _ (button-IsMarkup url label thumb) (caption-IsMarkup title))))

pub render_video-IsMarkup : (content : Json) → IsMarkup (render_video content)
unfolding render_video
render_video-IsMarkup content =
    video_html-IsMarkup (video_embed_url content) (str_or_empty content (codes "title"))
      (video_thumbnail content)
