-- ===== src/Content/Video.antt =====
-- crates/content/src/markdown.rs: what a video block's content says of the video.
use forgepost.Prelude.{◌≡◌, Bool, true, &&_true, none, some, ◌++◌, if◌then◌else◌, ◌&&◌, not}
use forgepost.Text.{Text, codes, text_eq, text_eq→eq, text_eq_refl, is_empty}
use forgepost.Json.{Json, str_at}

-- `.unwrap_or("")` on a looked-up string.
abbrev pub str_or_empty : Json → Text → Text
str_or_empty content key = elim (str_at content key) [ none ↦ codes "" | some s ↦ s ]

-- The provider, id and url that identify an embed.
pub record VideoIdentity : Type 0 where
  pub provider : Text
  pub id : Text
  pub url : Text

unfoldable pub video_identity : Json → VideoIdentity
video_identity content = record {
  provider = str_or_empty content (codes "provider");
  id = str_or_empty content (codes "id");
  url = str_or_empty content (codes "url");
}

-- Equality of the triples.
unfoldable pub identity_eq : VideoIdentity → VideoIdentity → Bool
identity_eq a b = text_eq a.provider b.provider && (text_eq a.id b.id && text_eq a.url b.url)

-- The address that the player loads, for a provider, an id and an address.
abbrev pub embed_url : Text → Text → Text → Text
embed_url provider id url =
    if text_eq provider (codes "youtube") && not (is_empty id)
    then codes "https://www.youtube-nocookie.com/embed/" ++ id
    else if text_eq provider (codes "rumble") && not (is_empty id)
    then codes "https://rumble.com/embed/" ++ id
    else url

unfoldable pub video_embed_url : Json → Text
video_embed_url content =
    embed_url (str_or_empty content (codes "provider")) (str_or_empty content (codes "id"))
      (str_or_empty content (codes "url"))

unfoldable pub video_thumbnail : Json → Text
video_thumbnail content =
    let provider : Text = str_or_empty content (codes "provider") in
    let id : Text = str_or_empty content (codes "id") in
    if text_eq provider (codes "youtube") && not (is_empty id)
    then codes "https://i.ytimg.com/vi/" ++ id ++ codes "/hqdefault.jpg"
    else str_or_empty content (codes "thumbnail")

unfoldable pub video_needs_metadata : Json → Bool
unfolding video_thumbnail
video_needs_metadata content = is_empty (video_thumbnail content)

pub identity_eq→eq : (a b : VideoIdentity) → identity_eq a b ≡ true → a ≡ b
unfolding identity_eq
identity_eq→eq a b h =
    let p = &&_true (text_eq a.provider b.provider) (text_eq a.id b.id && text_eq a.url b.url) h in
    let q = &&_true (text_eq a.id b.id) (text_eq a.url b.url) p.1 in
    cc (text_eq→eq a.provider b.provider p.0, text_eq→eq a.id b.id q.0, text_eq→eq a.url b.url q.1)

pub identity_eq_refl : (a : VideoIdentity) → identity_eq a a ≡ true
unfolding identity_eq
identity_eq_refl a = rw (text_eq_refl a.provider, text_eq_refl a.id) (text_eq_refl a.url)
