-- ===== src/Content/Markdown/Parse/Videos.antt =====
-- The videos that a line or a raw tag stands for.
use forgepost.Prelude.{
  ◌≤◌, ◌≡◌, refl, ap, ◌∙◌, Bool, true, false, not, ◌&&◌, ◌||◌, Option, none, some, List, [], ◌∷◌,
  if◌then◌else◌, Bool-cases, inl, inr, All, all,
}
use forgepost.Text.{Text, codes, starts_with, strip_prefix, is_empty, text_eq}
use forgepost.Text.Ops.{
  trim, split_once, to_ascii_lowercase, skip_char_end, ends_with, is_ascii_alphanumeric,
}
use forgepost.Json.{Json, object, end, string, set, str_at, str_at-set}
use forgepost.Content.{
  ParsedBlock, BlockKind, paragraph, heading, image, quote, code, call_to_action, divider, list,
  video,
}
use forgepost.Content.Video.{embed_url, video_embed_url, str_or_empty}
use forgepost.Content.Markdown.Html.Iframe.{iframe_of, first_src, iframe_content, set_attrs}
use forgepost.Content.Markdown.VideoUrl.{
  parse_video_line, video_block, video_from_url, video_from_rest, video_at, accept, valid_video_id,
  is_alphanumeric_id, youtube_id, rumble_id,
}

abbrev pub is_web : Text → Bool
is_web url = starts_with (codes "https://") url || starts_with (codes "http://") url

-- What a block has to be, by its kind.
abbrev pub IsTyped : BlockKind → Json → Type 0
IsTyped (heading level) content = (1 ≤ level) × (level ≤ 6)
IsTyped video content = is_web (video_embed_url content) ≡ true
IsTyped paragraph content = Unit
IsTyped image content = Unit
IsTyped quote content = Unit
IsTyped code content = Unit
IsTyped call_to_action content = Unit
IsTyped divider content = Unit
IsTyped (list ordered) content = Unit

abbrev pub AllTyped : List ParsedBlock → Type 0
AllTyped blocks = All (λ b. IsTyped b.kind b.content) blocks

-- A provider and an id whose video plays from the web, if there are any.
abbrev Plays : Option (Text × Text) → Type 0
Plays none = Unit
Plays (some (provider, id)) =
    (url : Text) → is_web (video_embed_url (video_block provider id url).content) ≡ true

solid_id : (id : Text) (b : Bool) → (not (is_empty id) && b) ≡ true → is_empty id ≡ false
solid_id [] b h = cc
solid_id (c ∷ id) b h = refl

valid_solid : (id : Text) → valid_video_id id ≡ true → is_empty id ≡ false
unfolding valid_video_id
valid_solid [] h = cc
valid_solid (c ∷ id) h = refl

accept_youtube-Plays :
    (o : Option Text) → Plays (accept (codes "youtube") (λ id. valid_video_id id) o)
unfolding video_block video_embed_url valid_video_id
accept_youtube-Plays none = tt
accept_youtube-Plays (some id) = elim (Bool-cases (valid_video_id id)) [
  | inr wrong ↦ rw wrong tt
  | inl right ↦ rw right (λ url. rw (valid_solid id right) refl)
]

accept_rumble-Plays :
    (o : Option Text) → Plays (accept (codes "rumble") (λ id. is_alphanumeric_id id) o)
unfolding video_block video_embed_url
accept_rumble-Plays none = tt
accept_rumble-Plays (some id) = elim (Bool-cases (is_alphanumeric_id id)) [
  | inr wrong ↦ rw wrong tt
  | inl right ↦ rw right (λ url. rw (solid_id id (all is_ascii_alphanumeric id) right) refl)
]

video_at-Plays : (host path : Text) → Plays (video_at host path)
unfolding video_at
video_at-Plays host path =
    site
      (text_eq host (codes "youtu.be")
        || text_eq host (codes "youtube.com")
        || ends_with (codes ".youtube.com") host)
      (text_eq host (codes "rumble.com") || ends_with (codes ".rumble.com") host)
  where
    site :
        (b r : Bool)
        → Plays (
            if b
            then accept (codes "youtube") (λ id. valid_video_id id) (youtube_id host path)
            else if r
            then accept (codes "rumble") (λ id. is_alphanumeric_id id) (rumble_id path)
            else none)
    site true r = accept_youtube-Plays (youtube_id host path)
    site false true = accept_rumble-Plays (rumble_id path)
    site false false = tt

-- A property of a chain that may end in no video.
chain :
    {A : Type 0} (o : Option A) (f : A → Option (Text × Text)) (d : Option (Text × Text))
    → Plays d
    → ((a : A) → Plays (f a))
    → Plays (elim o [ none ↦ d | some a ↦ f a ])
chain none f d h k = h
chain (some a) f d h k = k a

video_from_rest-Plays : (rest : Text) → Plays (video_from_rest rest)
unfolding video_from_rest
video_from_rest-Plays rest =
    chain (split_once (codes "/") rest)
      (λ p. video_at (to_ascii_lowercase p.0) (skip_char_end 47 p.1)) _
      (video_at-Plays (to_ascii_lowercase rest) [])
      (λ p. video_at-Plays (to_ascii_lowercase p.0) (skip_char_end 47 p.1))

video_from_url-Plays : (url : Text) → Plays (video_from_url url)
unfolding video_from_url
video_from_url-Plays url =
    chain (strip_prefix (codes "https://") url) (λ rest. video_from_rest rest) _
      (chain (strip_prefix (codes "http://") url) (λ rest. video_from_rest rest) none tt
        (λ rest. video_from_rest-Plays rest))
      (λ rest. video_from_rest-Plays rest)

-- A block that is typed, if there is one.
abbrev pub MayBeTyped : Option ParsedBlock → Type 0
MayBeTyped none = Unit
MayBeTyped (some block) = IsTyped block.kind block.content

pub parse_video_line-MayBeTyped : (line : Text) → MayBeTyped (parse_video_line line)
unfolding parse_video_line
parse_video_line-MayBeTyped line =
    found (video_from_url (trim line)) (video_from_url-Plays (trim line))
  where
    found :
        (o : Option (Text × Text))
        → Plays o
        → MayBeTyped (elim o as (λ _. Option ParsedBlock) [
          | none ↦ none
          | some (provider, id) ↦ some (video_block provider id (trim line))
        ])
    found none h = tt
    found (some (provider, id)) h = h (trim line)

set_attrs-str_at :
    (attrs : List (Text × Text)) (content : Json) (q : Text)
    → text_eq (codes "title") q ≡ false
    → text_eq (codes "width") q ≡ false
    → text_eq (codes "height") q ≡ false
    → str_at (set_attrs attrs content) q ≡ str_at content q
unfolding set_attrs
set_attrs-str_at [] content q t w h = refl
set_attrs-str_at ((name, value) ∷ more) content q t w h =
    set_attrs-str_at more _ q t w h
    ∙ one (text_eq name (codes "title")) (text_eq name (codes "width"))
        (text_eq name (codes "height"))
  where
    one :
        (a b c : Bool)
        → str_at
            (if a
              then set content (codes "title") (string value)
              else if b
              then set content (codes "width") (string value)
              else if c
              then set content (codes "height") (string value)
              else content)
            q
          ≡ str_at content q
    one true b c = str_at-set content q (codes "title") (string value) t
    one false true c = str_at-set content q (codes "width") (string value) w
    one false false true = str_at-set content q (codes "height") (string value) h
    one false false false = refl

-- The player of a video of another provider loads its own address.
embed_other :
    (content : Json) (src : Text)
    → str_at content (codes "provider") ≡ some (codes "iframe")
    → str_at content (codes "url") ≡ some src
    → video_embed_url content ≡ src
unfolding video_embed_url
embed_other content src p u =
    let text_or : Option Text → Text = λ o. elim o [ none ↦ [] | some s ↦ s ] in
    let id = str_or_empty content (codes "id") in
    let url = str_or_empty content (codes "url") in
    ap (λ o. embed_url (text_or o) id url) p ∙ ap (λ o. embed_url (codes "iframe") id (text_or o)) u

iframe_url :
    (src : Text) (attrs : List (Text × Text)) → video_embed_url (iframe_content src attrs) ≡ src
unfolding iframe_content
iframe_url src attrs =
    let base : Json =
      set (set (object end) (codes "provider") (string (codes "iframe"))) (codes "url")
        (string src) in
    embed_other (set_attrs attrs base) src
      (set_attrs-str_at attrs base (codes "provider") refl refl refl)
      (set_attrs-str_at attrs base (codes "url") refl refl refl)

pub iframe_of-MayBeTyped : (attrs : List (Text × Text)) → MayBeTyped (iframe_of attrs)
unfolding iframe_of
iframe_of-MayBeTyped attrs = sourced (first_src attrs)
  where
    sourced :
        (o : Option Text)
        → MayBeTyped (elim o as (λ _. Option ParsedBlock) [
          | none ↦ none
          | some src ↦
              if starts_with (codes "https://") src || starts_with (codes "http://") src
              then some record { kind = video; content = iframe_content src attrs }
              else none
        ])
    sourced none = tt
    sourced (some src) =
        elim (Bool-cases
          (starts_with (codes "https://") src || starts_with (codes "http://") src)) [
            | inr other ↦ rw other tt
            | inl web ↦ rw web (ap is_web (iframe_url src attrs) ∙ web)
          ]
