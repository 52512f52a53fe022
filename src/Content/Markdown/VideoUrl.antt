-- ===== src/Content/Markdown/VideoUrl.antt =====
-- crates/content/src/markdown.rs: the addresses of YouTube and Rumble videos.
use forgepost.Prelude.{
  Bool, not, ◌&&◌, ◌||◌, Option, none, some, List, [], ◌∷◌, ◌==◌, leb, all, if◌then◌else◌,
}
use forgepost.Text.{Text, codes, text_eq, is_empty, strip_prefix}
use forgepost.Text.Ops.{
  trim, split_once, split_char, before, ends_with, skip_char_end, to_ascii_lowercase,
  is_ascii_alphanumeric,
}
use forgepost.Json.{object, end, string, set}
use forgepost.Content.{ParsedBlock, video}
use forgepost.Content.Markdown.Lines.{starts_with_digit}
use forgepost.Content.Markdown.Image.{byte_len}

-- The value of the first parameter with the key that has one.
unfoldable pub find_param : Text → List Text → Option Text
unfolding split_once
find_param key [] = none
find_param key (pair ∷ pairs) =
    let rest = find_param key pairs in
    elim (split_once (codes "=") pair) [
      | none ↦ rest
      | some (k, v) ↦ if text_eq k key && not (is_empty v) then some v else rest
    ]

unfoldable pub extract_query_param : Text → Text → Option Text
unfolding find_param split_char
extract_query_param query key = find_param key (split_char 38 query)

unfoldable pub valid_video_id : Text → Bool
unfolding byte_len
valid_video_id id =
    not (is_empty id)
    && leb (byte_len id) 32
    && all (λ c. is_ascii_alphanumeric c || (c == 45) || (c == 95)) id

-- The id in the path of an embed: up to the next slash.
unfoldable pub id_behind : List Text → Text → Option Text
unfolding before
id_behind [] path = none
id_behind (prefix ∷ prefixes) path = elim (strip_prefix prefix path) [
  | none ↦ id_behind prefixes path
  | some rest ↦ some (before (codes "/") rest)
]

unfoldable pub youtube_id : Text → Text → Option Text
unfolding extract_query_param id_behind before split_once
youtube_id host path =
    if text_eq host (codes "youtu.be")
    then some (before (codes "?") path)
    else elim (strip_prefix (codes "watch") path) [
      | some rest ↦
          extract_query_param (elim (split_once (codes "?") rest) [ none ↦ [] | some q ↦ q.1 ])
            (codes "v")
      | none ↦ id_behind (codes "shorts/" ∷ codes "embed/" ∷ codes "v/" ∷ codes "live/" ∷ []) path
    ]

unfoldable pub rumble_id : Text → Option Text
unfolding before starts_with_digit id_behind
rumble_id path = elim (strip_prefix (codes "v") path) [
  | some rest ↦ if starts_with_digit rest then some (before (codes "-") rest) else none
  | none ↦ id_behind (codes "embed/" ∷ []) path
]

-- A provider with an id that passes the test.
abbrev pub accept : Text → (Text → Bool) → Option Text → Option (Text × Text)
accept provider valid none = none
accept provider valid (some id) = if valid id then some (provider, id) else none

abbrev pub is_alphanumeric_id : Text → Bool
is_alphanumeric_id id = not (is_empty id) && all is_ascii_alphanumeric id

unfoldable pub video_at : Text → Text → Option (Text × Text)
unfolding youtube_id rumble_id valid_video_id ends_with
video_at host path =
    if text_eq host (codes "youtu.be")
      || text_eq host (codes "youtube.com")
      || ends_with (codes ".youtube.com") host
    then accept (codes "youtube") (λ id. valid_video_id id) (youtube_id host path)
    else if text_eq host (codes "rumble.com") || ends_with (codes ".rumble.com") host
    then accept (codes "rumble") (λ id. is_alphanumeric_id id) (rumble_id path)
    else none

-- The provider and the id, by the host and the path behind it.
unfoldable pub video_from_rest : Text → Option (Text × Text)
unfolding split_once to_ascii_lowercase skip_char_end video_at
video_from_rest rest = elim (split_once (codes "/") rest) [
  | some (h, p) ↦ video_at (to_ascii_lowercase h) (skip_char_end 47 p)
  | none ↦ video_at (to_ascii_lowercase rest) []
]

unfoldable pub video_from_url : Text → Option (Text × Text)
unfolding video_from_rest
video_from_url url = elim (strip_prefix (codes "https://") url) [
  | some rest ↦ video_from_rest rest
  | none ↦ elim (strip_prefix (codes "http://") url) [
    | some rest ↦ video_from_rest rest
    | none ↦ none
  ]
]

unfoldable pub video_block : Text → Text → Text → ParsedBlock
video_block provider id url = record {
  kind = video;
  content =
      set (set (set (object end) (codes "provider") (string provider)) (codes "id") (string id))
        (codes "url") (string url);
}

unfoldable pub parse_video_line : Text → Option ParsedBlock
unfolding video_from_url video_block trim
parse_video_line line = elim (video_from_url (trim line)) [
  | none ↦ none
  | some (provider, id) ↦ some (video_block provider id (trim line))
]
