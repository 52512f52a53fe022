-- ===== src/Content/Merge.antt =====
-- crates/content/src/diff.rs: `merge_blocks`. Ids are drawn from a generator of which the n-th draw
-- is `new_v4 n` (Uuid::new_v4, of the uuid crate); `none` stands for a panic.
pub mod Shape
pub mod Contents
pub mod Identity
pub mod Kept
mod Tests
use forgepost.Prelude.{
  ℕ, ℤ, pos, zero, suc, ◌+◌, ◌≡◌, Bool, true, false, Option, none, some, List, [], ◌∷◌, ◌++◌, map,
  ◌==◌, not, if◌then◌else◌, find, get_elem?,
}
use forgepost.Json.{Json, json_eq}
use forgepost.Content.{BlockKind, ParsedBlock, BlockVersion, Block, Uuid, video, kind_eq}
use forgepost.Content.Video.{video_identity, identity_eq}
use forgepost.Content.Diff.{lcs_matches}

pub record MergeResult : Type 0 where
  pub blocks : List Block
  pub versions : List BlockVersion

-- The content of a version in a list of versions: the first with the id.
unfoldable pub content_of : List BlockVersion → Uuid → Option Json
content_of versions id = elim (find (λ v. v.id == id) versions) [
  | none ↦ none
  | some v ↦ some v.content
]

-- Whether a content is news to a block: a video's identity decides, any other block's whole content.
unfoldable pub content_changed : BlockKind → Option Json → Json → Bool
content_changed kind none content = true
content_changed kind (some old) content =
    if kind_eq kind video
    then not (identity_eq (video_identity old) (video_identity content))
    else not (json_eq old content)

-- `match_for`: the previous index that is matched with a new index.
pub match_for : List (ℕ × ℕ) → ℕ → Option ℕ
match_for [] n = none
match_for ((p, m) ∷ ms) n = if m == n then some p else match_for ms n

-- The previous block at the matched index; the outer `none` is an index out of range.
pub previous_at : List Block → Option ℕ → Option (Option Block)
previous_at previous none = some none
previous_at previous (some i) = elim (get_elem? previous i) [ none ↦ none | some b ↦ some (some b) ]

-- The positions in document order.
pub set_positions : ℕ → List Block → List Block
set_positions i [] = []
set_positions i (b ∷ bs) = record b { position = pos i } ∷ set_positions (suc i) bs

module _ (new_v4 : ℕ → Uuid) (now_ms : ℤ) where
  -- A matched block: its id stays, and a changed content makes a version.
  pub keep_block : List BlockVersion → Block → ParsedBlock → ℕ → Block × List BlockVersion × ℕ
  keep_block versions prev parsed n =
      if content_changed parsed.kind (content_of versions prev.version_id) parsed.content
      then (
        record {
          id = prev.id;
          kind = parsed.kind;
          version_id = new_v4 n;
          position = pos 0;
          created_at_ms = prev.created_at_ms;
          updated_at_ms = now_ms;
        },
        record {
          id = new_v4 n;
          block_id = prev.id;
          content = parsed.content;
          created_at_ms = now_ms;
        }
            ∷ [],
        suc n,
      )
      else (
        record {
          id = prev.id;
          kind = prev.kind;
          version_id = prev.version_id;
          position = pos 0;
          created_at_ms = prev.created_at_ms;
          updated_at_ms = prev.updated_at_ms;
        },
        [],
        n,
      )

  -- An unmatched block: a new id and a first version.
  pub new_block : ParsedBlock → ℕ → Block × List BlockVersion × ℕ
  new_block parsed n = (
    record {
      id = new_v4 n;
      kind = parsed.kind;
      version_id = new_v4 (suc n);
      position = pos 0;
      created_at_ms = now_ms;
      updated_at_ms = now_ms;
    },
    record {
      id = new_v4 (suc n);
      block_id = new_v4 n;
      content = parsed.content;
      created_at_ms = now_ms;
    }
        ∷ [],
    suc (suc n),
  )

  pub merge_one : List BlockVersion → Option Block → ParsedBlock → ℕ → Block × List BlockVersion × ℕ
  unfolding keep_block new_block
  merge_one versions none parsed n = new_block parsed n
  merge_one versions (some prev) parsed n = keep_block versions prev parsed n

  -- The loop over the parsed blocks, from a position and a count of draws on.
  pub merge_loop :
      List Block
      → List BlockVersion
      → List (ℕ × ℕ)
      → ℕ
      → List ParsedBlock
      → ℕ
      → Option (List Block × List BlockVersion)
  merge_loop previous versions matches position [] n = some ([], [])
  merge_loop previous versions matches position (parsed ∷ rest) n =
      elim (previous_at previous (match_for matches position)) [
        | none ↦ none
        | some slot ↦
            let (b, vs, n') = merge_one versions slot parsed n in
            elim (merge_loop previous versions matches (suc position) rest n') [
              | none ↦ none
              | some (bs, ws) ↦ some (b ∷ bs, vs ++ ws)
            ]
      ]

  pub merge_blocks : List Block → List BlockVersion → List ParsedBlock → Option MergeResult
  unfolding merge_loop merge_one match_for previous_at set_positions
  merge_blocks previous versions parsed =
      let matches =
        lcs_matches (map (λ (b : Block). b.kind) previous)
          (map (λ (b : ParsedBlock). b.kind) parsed) in
      elim (merge_loop previous versions matches 0 parsed 0) [
        | none ↦ none
        | some (bs, ws) ↦ some (record { blocks = set_positions 0 bs; versions = ws })
      ]
