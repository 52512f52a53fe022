-- ===== src/Content/Diff.antt =====
-- crates/content/src/diff.rs: the longest common subsequence of block kinds, and the merge of a
-- freshly parsed block list into the previous blocks.
pub mod Lcs
mod Tests
use forgepost.Prelude.{
  ℕ, ℤ, pos, suc, ◌+◌, ◌≡◌, Bool, true, false, Option, none, some, List, [], ◌∷◌, ◌++◌, map, max,
  leb, ltb, ◌==◌, not, if◌then◌else◌, find, length, get_elem?, get_or, tail, replicate,
}
use forgepost.Json.{Json, json_eq}
use forgepost.Content.{BlockKind, ParsedBlock, BlockVersion, Block, Uuid, video, kind_eq}
use forgepost.Content.Video.{video_identity, identity_eq}

-- One row of the table, from its right end: `below` is row i + 1.
fill_row : BlockKind → List BlockKind → List ℕ → List ℕ
fill_row p [] below = 0 ∷ []
fill_row p (k ∷ ks) below =
    let row = fill_row p ks (tail below) in
    (if kind_eq p k then get_or below 1 0 + 1 else max (get_or below 0 0) (get_or row 0 0)) ∷ row

-- The table, from its last row of zeros.
fill_table : List BlockKind → List BlockKind → List (List ℕ)
fill_table [] new = replicate (length new + 1) 0 ∷ []
fill_table (p ∷ ps) new =
    let table = fill_table ps new in fill_row p new (get_or table 0 []) ∷ table

abbrev cell : List (List ℕ) → ℕ → ℕ → ℕ
cell table i j = get_or (get_or table i []) j 0

-- The walk along the table: the lists are what is left from the indices i and j on.
walk : List (List ℕ) → List BlockKind → List BlockKind → (i j : ℕ) → List (ℕ × ℕ)
walk table [] new i j = []
walk table (p ∷ ps) [] i j = []
walk table (p ∷ ps) (k ∷ ks) i j = elim (kind_eq p k) [
  | true ↦ (i, j) ∷ walk table ps ks (suc i) (suc j)
  | false ↦ elim (leb (cell table i (suc j)) (cell table (suc i) j)) [
    | true ↦ walk table ps (k ∷ ks) (suc i) j
    | false ↦ walk table (p ∷ ps) ks i (suc j)
  ]
]

unfoldable pub lcs_matches : List BlockKind → List BlockKind → List (ℕ × ℕ)
unfolding fill_row fill_table walk
lcs_matches prev new = walk (fill_table prev new) prev new 0 0
