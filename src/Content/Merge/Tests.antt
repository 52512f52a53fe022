-- ===== src/Content/Merge/Tests.antt =====
-- The merge of crates/content/src/diff.rs on a small document: a paragraph is edited, and another
-- one is written behind it.
use forgepost.Prelude.{
  ℕ, pos, ◌+◌, ◌≡◌, refl, ap, inl, inr, some, [], ◌∷◌, arith, get_elem?, In, Each₂,
}
use forgepost.Text.{codes}
use forgepost.Json.{string, json_eq}
use forgepost.Content.{paragraph, ParsedBlock, BlockVersion, Block, Uuid, kind_eq}
use forgepost.Content.Diff.{lcs_matches}
use forgepost.Content.Merge.{MergeResult, merge_blocks, content_of, content_changed}
use forgepost.Content.Merge.Shape.{merge_blocks_total, kinds, parsed_kinds, positions}
use forgepost.Content.Merge.Contents.{IsFresh, Shows, merge_blocks_contents}
use forgepost.Content.Merge.Identity.{merge_blocks_idem}
use forgepost.Content.Merge.Kept.{merge_blocks_keeps, merge_blocks_mints}

abbrev draw : ℕ → Uuid
draw n = 100 + n

abbrev old_version : BlockVersion
old_version = record { id = 1; block_id = 7; content = string (codes "a"); created_at_ms = pos 5 }

abbrev old_block : Block
old_block = record {
  id = 7;
  kind = paragraph;
  version_id = 1;
  position = pos 0;
  created_at_ms = pos 5;
  updated_at_ms = pos 5;
}

abbrev same : ParsedBlock
same = record { kind = paragraph; content = string (codes "a") }

abbrev edited : ParsedBlock
edited = record { kind = paragraph; content = string (codes "b") }

abbrev written : ParsedBlock
written = record { kind = paragraph; content = string (codes "c") }

abbrev kept_block : Block
kept_block = record {
  id = 7;
  kind = paragraph;
  version_id = 100;
  position = pos 0;
  created_at_ms = pos 5;
  updated_at_ms = pos 9;
}

abbrev made_block : Block
made_block = record {
  id = 101;
  kind = paragraph;
  version_id = 102;
  position = pos 1;
  created_at_ms = pos 9;
  updated_at_ms = pos 9;
}

abbrev merged : MergeResult
merged = record {
  blocks = kept_block ∷ made_block ∷ [];
  versions =
      record { id = 100; block_id = 7; content = string (codes "b"); created_at_ms = pos 9 }
      ∷ record { id = 102; block_id = 101; content = string (codes "c"); created_at_ms = pos 9 }
      ∷ [];
}

merge_blocks_run :
    merge_blocks draw (pos 9) (old_block ∷ []) (old_version ∷ []) (edited ∷ written ∷ [])
    ≡ some merged
unfolding merge_blocks lcs_matches kind_eq content_changed content_of json_eq
merge_blocks_run = refl

draw-IsFresh : IsFresh draw (old_version ∷ [])
unfolding content_of
draw-IsFresh = record { distinct = λ m n h. omega (arith, h); unused = λ n. ground arith }

merge_blocks_total_example :
    (r : MergeResult) × (merge_blocks draw
        (pos 9)
        (old_block ∷ [])
        (old_version ∷ [])
        (edited ∷ written ∷ [])
      ≡ some r)
    × (kinds r.blocks ≡ paragraph ∷ paragraph ∷ [])
    × (positions r.blocks ≡ pos 0 ∷ pos 1 ∷ [])
merge_blocks_total_example =
    merge_blocks_total draw (pos 9) (old_block ∷ []) (old_version ∷ []) (edited ∷ written ∷ [])

merge_blocks_contents_example :
    (r : MergeResult) × (merge_blocks draw
        (pos 9)
        (old_block ∷ [])
        (old_version ∷ [])
        (edited ∷ written ∷ [])
      ≡ some r)
    × Each₂ (Shows (old_version ∷ r.versions)) r.blocks (edited ∷ written ∷ [])
merge_blocks_contents_example =
    merge_blocks_contents draw (pos 9) (old_block ∷ []) (old_version ∷ []) (edited ∷ written ∷ [])
      draw-IsFresh

merge_blocks_idem_example :
    merge_blocks draw (pos 20) merged.blocks (old_version ∷ merged.versions) (edited ∷ written ∷ [])
    ≡ some (record { blocks = merged.blocks; versions = [] })
merge_blocks_idem_example =
    merge_blocks_idem draw (pos 9) (old_block ∷ []) (old_version ∷ []) (edited ∷ written ∷ [])
      merged draw (pos 20) draw-IsFresh merge_blocks_run

matched : lcs_matches (kinds (old_block ∷ [])) (parsed_kinds (edited ∷ written ∷ [])) ≡ (0, 0) ∷ []
unfolding lcs_matches kind_eq
matched = refl

merge_blocks_keeps_example :
    (p : Block) × (get_elem? (old_block ∷ []) 0 ≡ some p)
    × (kept_block.id ≡ p.id)
    × (kept_block.created_at_ms ≡ p.created_at_ms)
merge_blocks_keeps_example =
    merge_blocks_keeps draw (pos 9) (old_block ∷ []) (old_version ∷ []) (edited ∷ written ∷ [])
      merged 0 0 kept_block merge_blocks_run (rw matched (inl refl)) refl

unmatched :
    (i : ℕ)
    → ¬ In (i, 1) (lcs_matches (kinds (old_block ∷ [])) (parsed_kinds (edited ∷ written ∷ [])))
unmatched i h = elim (rw matched at h) [
  | inl e ↦ let off : ◌≡◌ {A = ℕ} 1 0 = ap (λ (p : ℕ × ℕ). p.1) e in omega (arith, off)
  | inr m ↦ m
]

merge_blocks_mints_example : (m : ℕ) × (made_block.id ≡ draw m) × (made_block.created_at_ms ≡ pos 9)
merge_blocks_mints_example =
    merge_blocks_mints draw (pos 9) (old_block ∷ []) (old_version ∷ []) (edited ∷ written ∷ [])
      merged 1 made_block merge_blocks_run unmatched refl
