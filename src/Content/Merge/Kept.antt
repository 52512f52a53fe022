-- ===== src/Content/Merge/Kept.antt =====
-- Which ids a merge hands to its blocks.
use forgepost.Prelude.{
  ℕ, ℤ, pos, zero, suc, ◌+◌, ◌≡◌, refl, sym, subst, ◌∙◌, inl, inr, Option, none, some, some-inj,
  List, [], ◌∷◌, arith, ◌==◌, Bool-cases, get_elem?, In,
}
use forgepost.Content.{ParsedBlock, BlockVersion, Block, Uuid}
use forgepost.Content.Diff.{lcs_matches}
use forgepost.Content.Diff.Lcs.{lcs_matches_sound}
use forgepost.Content.Merge.{
  MergeResult, match_for, previous_at, set_positions, merge_one, keep_block, new_block,
  merge_blocks,
}
use forgepost.Content.Merge.Shape.{kinds, parsed_kinds, matches_of, merge_blocks_induction}
use forgepost.Content.Merge.Identity.{match_for-In}

-- Where the id of the block at a new index comes from: the matched previous block, whose time of
-- creation stays too, or the generator.
abbrev pub Origin : (ℕ → Uuid) → ℤ → List Block → Option ℕ → Block → Type 0
Origin new_v4 now_ms previous none b = (m : ℕ) × (b.id ≡ new_v4 m) × (b.created_at_ms ≡ now_ms)
Origin new_v4 now_ms previous (some i) b =
    (p : Block) × (get_elem? previous i ≡ some p)
    × (b.id ≡ p.id)
    × (b.created_at_ms ≡ p.created_at_ms)

match_for-none : (ms : List (ℕ × ℕ)) (j : ℕ) → ((i : ℕ) → ¬ In (i, j) ms) → match_for ms j ≡ none
unfolding match_for
match_for-none [] j h = refl
match_for-none ((p, m) ∷ ms) j h = elim (Bool-cases (m == j)) [
  | inl hit ↦ absurd (h p (inl (ground arith)))
  | inr miss ↦ rw (miss, match_for) (match_for-none ms j (λ i g. h i (inr g)))
]

module _ (new_v4 : ℕ → Uuid) (now_ms : ℤ) (previous : List Block)
    (versions : List BlockVersion) where
  slot-Origin :
      (o : Option ℕ) (slot : Option Block) (parsed : ParsedBlock) (n : ℕ)
      → previous_at previous o ≡ some slot
      → Origin new_v4 now_ms previous o (merge_one new_v4 now_ms versions slot parsed n).0
  unfolding previous_at merge_one keep_block new_block
  slot-Origin none none parsed n e = (n, refl, refl)
  slot-Origin none (some b) parsed n e = cc
  slot-Origin (some i) none parsed n e = ground arith
  slot-Origin (some i) (some b) parsed n e = (b, ground arith, ground arith, ground arith)

  abbrev Origins : List (ℕ × ℕ) → ℕ → List Block → Type 0
  Origins matches position bs =
      (k : ℕ) (b : Block)
      → get_elem? bs k ≡ some b
      → Origin new_v4 now_ms previous (match_for matches (position + k)) b

  Origins-cons :
      (matches : List (ℕ × ℕ)) (position : ℕ) (b : Block) (bs : List Block)
      → Origin new_v4 now_ms previous (match_for matches position) b
      → Origins matches (suc position) bs
      → Origins matches position (b ∷ bs)
  Origins-cons matches position b bs o os zero c h =
      let same : b ≡ c = some-inj h in
      let at : position + 0 ≡ position = omega arith in rw (at, ← same) o
  Origins-cons matches position b bs o os (suc k) c h =
      let at : position + suc k ≡ suc position + k = omega arith in rw at (os k c h)

  Origins-set_positions :
      (matches : List (ℕ × ℕ)) (i position : ℕ) (bs : List Block)
      → Origins matches position bs
      → Origins matches position (set_positions i bs)
  unfolding set_positions
  Origins-set_positions matches i position [] os k c h = os k c h
  Origins-set_positions matches i position (b ∷ bs) os zero c h =
      rw (← (some-inj h)) (moved (match_for matches (position + 0)) (os zero b refl))
    where
      moved :
          (o : Option ℕ)
          → Origin new_v4 now_ms previous o b
          → Origin new_v4 now_ms previous o (record b { position = pos i })
      moved none h = h
      moved (some j) h = h
  Origins-set_positions matches i position (b ∷ bs) os (suc k) c h =
      let at : position + suc k ≡ suc position + k = omega arith in
      rw at (
        Origins-set_positions matches (suc i) (suc position) bs
          (λ m d e.
            let at : suc position + m ≡ position + suc m = omega arith in rw at (os (suc m) d e))
          k c h)

  merge-Origins :
      (parsed : List ParsedBlock) (r : MergeResult)
      → merge_blocks new_v4 now_ms previous versions parsed ≡ some r
      → Origins (matches_of previous parsed) 0 r.blocks
  merge-Origins parsed r e =
      let (bs, ws, e', os) =
        merge_blocks_induction new_v4 now_ms previous versions
          (λ position _ _ bs _. Origins (matches_of previous parsed) position bs) parsed
          (λ _ _ k b h. cc)
          (λ position pb rest n slot bs ws at _ ih.
            Origins-cons (matches_of previous parsed) position _ bs
              (slot-Origin (match_for (matches_of previous parsed) position) slot pb n at) ih) in
      let same : record { blocks = set_positions 0 bs; versions = ws } ≡ r =
        some-inj (sym e' ∙ e) in
      subst (λ (x : MergeResult). Origins (matches_of previous parsed) 0 x.blocks) same
        (Origins-set_positions (matches_of previous parsed) 0 0 bs os)

-- A previous block that is matched keeps its id and its time of creation at its new place.
pub merge_blocks_keeps :
    (new_v4 : ℕ → Uuid) (now_ms : ℤ) (previous : List Block) (versions : List BlockVersion)
    (parsed : List ParsedBlock) (r : MergeResult) (i j : ℕ) (b : Block)
    → merge_blocks new_v4 now_ms previous versions parsed ≡ some r
    → In (i, j) (lcs_matches (kinds previous) (parsed_kinds parsed))
    → get_elem? r.blocks j ≡ some b
    → (p : Block) × (get_elem? previous i ≡ some p)
      × (b.id ≡ p.id)
      × (b.created_at_ms ≡ p.created_at_ms)
merge_blocks_keeps new_v4 now_ms previous versions parsed r i j b e matched at =
    let ms = matches_of previous parsed in
    let sound = lcs_matches_sound (kinds previous) (parsed_kinds parsed) in
    let found : match_for ms j ≡ some i = (match_for-In ms 0 0 i j sound.0 matched).1 in
    let here : 0 + j ≡ j = omega arith in
    subst (λ o. Origin new_v4 now_ms previous o b) found
      (rw here at (merge-Origins new_v4 now_ms previous versions parsed r e j b at))

-- A block of the result that no pair matches has an id from the generator and is new as of now.
pub merge_blocks_mints :
    (new_v4 : ℕ → Uuid) (now_ms : ℤ) (previous : List Block) (versions : List BlockVersion)
    (parsed : List ParsedBlock) (r : MergeResult) (j : ℕ) (b : Block)
    → merge_blocks new_v4 now_ms previous versions parsed ≡ some r
    → ((i : ℕ) → ¬ In (i, j) (lcs_matches (kinds previous) (parsed_kinds parsed)))
    → get_elem? r.blocks j ≡ some b
    → (m : ℕ) × (b.id ≡ new_v4 m) × (b.created_at_ms ≡ now_ms)
merge_blocks_mints new_v4 now_ms previous versions parsed r j b e unmatched at =
    let ms = matches_of previous parsed in
    let here : 0 + j ≡ j = omega arith in
    subst (λ o. Origin new_v4 now_ms previous o b) (match_for-none ms j unmatched)
      (rw here at (merge-Origins new_v4 now_ms previous versions parsed r e j b at))
