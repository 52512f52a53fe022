-- ===== src/Content/Merge/Shape.antt =====
-- `merge_blocks` never panics, and yields the parsed kinds at contiguous positions. The loop's
-- properties go through one induction rule.
use forgepost.Prelude.{
  ℕ, ℤ, pos, zero, suc, ◌≡◌, refl, ap, ◌∙◌, true, Option, none, some, List, [], ◌∷◌, ◌++◌, map,
  arith, ◌==◌, Bool-cases, inl, inr, get_elem?, drop, tail, head_of_drop, All, length,
}
use forgepost.Content.{BlockKind, ParsedBlock, BlockVersion, Block, Uuid}
use forgepost.Content.Diff.{lcs_matches}
use forgepost.Content.Diff.Lcs.{Agrees, lcs_matches_sound}
use forgepost.Content.Merge.{
  MergeResult, match_for, previous_at, set_positions, merge_one, keep_block, new_block, merge_loop,
  merge_blocks,
}

abbrev pub kinds : List Block → List BlockKind
kinds = map (λ (b : Block). b.kind)

abbrev pub parsed_kinds : List ParsedBlock → List BlockKind
parsed_kinds = map (λ (b : ParsedBlock). b.kind)

-- The slot of a parsed block is empty, or holds a previous block of its kind.
abbrev pub Fits : BlockKind → Option Block → Type 0
Fits k none = Unit {0}
Fits k (some b) = b.kind ≡ k

get_elem?-kinds :
    (previous : List Block) (i : ℕ) (k : BlockKind)
    → get_elem? (kinds previous) i ≡ some k
    → (b : Block) × (get_elem? previous i ≡ some b) × (b.kind ≡ k)
get_elem?-kinds [] i k h = cc
get_elem?-kinds (b ∷ bs) zero k h = (b, refl, cc)
get_elem?-kinds (b ∷ bs) (suc i) k h = get_elem?-kinds bs i k h

-- A matched new index has a previous block in range, of the kind at the new index.
slot-Fits :
    (previous : List Block) (new : List BlockKind) (matches : List (ℕ × ℕ)) (j : ℕ) (k : BlockKind)
    → All (Agrees (kinds previous) new) matches
    → get_elem? new j ≡ some k
    → (slot : Option Block) × (previous_at previous (match_for matches j) ≡ some slot) × Fits k slot
unfolding match_for previous_at
slot-Fits previous new [] j k h g = (none, refl, tt)
slot-Fits previous new ((p, m) ∷ ms) j k ((k', hp, hm), h) g = elim (Bool-cases (m == j)) [
  | inl hit ↦ found hit (get_elem?-kinds previous p k' hp)
  | inr miss ↦ rw (miss, match_for) (slot-Fits previous new ms j k h g)
]
  where
    found :
        (m == j) ≡ true
        → (b : Block) × (get_elem? previous p ≡ some b) × (b.kind ≡ k')
        → (slot : Option Block) × (previous_at previous (match_for ((p, m) ∷ ms) j) ≡ some slot)
          × Fits k slot
    found hit (b, e, same) =
        let at : m ≡ j = ground arith in
        (some b, rw (hit, match_for, e, previous_at), cc (same, hm, g, at))

module _ (new_v4 : ℕ → Uuid) (now_ms : ℤ) (previous : List Block) (versions : List BlockVersion)
    (P : ℕ → List ParsedBlock → ℕ → List Block → List BlockVersion → Type 0) where
  -- What one turn of the loop must keep.
  abbrev pub Step : List (ℕ × ℕ) → Type 0
  Step matches =
      (position : ℕ) (parsed : ParsedBlock) (rest : List ParsedBlock) (n : ℕ) (slot : Option Block)
      (bs : List Block) (ws : List BlockVersion)
      → previous_at previous (match_for matches position) ≡ some slot
      → Fits parsed.kind slot
      → P (suc position) rest (merge_one new_v4 now_ms versions slot parsed n).2 bs ws
      → P position (parsed ∷ rest) n ((merge_one new_v4 now_ms versions slot parsed n).0 ∷ bs)
          ((merge_one new_v4 now_ms versions slot parsed n).1 ++ ws)

  pub merge_loop_induction :
      (matches : List (ℕ × ℕ)) (new : List BlockKind)
      → All (Agrees (kinds previous) new) matches
      → ((position n : ℕ) → P position [] n [] [])
      → Step matches
      → (position : ℕ) (parsed : List ParsedBlock) (n : ℕ) → drop position new ≡ parsed_kinds parsed
      → (bs : List Block) × (ws : List BlockVersion) × (merge_loop new_v4 now_ms previous versions
            matches position parsed n
          ≡ some (bs, ws))
        × P position parsed n bs ws
  unfolding merge_loop
  merge_loop_induction matches new ok base step position [] n h = ([], [], refl, base position n)
  merge_loop_induction matches new ok base step position (pb ∷ rest) n h =
      let (at, on) = head_of_drop new position pb.kind (parsed_kinds rest) h in
      let (slot, e, fits) = slot-Fits previous new matches position pb.kind ok at in
      let one = merge_one new_v4 now_ms versions slot pb n in
      let (bs, ws, more, p) =
        merge_loop_induction matches new ok base step (suc position) rest one.2 on in
      (
        one.0 ∷ bs,
        one.1 ++ ws,
        rw (e, merge_loop, more),
        step position pb rest n slot bs ws e fits p,
      )

-- The matching that the merge works by.
abbrev pub matches_of : List Block → List ParsedBlock → List (ℕ × ℕ)
matches_of previous parsed = lcs_matches (kinds previous) (parsed_kinds parsed)

pub merge_of_loop :
    (new_v4 : ℕ → Uuid) (now_ms : ℤ) (previous : List Block) (versions : List BlockVersion)
    (parsed : List ParsedBlock) (bs : List Block) (ws : List BlockVersion)
    → merge_loop new_v4 now_ms previous versions (matches_of previous parsed) 0 parsed 0
      ≡ some (bs, ws)
    → merge_blocks new_v4 now_ms previous versions parsed
      ≡ some (record { blocks = set_positions 0 bs; versions = ws })
unfolding merge_blocks
merge_of_loop new_v4 now_ms previous versions parsed bs ws e = rw (e, merge_blocks)

-- The rule for the whole merge.
pub merge_blocks_induction :
    (new_v4 : ℕ → Uuid) (now_ms : ℤ) (previous : List Block) (versions : List BlockVersion)
    (P : ℕ → List ParsedBlock → ℕ → List Block → List BlockVersion → Type 0)
    (parsed : List ParsedBlock)
    → ((position n : ℕ) → P position [] n [] [])
    → Step new_v4 now_ms previous versions P (matches_of previous parsed)
    → (bs : List Block) × (ws : List BlockVersion) × (merge_blocks new_v4 now_ms previous versions
          parsed
        ≡ some (record { blocks = set_positions 0 bs; versions = ws }))
      × P 0 parsed 0 bs ws
merge_blocks_induction new_v4 now_ms previous versions P parsed base step =
    let (bs, ws, e, p) =
      merge_loop_induction new_v4 now_ms previous versions P (matches_of previous parsed)
        (parsed_kinds parsed) (lcs_matches_sound (kinds previous) (parsed_kinds parsed)).1 base step
        0 parsed 0 refl in
    (bs, ws, merge_of_loop new_v4 now_ms previous versions parsed bs ws e, p)

-- The positions that the merge hands out.
abbrev pub positions_from : ℕ → ℕ → List ℤ
positions_from i zero = []
positions_from i (suc n) = pos i ∷ positions_from (suc i) n

kinds-set_positions : (i : ℕ) (bs : List Block) → kinds (set_positions i bs) ≡ kinds bs
unfolding set_positions
kinds-set_positions i [] = refl
kinds-set_positions i (b ∷ bs) = ap (λ l. b.kind ∷ l) (kinds-set_positions (suc i) bs)

abbrev pub positions : List Block → List ℤ
positions = map (λ (b : Block). b.position)

positions-set_positions :
    (i : ℕ) (bs : List Block) → positions (set_positions i bs) ≡ positions_from i (length bs)
unfolding set_positions
positions-set_positions i [] = refl
positions-set_positions i (b ∷ bs) = ap (λ l. pos i ∷ l) (positions-set_positions (suc i) bs)

merge_one-kind :
    (new_v4 : ℕ → Uuid) (now_ms : ℤ) (versions : List BlockVersion) (slot : Option Block)
    (parsed : ParsedBlock) (n : ℕ)
    → Fits parsed.kind slot
    → (merge_one new_v4 now_ms versions slot parsed n).0.kind ≡ parsed.kind
unfolding merge_one keep_block new_block
merge_one-kind new_v4 now_ms versions none parsed n h = refl
merge_one-kind new_v4 now_ms versions (some b) parsed n h = ground arith

pub length_of_kinds :
    (bs : List Block) (parsed : List ParsedBlock)
    → kinds bs ≡ parsed_kinds parsed
    → length bs ≡ length parsed
length_of_kinds [] [] h = refl
length_of_kinds [] (p ∷ ps) h = cc
length_of_kinds (b ∷ bs) [] h = cc
length_of_kinds (b ∷ bs) (p ∷ ps) h = ap suc (length_of_kinds bs ps (ap tail h))

-- For all inputs the merge yields a result (no index is out of range), whose blocks have the kinds
-- of the parsed blocks, in their order, at the positions 0, 1, 2, ….
pub merge_blocks_total :
    (new_v4 : ℕ → Uuid) (now_ms : ℤ) (previous : List Block) (versions : List BlockVersion)
    (parsed : List ParsedBlock)
    → (r : MergeResult) × (merge_blocks new_v4 now_ms previous versions parsed ≡ some r)
      × (kinds r.blocks ≡ parsed_kinds parsed)
      × (positions r.blocks ≡ positions_from 0 (length parsed))
merge_blocks_total new_v4 now_ms previous versions parsed =
    let (bs, ws, e, same) =
      merge_blocks_induction new_v4 now_ms previous versions
        (λ _ ps _ bs _. kinds bs ≡ parsed_kinds ps) parsed (λ _ _. refl)
        (λ position pb rest n slot bs ws _ fits ih.
          cc (merge_one-kind new_v4 now_ms versions slot pb n fits, ih)) in
    (
      record { blocks = set_positions 0 bs; versions = ws },
      e,
      kinds-set_positions 0 bs ∙ same,
      positions-set_positions 0 bs ∙ ap (positions_from 0) (length_of_kinds bs parsed same),
    )
