-- ===== src/Content/Merge/Identity.antt =====
-- Identity across merges: matched blocks keep their ids, and merging the same blocks again changes
-- nothing.
use forgepost.Prelude.{
  ℕ, ℤ, pos, zero, suc, ◌+◌, ◌≤◌, ◌<◌, ◌≡◌, refl, sym, ap, ◌∙◌, subst, inl, inr, Bool, true, false,
  not, some, some-inj, List, [], ◌∷◌, ◌++◌, map, arith, if◌then◌else◌, length, drop, tail,
  head_of_drop, In, Each₂,
}
use forgepost.Json.{Json, json_eq, json_eq_refl}
use forgepost.Content.{ParsedBlock, BlockVersion, Block, Uuid, video, kind_eq}
use forgepost.Content.Video.{video_identity, identity_eq, identity_eq_refl}
use forgepost.Content.Diff.Lcs.{Rises, diagonal, lcs_matches_self}
use forgepost.Content.Merge.{
  MergeResult, content_of, content_changed, match_for, previous_at, set_positions, merge_one,
  keep_block, merge_loop, merge_blocks,
}
use forgepost.Content.Merge.Shape.{
  kinds, parsed_kinds, positions, positions_from, matches_of, merge_of_loop, merge_blocks_total,
  length_of_kinds,
}
use forgepost.Content.Merge.Contents.{IsFresh, Shows, merge_blocks_contents}

-- A block that already is what was parsed for it.
abbrev pub IsUnchanged : List BlockVersion → Block → ParsedBlock → Type 0
IsUnchanged versions b p = (b.kind ≡ p.kind) × Shows versions b p

same_unchanged :
    (v : Bool) (c d : Json)
    → (if v then video_identity c ≡ video_identity d else c ≡ d)
    → (if v then not (identity_eq (video_identity c) (video_identity d)) else not (json_eq c d))
      ≡ false
same_unchanged true c d h = rw (h, identity_eq_refl (video_identity d))
same_unchanged false c d h = rw (h, json_eq_refl d)

Shows-unchanged :
    (versions : List BlockVersion) (b : Block) (p : ParsedBlock)
    → Shows versions b p
    → content_changed p.kind (content_of versions b.version_id) p.content ≡ false
unfolding content_changed
Shows-unchanged versions b p (c, e, same) =
    rw (e, content_changed) (same_unchanged (kind_eq p.kind video) c p.content same)

-- The blocks as the loop leaves them, before the positions are assigned.
abbrev at_zero : List Block → List Block
at_zero = map (λ (b : Block). record b { position = pos 0 })

set_positions-at_zero :
    (i : ℕ) (bs : List Block) → set_positions i (at_zero bs) ≡ set_positions i bs
unfolding set_positions
set_positions-at_zero i [] = refl
set_positions-at_zero i (b ∷ bs) =
    ap (λ l. record b { position = pos i } ∷ l) (set_positions-at_zero (suc i) bs)

set_positions_self :
    (i : ℕ) (bs : List Block)
    → positions bs ≡ positions_from i (length bs)
    → set_positions i bs ≡ bs
unfolding set_positions
set_positions_self i [] h = refl
set_positions_self i (b ∷ bs) h = ground (arith, set_positions_self (suc i) bs (ap tail h))

match_for-diagonal : (i n j : ℕ) → i ≤ j → j < i + n → match_for (diagonal i n) j ≡ some j
unfolding match_for
match_for-diagonal i zero j h g = absurd (omega arith)
match_for-diagonal i (suc n) j h g = ground (arith, match_for-diagonal (suc i) n j)

merge_one_unchanged :
    (new_v4 : ℕ → Uuid) (now_ms : ℤ) (versions : List BlockVersion) (b : Block) (p : ParsedBlock)
    (n : ℕ)
    → IsUnchanged versions b p
    → merge_one new_v4 now_ms versions (some b) p n ≡ (record b { position = pos 0 }, [], n)
unfolding merge_one keep_block
merge_one_unchanged new_v4 now_ms versions b p n (k, shows) =
    rw (Shows-unchanged versions b p shows, keep_block)

merge_loop_unchanged :
    (new_v4 : ℕ → Uuid) (now_ms : ℤ) (previous : List Block) (versions : List BlockVersion) (i : ℕ)
    (bs : List Block) (ps : List ParsedBlock) (n : ℕ)
    → drop i previous ≡ bs
    → i + length bs ≡ length previous
    → Each₂ (IsUnchanged versions) bs ps
    → merge_loop new_v4 now_ms previous versions (diagonal 0 (length previous)) i ps n
      ≡ some (at_zero bs, [])
unfolding merge_loop previous_at
merge_loop_unchanged new_v4 now_ms previous versions i [] [] n d l h = refl
merge_loop_unchanged new_v4 now_ms previous versions i [] (p ∷ ps) n d l h = elim h [ ]
merge_loop_unchanged new_v4 now_ms previous versions i (b ∷ bs) [] n d l h = elim h [ ]
merge_loop_unchanged new_v4 now_ms previous versions i (b ∷ bs) (p ∷ ps) n d l (u, us) =
    let (at, on) = head_of_drop previous i b bs d in
    let matched : match_for (diagonal 0 (length previous)) i ≡ some i =
      match_for-diagonal 0 (length previous) i (omega arith) (omega arith) in
    rw
      (
        matched,
        previous_at,
        at,
        merge_loop,
        merge_one_unchanged new_v4 now_ms versions b p n u,
        merge_loop_unchanged new_v4 now_ms previous versions (suc i) bs ps n on (omega arith) us,
      )
      (ap (λ (t : Block × List BlockVersion × ℕ). some (t.0 ∷ at_zero bs, t.1 ++ []))
        (merge_one_unchanged new_v4 now_ms versions b p n u))

kinds_unchanged :
    (versions : List BlockVersion) (bs : List Block) (ps : List ParsedBlock)
    → Each₂ (IsUnchanged versions) bs ps
    → parsed_kinds ps ≡ kinds bs
kinds_unchanged versions [] [] h = refl
kinds_unchanged versions [] (p ∷ ps) h = elim h [ ]
kinds_unchanged versions (b ∷ bs) [] h = elim h [ ]
kinds_unchanged versions (b ∷ bs) (p ∷ ps) ((k, _), h) = cc (k, kinds_unchanged versions bs ps h)

length-kinds : (bs : List Block) → length (kinds bs) ≡ length bs
length-kinds [] = refl
length-kinds (b ∷ bs) = ap suc (length-kinds bs)

-- Merging what the blocks already show keeps every block, with its id, its version and its times,
-- and makes no version, whatever the time and the ids drawn.
merge_blocks_unchanged :
    (new_v4 : ℕ → Uuid) (now_ms : ℤ) (previous : List Block) (versions : List BlockVersion)
    (parsed : List ParsedBlock)
    → Each₂ (IsUnchanged versions) previous parsed
    → merge_blocks new_v4 now_ms previous versions parsed
      ≡ some (record { blocks = set_positions 0 previous; versions = [] })
merge_blocks_unchanged new_v4 now_ms previous versions parsed h =
    merge_of_loop new_v4 now_ms previous versions parsed (at_zero previous) [] (
      rw matching (
        merge_loop_unchanged new_v4 now_ms previous versions 0 previous parsed 0 refl (omega arith)
          h))
    ∙ ap (λ bs. some (record { blocks = bs; versions = [] })) (set_positions-at_zero 0 previous)
  where
    matching : matches_of previous parsed ≡ diagonal 0 (length previous)
    matching =
        rw (kinds_unchanged versions previous parsed h)
          (lcs_matches_self (kinds previous) ∙ ap (diagonal 0) (length-kinds previous))

both-IsUnchanged :
    (pool : List BlockVersion) (bs : List Block) (ps : List ParsedBlock)
    → kinds bs ≡ parsed_kinds ps
    → Each₂ (Shows pool) bs ps
    → Each₂ (IsUnchanged pool) bs ps
both-IsUnchanged pool [] [] k h = tt
both-IsUnchanged pool [] (p ∷ ps) k h = h
both-IsUnchanged pool (b ∷ bs) [] k h = h
both-IsUnchanged pool (b ∷ bs) (p ∷ ps) k (h, hs) =
    ((cc, h), both-IsUnchanged pool bs ps (ap tail k) hs)

-- Saving is idempotent: with fresh ids, merging the same parsed blocks once more, at any later time
-- and with any generator, returns the same blocks and makes no version.
pub merge_blocks_idem :
    (new_v4 : ℕ → Uuid) (now_ms : ℤ) (previous : List Block) (versions : List BlockVersion)
    (parsed : List ParsedBlock) (r : MergeResult) (new_v4' : ℕ → Uuid) (later_ms : ℤ)
    → IsFresh new_v4 versions
    → merge_blocks new_v4 now_ms previous versions parsed ≡ some r
    → merge_blocks new_v4' later_ms r.blocks (versions ++ r.versions) parsed
      ≡ some (record { blocks = r.blocks; versions = [] })
merge_blocks_idem new_v4 now_ms previous versions parsed r new_v4' later_ms fresh e =
    let (s, es, kinds_s, positions_s) = merge_blocks_total new_v4 now_ms previous versions parsed in
    let (t, et, shows_t) = merge_blocks_contents new_v4 now_ms previous versions parsed fresh in
    let same_s : s ≡ r = some-inj (sym es ∙ e) in
    let same_t : t ≡ r = some-inj (sym et ∙ e) in
    let kinds_r : kinds r.blocks ≡ parsed_kinds parsed =
      subst (λ (x : MergeResult). kinds x.blocks ≡ parsed_kinds parsed) same_s kinds_s in
    let positions_r : positions r.blocks ≡ positions_from 0 (length parsed) =
      subst (λ (x : MergeResult). positions x.blocks ≡ positions_from 0 (length parsed)) same_s
        positions_s in
    let shows_r : Each₂ (Shows (versions ++ r.versions)) r.blocks parsed =
      subst (λ (x : MergeResult). Each₂ (Shows (versions ++ x.versions)) x.blocks parsed) same_t
        shows_t in
    merge_blocks_unchanged new_v4' later_ms r.blocks (versions ++ r.versions) parsed
      (both-IsUnchanged (versions ++ r.versions) r.blocks parsed kinds_r shows_r)
    ∙ ap (λ bs. some (record { blocks = bs; versions = [] }))
        (set_positions_self 0 r.blocks (positions_r ∙ ap (positions_from 0) (sym (count kinds_r))))
  where
    count : kinds r.blocks ≡ parsed_kinds parsed → length r.blocks ≡ length parsed
    count h = length_of_kinds r.blocks parsed h

-- The pair for a new index is the one that `match_for` finds.
pub match_for-In :
    (ms : List (ℕ × ℕ)) (i₀ j₀ i j : ℕ)
    → Rises i₀ j₀ ms
    → In (i, j) ms
    → (j₀ ≤ j) × (match_for ms j ≡ some i)
unfolding match_for
match_for-In [] i₀ j₀ i j r h = elim h [ ]
match_for-In ((p, m) ∷ ms) i₀ j₀ i j (rp, rm, r) (inl e) = ground arith
match_for-In ((p, m) ∷ ms) i₀ j₀ i j (rp, rm, r) (inr h) =
    ground (arith, match_for-In ms (suc p) (suc m) i j r h)
