-- ===== src/Content/Merge/Contents.antt =====
-- After a merge each block shows the content that was parsed for it.
use forgepost.Prelude.{
  ℕ, ℤ, suc, ◌≤◌, ◌≡◌, refl, ◌∙◌, ◌⊎◌, inl, inr, true, false, Option, none, some, List, [], ◌∷◌,
  ◌++◌, arith, ==_refl, if◌then◌else◌, Bool-cases, Each₂, Each₂-map,
}
use forgepost.Json.{Json, json_eq_sound}
use forgepost.Content.{BlockKind, ParsedBlock, BlockVersion, Block, Uuid, video, kind_eq}
use forgepost.Content.Video.{video_identity, identity_eq→eq}
use forgepost.Content.Merge.{
  MergeResult, content_of, content_changed, set_positions, merge_one, keep_block, new_block,
  merge_blocks,
}
use forgepost.Content.Merge.Shape.{merge_blocks_induction}

-- What the generator of ids promises: its draws differ, and none is the id of an old version.
pub record IsFresh (new_v4 : ℕ → Uuid) (versions : List BlockVersion) : Type 0 where
  pub distinct : (m n : ℕ) → new_v4 m ≡ new_v4 n → m ≡ n
  pub unused : (n : ℕ) → content_of versions (new_v4 n) ≡ none

-- Equal contents, or for a video the same video.
abbrev pub SameContent : BlockKind → Json → Json → Type 0
SameContent kind c d = if kind_eq kind video then video_identity c ≡ video_identity d else c ≡ d

-- What the pool of old and new versions shows for a block.
abbrev pub Shows : List BlockVersion → Block → ParsedBlock → Type 0
Shows pool b p =
    (c : Json) × (content_of pool b.version_id ≡ some c) × SameContent p.kind c p.content

SameContent-refl : (kind : BlockKind) (c : Json) → SameContent kind c c
SameContent-refl kind c = elim (Bool-cases (kind_eq kind video)) [
  | inl v ↦ rw v refl
  | inr o ↦ rw o refl
]

unchanged_same :
    (kind : BlockKind) (old : Option Json) (content : Json)
    → content_changed kind old content ≡ false
    → (c : Json) × (old ≡ some c) × SameContent kind c content
unfolding content_changed
unchanged_same kind none content h = cc
unchanged_same kind (some c) content h = (
  c,
  refl,
  elim (Bool-cases (kind_eq kind video)) [
    | inl v ↦ rw v (identity_eq→eq _ _ (ground arith))
    | inr o ↦ rw o (json_eq_sound _ _ (ground arith))
  ],
)

content_of-cons_self :
    (v : BlockVersion) (vs : List BlockVersion) → content_of (v ∷ vs) v.id ≡ some v.content
unfolding content_of
content_of-cons_self v vs = rw (==_refl v.id, content_of)

content_of-cons_ne :
    (v : BlockVersion) (vs : List BlockVersion) (id : Uuid)
    → ¬ (v.id ≡ id)
    → content_of (v ∷ vs) id ≡ content_of vs id
unfolding content_of
content_of-cons_ne v vs id h = ground arith

pub content_of-append_left :
    (vs ws : List BlockVersion) (id : Uuid) (c : Json)
    → content_of vs id ≡ some c
    → content_of (vs ++ ws) id ≡ some c
unfolding content_of
content_of-append_left [] ws id c h = cc
content_of-append_left (v ∷ vs) ws id c h = ground (arith, content_of-append_left vs ws id c)

pub content_of-append_right :
    (vs ws : List BlockVersion) (id : Uuid)
    → content_of vs id ≡ none
    → content_of (vs ++ ws) id ≡ content_of ws id
unfolding content_of
content_of-append_right [] ws id h = refl
content_of-append_right (v ∷ vs) ws id h = ground (arith, content_of-append_right vs ws id)

module _ (new_v4 : ℕ → Uuid) (now_ms : ℤ) (versions : List BlockVersion) where
  -- Where the content of a block comes from: an old version, or a new one drawn from `n` on.
  abbrev Source : List BlockVersion → ℕ → Block → ParsedBlock → Type 0
  Source ws n b p =
      ((c : Json) × (content_of versions b.version_id ≡ some c) × SameContent p.kind c p.content)
      ⊎ ((m : ℕ) × (n ≤ m)
          × (b.version_id ≡ new_v4 m)
          × (content_of ws (new_v4 m) ≡ some p.content))

  merge_one-Source :
      (slot : Option Block) (parsed : ParsedBlock) (n : ℕ) (ws : List BlockVersion)
      → let one = merge_one new_v4 now_ms versions slot parsed n in
        Source (one.1 ++ ws) n one.0 parsed
  unfolding merge_one keep_block new_block
  merge_one-Source none parsed n ws = inr (suc n, omega arith, refl, content_of-cons_self _ ws)
  merge_one-Source (some prev) parsed n ws =
      elim (Bool-cases
        (content_changed parsed.kind (content_of versions prev.version_id) parsed.content)) [
          | inl new ↦ rw new (inr (n, omega arith, refl, content_of-cons_self _ ws))
          | inr old ↦ rw old (inl (unchanged_same parsed.kind _ parsed.content old))
        ]

  keep_block-shift :
      (prev : Block) (parsed : ParsedBlock) (n m : ℕ) (ws : List BlockVersion)
      → ((i j : ℕ) → new_v4 i ≡ new_v4 j → i ≡ j)
      → let changed =
          content_changed parsed.kind (content_of versions prev.version_id) parsed.content in
        let one = keep_block new_v4 now_ms versions prev parsed n in
        (changed ≡ true) ⊎ (changed ≡ false)
        → one.2 ≤ m
        → (n ≤ m) × (content_of (one.1 ++ ws) (new_v4 m) ≡ content_of ws (new_v4 m))
  unfolding keep_block
  keep_block-shift prev parsed n m ws inj (inl new) =
      rw (new, keep_block)
        λ h. (omega arith, content_of-cons_ne _ ws _ (λ e. omega (arith, inj n m e)))
  keep_block-shift prev parsed n m ws inj (inr old) = rw (old, keep_block) λ h. (h, refl)

  -- A later version's content is found behind the versions of one more block.
  merge_one-shift :
      (slot : Option Block) (parsed : ParsedBlock) (n m : ℕ) (ws : List BlockVersion)
      → ((i j : ℕ) → new_v4 i ≡ new_v4 j → i ≡ j)
      → let one = merge_one new_v4 now_ms versions slot parsed n in
        one.2 ≤ m → (n ≤ m) × (content_of (one.1 ++ ws) (new_v4 m) ≡ content_of ws (new_v4 m))
  unfolding merge_one keep_block new_block
  merge_one-shift none parsed n m ws inj h =
      (omega arith, content_of-cons_ne _ ws _ (λ e. omega (arith, inj (suc n) m e)))
  merge_one-shift (some prev) parsed n m ws inj h =
      keep_block-shift prev parsed n m ws inj (Bool-cases _) h

  Source-shift :
      (slot : Option Block) (parsed : ParsedBlock) (n : ℕ) (ws : List BlockVersion)
      → ((i j : ℕ) → new_v4 i ≡ new_v4 j → i ≡ j)
      → let one = merge_one new_v4 now_ms versions slot parsed n in
        (b : Block) (p : ParsedBlock) → Source ws one.2 b p → Source (one.1 ++ ws) n b p
  Source-shift slot parsed n ws inj b p (inl old) = inl old
  Source-shift slot parsed n ws inj b p (inr (m, le, id, e)) =
      let (le', e') = merge_one-shift slot parsed n m ws inj le in inr (m, le', id, e' ∙ e)

  Source-Shows :
      (ws : List BlockVersion) (n : ℕ)
      → IsFresh new_v4 versions
      → (b : Block) (p : ParsedBlock) → Source ws n b p
      → Shows (versions ++ ws) b p
  Source-Shows ws n fresh b p (inl (c, e, same)) =
      (c, content_of-append_left versions ws b.version_id c e, same)
  Source-Shows ws n fresh b p (inr (m, le, id, e)) = (
    p.content,
    rw id (content_of-append_right versions ws (new_v4 m) (fresh.unused m) ∙ e),
    SameContent-refl p.kind p.content,
  )

  Shows-set_positions :
      (pool : List BlockVersion) (i : ℕ) (bs : List Block) (ps : List ParsedBlock)
      → Each₂ (Shows pool) bs ps
      → Each₂ (Shows pool) (set_positions i bs) ps
  unfolding set_positions
  Shows-set_positions pool i [] [] h = tt
  Shows-set_positions pool i [] (p ∷ ps) h = h
  Shows-set_positions pool i (b ∷ bs) [] h = h
  Shows-set_positions pool i (b ∷ bs) (p ∷ ps) (h, hs) =
      (h, Shows-set_positions pool (suc i) bs ps hs)

-- With fresh ids, after the merge each block's version resolves, in the old versions followed by
-- the new ones, to the content that was parsed for the block (for a video, to the same video).
pub merge_blocks_contents :
    (new_v4 : ℕ → Uuid) (now_ms : ℤ) (previous : List Block) (versions : List BlockVersion)
    (parsed : List ParsedBlock)
    → IsFresh new_v4 versions
    → (r : MergeResult) × (merge_blocks new_v4 now_ms previous versions parsed ≡ some r)
      × Each₂ (Shows (versions ++ r.versions)) r.blocks parsed
merge_blocks_contents new_v4 now_ms previous versions parsed fresh =
    let (bs, ws, e, sources) =
      merge_blocks_induction new_v4 now_ms previous versions
        (λ _ ps n bs ws. Each₂ (Source new_v4 now_ms versions ws n) bs ps) parsed (λ _ _. tt)
        (λ position pb rest n slot bs ws _ _ ih. (
          merge_one-Source new_v4 now_ms versions slot pb n ws,
          Each₂-map _ _ (Source-shift new_v4 now_ms versions slot pb n ws fresh.distinct) bs rest
              ih,
        )) in
    (
      record { blocks = set_positions 0 bs; versions = ws },
      e,
      Shows-set_positions new_v4 now_ms versions (versions ++ ws) 0 bs parsed
          (Each₂-map _ _ (Source-Shows new_v4 now_ms versions ws 0 fresh) bs parsed sources),
    )
