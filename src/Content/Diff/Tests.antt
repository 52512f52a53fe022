-- ===== src/Content/Diff/Tests.antt =====
-- The matching of crates/content/src/diff.rs on small inputs.
use forgepost.Prelude.{◌≤◌, ◌≡◌, refl, List, [], ◌∷◌, length, All, inl, inr}
use forgepost.Content.{BlockKind, paragraph, image, heading, quote, kind_eq}
use forgepost.Content.Diff.{lcs_matches}
use forgepost.Content.Diff.Lcs.{Rises, Agrees, lcs_matches_longest, lcs_matches_sound}

abbrev before : List BlockKind
before = heading 1 ∷ paragraph ∷ image ∷ paragraph ∷ []

abbrev after : List BlockKind
after = heading 1 ∷ image ∷ paragraph ∷ quote ∷ []

lcs_matches_run : lcs_matches before after ≡ (0, 0) ∷ (2, 1) ∷ (3, 2) ∷ []
unfolding lcs_matches kind_eq
lcs_matches_run = refl

lcs_matches_longest_example :
    length (heading 1 ∷ paragraph ∷ []) ≤ length (lcs_matches before after)
lcs_matches_longest_example =
    lcs_matches_longest before after (heading 1 ∷ paragraph ∷ []) (inl (refl, inl (refl, tt)))
      (inl (refl, inr (inl (refl, tt))))

lcs_matches_sound_example :
    Rises 0 0 (lcs_matches before after) × All (Agrees before after) (lcs_matches before after)
lcs_matches_sound_example = lcs_matches_sound before after
