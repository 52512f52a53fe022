-- ===== src/Slug.antt =====
-- crates/infrastructure/src/sqlite.rs: slugify, the part of an address that a title gives. The lower
-- case and the alphanumeric characters of Unicode are parameters.
pub mod Laws
mod Tests
use forgepost.Prelude.{ℕ, Bool, true, false, not, ◌&&◌, List, [], ◌∷◌, ◌++◌, if◌then◌else◌}
use forgepost.Text.{Text, codes, is_empty}
use forgepost.Text.Ops.{skip_char, skip_char_end}

abbrev pub untitled : Text
untitled = codes "untitled"

module _ (to_lowercase : Text → Text) (is_alphanumeric : ℕ → Bool) where
  -- The loop over the characters, from the slug so far and whether a dash was the last.
  unfoldable pub slug_from : Text → Bool → Text → Text
  slug_from slug last_dash [] = slug
  slug_from slug last_dash (c ∷ cs) = elim (is_alphanumeric c) [
    | true ↦ slug_from (slug ++ c ∷ []) false cs
    | false ↦ elim (not last_dash && not (is_empty slug)) [
      | true ↦ slug_from (slug ++ 45 ∷ []) true cs
      | false ↦ slug_from slug last_dash cs
    ]
  ]

  unfoldable pub slugify : Text → Text
  unfolding slug_from skip_char skip_char_end
  slugify title =
      let slug = skip_char_end 45 (skip_char 45 (slug_from [] false (to_lowercase title))) in
      if is_empty slug then untitled else slug
