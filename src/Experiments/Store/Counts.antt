-- ===== src/Experiments/Store/Counts.antt =====
-- Counting the rows of a table that pass a test, for the invariants of the store.
use forgepost.Prelude.{
  ℕ, ◌+◌, ◌≤◌, ◌≡◌, refl, Bool, true, false, some, List, [], ◌∷◌, ◌++◌, arith, find, any, ap,
}
use forgepost.Text.{Text, text_eq, text_eq→eq}
use forgepost.Experiments.Tables.{update}

abbrev pub bit : Bool → ℕ
bit true = 1
bit false = 0

module _ {A : Type 0} where
  abbrev pub count : (A → Bool) → List A → ℕ
  count q [] = 0
  count q (x ∷ xs) = bit (q x) + count q xs

  -- An update takes what the row counted for and adds what the new row counts for.
  pub count-update :
      (q p : A → Bool) (g : A → A) (xs : List A) (r : A)
      → find p xs ≡ some r
      → count q (update p g xs) + bit (q r) ≡ count q xs + bit (q (g r))
  unfolding update
  count-update q p g [] r h = cc
  count-update q p g (x ∷ xs) r h = ground (arith, count-update q p g xs r)

  pub count-append :
      (q : A → Bool) (xs : List A) (x : A) → count q (xs ++ x ∷ []) ≡ count q xs + bit (q x)
  count-append q [] x = omega arith
  count-append q (y ∷ ys) x = omega (arith, count-append q ys x)

  pub count_none : (q : A → Bool) (xs : List A) → any q xs ≡ false → count q xs ≡ 0
  count_none q [] h = refl
  count_none q (x ∷ xs) h = ground (arith, count_none q xs)

  pub count_find :
      (p q : A → Bool) (xs : List A) (r : A) → find p xs ≡ some r → q r ≡ true → 1 ≤ count q xs
  count_find p q [] r h t = cc
  count_find p q (x ∷ xs) r h t = ground (arith, count_find p q xs r)

-- Equal texts agree on every comparison.
pub text_eq_subst : (s t u : Text) → text_eq s t ≡ true → text_eq s u ≡ text_eq t u
text_eq_subst s t u h = ap (λ v. text_eq v u) (text_eq→eq s t h)
