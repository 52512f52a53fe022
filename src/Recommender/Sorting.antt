-- ===== src/Recommender/Sorting.antt =====
-- The sort of the candidates, and what a prefix of it leaves out.
use forgepost.Prelude.{
  ℕ, ℤ, zero, suc, ◌≡◌, refl, ap, ◌⊎◌, inl, inr, true, false, Option, none, some, List, [], ◌∷◌,
  arith, length, take, In, Bool-cases,
}
use forgepost.Recommender.{lt_option, Ranked, behind, insert_ranked, sort_ranked}

not_lt_option_trans :
    (x y z : Option ℤ) → lt_option x y ≡ false → lt_option y z ≡ false → lt_option x z ≡ false
not_lt_option_trans x y none h g = ground arith
not_lt_option_trans none none (some z) h g = cc
not_lt_option_trans none (some y) (some z) h g = cc
not_lt_option_trans (some x) none (some z) h g = cc
not_lt_option_trans (some x) (some y) (some z) h g = ground arith

not_behind_trans : (a b c : Ranked) → behind a b ≡ false → behind b c ≡ false → behind a c ≡ false
not_behind_trans a b c h g =
    ground (arith, not_lt_option_trans a.1.published_at_ms b.1.published_at_ms c.1.published_at_ms)

behind_asym : (a b : Ranked) → behind a b ≡ true → behind b a ≡ false
behind_asym a b h = asym a.1.published_at_ms b.1.published_at_ms refl refl
  where
    asym : (x y : Option ℤ) → a.1.published_at_ms ≡ x → b.1.published_at_ms ≡ y → behind b a ≡ false
    asym none none e g = ground arith
    asym none (some y) e g = ground arith
    asym (some x) none e g = ground arith
    asym (some x) (some y) e g = ground arith

-- No element behind a later one.
pub IsRanked : List Ranked → Type 0
IsRanked [] = Unit
IsRanked (a ∷ rest) = ((b : Ranked) → In b rest → behind a b ≡ false) × IsRanked rest

insert_ranked-In : (a b : Ranked) (xs : List Ranked) → In b (insert_ranked a xs) → In b (a ∷ xs)
unfolding insert_ranked
insert_ranked-In a b [] h = h
insert_ranked-In a b (x ∷ xs) h = elim (Bool-cases (behind a x)) [
  | inl back ↦ over (insert_ranked-In a b xs) (rw back at h)
  | inr front ↦ rw front at h
]
  where
    over :
        (In b (insert_ranked a xs) → In b (a ∷ xs))
        → In b (x ∷ insert_ranked a xs)
        → In b (a ∷ x ∷ xs)
    over ih (inl e) = inr (inl e)
    over ih (inr m) = swap (ih m)
      where
        swap : In b (a ∷ xs) → In b (a ∷ x ∷ xs)
        swap (inl e) = inl e
        swap (inr m) = inr (inr m)

In-insert_ranked : (a b : Ranked) (xs : List Ranked) → In b (a ∷ xs) → In b (insert_ranked a xs)
unfolding insert_ranked
In-insert_ranked a b [] h = h
In-insert_ranked a b (x ∷ xs) h = elim (Bool-cases (behind a x)) [
  | inl back ↦ rw (back, insert_ranked) (over (In-insert_ranked a b xs) h)
  | inr front ↦ rw (front, insert_ranked) h
]
  where
    over :
        (In b (a ∷ xs) → In b (insert_ranked a xs))
        → In b (a ∷ x ∷ xs)
        → In b (x ∷ insert_ranked a xs)
    over ih (inl e) = inr (ih (inl e))
    over ih (inr (inl e)) = inl e
    over ih (inr (inr m)) = inr (ih (inr m))

insert_ranked-IsRanked :
    (a : Ranked) (xs : List Ranked) → IsRanked xs → IsRanked (insert_ranked a xs)
unfolding insert_ranked IsRanked
insert_ranked-IsRanked a [] s = (λ b h. elim h [ ], tt)
insert_ranked-IsRanked a (x ∷ xs) (first, s) = elim (Bool-cases (behind a x)) [
  | inl back ↦ rw (back, insert_ranked) (below back, insert_ranked-IsRanked a xs s)
  | inr front ↦ rw (front, insert_ranked) (above front, (first, s))
]
  where
    below : behind a x ≡ true → (b : Ranked) → In b (insert_ranked a xs) → behind x b ≡ false
    below back b h = elim (insert_ranked-In a b xs h) [
      | inl e ↦ rw e (behind_asym a x back)
      | inr m ↦ first b m
    ]

    above : behind a x ≡ false → (b : Ranked) → In b (x ∷ xs) → behind a b ≡ false
    above front b (inl e) = rw e front
    above front b (inr m) = not_behind_trans a x b front (first b m)

pub sort_ranked-IsRanked : (xs : List Ranked) → IsRanked (sort_ranked xs)
unfolding sort_ranked IsRanked
sort_ranked-IsRanked [] = tt
sort_ranked-IsRanked (x ∷ xs) = insert_ranked-IsRanked x (sort_ranked xs) (sort_ranked-IsRanked xs)

pub In-sort_ranked : (xs : List Ranked) (b : Ranked) → In b xs → In b (sort_ranked xs)
unfolding sort_ranked
In-sort_ranked [] b h = h
In-sort_ranked (x ∷ xs) b (inl e) = In-insert_ranked x b (sort_ranked xs) (inl e)
In-sort_ranked (x ∷ xs) b (inr m) =
    In-insert_ranked x b (sort_ranked xs) (inr (In-sort_ranked xs b m))

pub sort_ranked-In : (xs : List Ranked) (b : Ranked) → In b (sort_ranked xs) → In b xs
unfolding sort_ranked
sort_ranked-In [] b h = h
sort_ranked-In (x ∷ xs) b h = elim (insert_ranked-In x b (sort_ranked xs) h) [
  | inl e ↦ inl e
  | inr m ↦ inr (sort_ranked-In xs b m)
]

pub take-In : {A : Type 0} (n : ℕ) (xs : List A) (a : A) → In a (take n xs) → In a xs
take-In zero xs a h = elim h [ ]
take-In (suc n) [] a h = h
take-In (suc n) (x ∷ xs) a (inl e) = inl e
take-In (suc n) (x ∷ xs) a (inr m) = inr (take-In n xs a m)

-- What a prefix of a ranked list leaves out is behind all of it.
pub take-best :
    (n : ℕ) (xs : List Ranked) (p : Ranked)
    → IsRanked xs
    → In p xs
    → In p (take n xs)
      ⊎ ((length (take n xs) ≡ n) × ((r : Ranked) → In r (take n xs) → behind r p ≡ false))
unfolding IsRanked
take-best zero xs p s m = inr (refl, λ r h. elim h [ ])
take-best (suc n) [] p s m = elim m [ ]
take-best (suc n) (x ∷ xs) p (first, s) (inl e) = inl (inl e)
take-best (suc n) (x ∷ xs) p (first, s) (inr m) = elim (take-best n xs p s m) [
  | inl h ↦ inl (inr h)
  | inr (len, best) ↦ inr (ap suc len, all_best (first p m) best)
]
  where
    all_best :
        behind x p ≡ false
        → ((r : Ranked) → In r (take n xs) → behind r p ≡ false)
        → (r : Ranked) → In r (x ∷ take n xs)
        → behind r p ≡ false
    all_best h g r (inl e) = rw e h
    all_best h g r (inr m) = g r m
