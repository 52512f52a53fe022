-- ===== src/Content/Diff/Lcs.antt =====
-- The matching of crates/content/src/diff.rs: the table holds the lengths of longest common
-- subsequences, and the walk yields such a subsequence.
use forgepost.Prelude.{
  ℕ, zero, suc, ◌+◌, ◌≤◌, ◌≡◌, refl, sym, ap, ◌∙◌, Bool, true, false, some, List, [], ◌∷◌, arith,
  max, length, get_elem?, get_or, tail, drop, replicate, head_of_drop, All, ◌⊎◌, inl, inr,
  Bool-cases,
}
use native.Mathlib.Nat.{add-zero, zero-add}
use forgepost.Content.{BlockKind, kind_eq, kind_eq_refl, kind_eq→eq}
use forgepost.Content.Diff.{fill_row, fill_table, cell, walk, lcs_matches}

-- The length of a longest common subsequence, by its recurrence.
lcs : List BlockKind → List BlockKind → ℕ
lcs [] ks = 0
lcs (p ∷ ps) [] = 0
lcs (p ∷ ps) (k ∷ ks) = elim (kind_eq p k) [
  | true ↦ suc (lcs ps ks)
  | false ↦ max (lcs ps (k ∷ ks)) (lcs (p ∷ ps) ks)
]

get_or-tail : (xs : List ℕ) (j : ℕ) → get_or (tail xs) j 0 ≡ get_or xs (suc j) 0
get_or-tail [] j = refl
get_or-tail (x ∷ xs) j = refl

get_or-zeros : (n j : ℕ) → get_or {A = ℕ} (replicate n 0) j 0 ≡ 0
get_or-zeros zero j = refl
get_or-zeros (suc n) zero = refl
get_or-zeros (suc n) (suc j) = get_or-zeros n j

fill_row-lcs :
    (p : BlockKind) (ps new : List BlockKind) (below : List ℕ)
    → ((j : ℕ) → get_or below j 0 ≡ lcs ps (drop j new))
    → (j : ℕ) → get_or (fill_row p new below) j 0 ≡ lcs (p ∷ ps) (drop j new)
unfolding fill_row lcs
fill_row-lcs p ps [] below h zero = refl
fill_row-lcs p ps [] below h (suc j) = refl
fill_row-lcs p ps (k ∷ ks) below h zero =
    ground
      (arith, h 0, h 1, fill_row-lcs p ps ks (tail below) (λ j. get_or-tail below j ∙ h (suc j)) 0)
fill_row-lcs p ps (k ∷ ks) below h (suc j) =
    fill_row-lcs p ps ks (tail below) (λ i. get_or-tail below i ∙ h (suc i)) j

fill_table-lcs :
    (prev new : List BlockKind) (i j : ℕ)
    → cell (fill_table prev new) i j ≡ lcs (drop i prev) (drop j new)
unfolding fill_table lcs
fill_table-lcs [] new zero j = get_or-zeros (length new + 1) j
fill_table-lcs [] new (suc i) j = refl
fill_table-lcs (p ∷ ps) new zero j =
    fill_row-lcs p ps new (get_or (fill_table ps new) 0 []) (fill_table-lcs ps new 0) j
fill_table-lcs (p ∷ ps) new (suc i) j = fill_table-lcs ps new i j

-- `s` is a subsequence of `l`.
abbrev pub IsSubsequence : List BlockKind → List BlockKind → Type 0
IsSubsequence [] l = Unit {0}
IsSubsequence (x ∷ s) [] = ⊥
IsSubsequence (x ∷ s) (y ∷ l) = ((x ≡ y) × IsSubsequence s l) ⊎ IsSubsequence (x ∷ s) l

IsSubsequence-tail :
    (x : BlockKind) (s l : List BlockKind) → IsSubsequence (x ∷ s) l → IsSubsequence s l
IsSubsequence-tail x [] l h = tt
IsSubsequence-tail x (z ∷ s) [] h = elim h [ ]
IsSubsequence-tail x (z ∷ s) (y ∷ l) (inl (e, h)) = inr h
IsSubsequence-tail x (z ∷ s) (y ∷ l) (inr h) = inr (IsSubsequence-tail x (z ∷ s) l h)

-- A subsequence that starts with `x` leaves its rest in the list's rest.
IsSubsequence-rest :
    (x : BlockKind) (s : List BlockKind) (y : BlockKind) (l : List BlockKind)
    → IsSubsequence (x ∷ s) (y ∷ l)
    → IsSubsequence s l
IsSubsequence-rest x s y l (inl (e, h)) = h
IsSubsequence-rest x s y l (inr h) = IsSubsequence-tail x s l h

-- Two lists with different heads cannot both use their heads for a common subsequence.
one_side :
    (x p k : BlockKind) (s ps ks : List BlockKind) {n a b : ℕ}
    → kind_eq p k ≡ false
    → IsSubsequence (x ∷ s) (p ∷ ps)
    → IsSubsequence (x ∷ s) (k ∷ ks)
    → (IsSubsequence (x ∷ s) ps → n ≤ a)
    → (IsSubsequence (x ∷ s) ks → n ≤ b)
    → n ≤ max a b
one_side x p k s ps ks other (inl (e, h)) (inl (d, g)) l r = cc (kind_eq_refl p, e, d)
one_side x p k s ps ks other (inr h) g l r = omega (arith, l h)
one_side x p k s ps ks other (inl h) (inr g) l r = omega (arith, r g)

common-le-lcs :
    (s ps ks : List BlockKind) → IsSubsequence s ps → IsSubsequence s ks → length s ≤ lcs ps ks
unfolding lcs
common-le-lcs [] ps ks h g = omega arith
common-le-lcs (x ∷ s) [] ks h g = elim h [ ]
common-le-lcs (x ∷ s) (p ∷ ps) [] h g = elim g [ ]
common-le-lcs (x ∷ s) (p ∷ ps) (k ∷ ks) h g = elim (Bool-cases (kind_eq p k)) [
  | inl same ↦
      rw (same, lcs)
        (omega (
          arith,
          common-le-lcs s ps ks (IsSubsequence-rest x s p ps h) (IsSubsequence-rest x s k ks g),
        ))
  | inr other ↦
      rw (other, lcs)
        (one_side x p k s ps ks other h g (λ h'. common-le-lcs (x ∷ s) ps (k ∷ ks) h' g)
          (λ g'. common-le-lcs (x ∷ s) (p ∷ ps) ks h g'))
]

-- The cells that the walk compares are those of the specification at its place.
abbrev Cells : List (List ℕ) → List BlockKind → List BlockKind → ℕ → ℕ → Type 0
Cells table ps ks i j = (a b : ℕ) → cell table (i + a) (j + b) ≡ lcs (drop a ps) (drop b ks)

Cells-left :
    (table : List (List ℕ)) (p : BlockKind) (ps ks : List BlockKind) (i j : ℕ)
    → Cells table (p ∷ ps) ks i j
    → Cells table ps ks (suc i) j
Cells-left table p ps ks i j h a b =
    let e : suc i + a ≡ i + suc a = omega arith in rw e (h (suc a) b)

Cells-right :
    (table : List (List ℕ)) (k : BlockKind) (ps ks : List BlockKind) (i j : ℕ)
    → Cells table ps (k ∷ ks) i j
    → Cells table ps ks i (suc j)
Cells-right table k ps ks i j h a b =
    let e : suc j + b ≡ j + suc b = omega arith in rw e (h a (suc b))

length-walk :
    (table : List (List ℕ)) (ps ks : List BlockKind) (i j : ℕ)
    → Cells table ps ks i j
    → length (walk table ps ks i j) ≡ lcs ps ks
unfolding walk lcs
length-walk table [] ks i j h = refl
length-walk table (p ∷ ps) [] i j h = refl
length-walk table (p ∷ ps) (k ∷ ks) i j h = ground (
  arith,
  Cells-left table p ps (k ∷ ks) i j h 0 0,
  Cells-right table k (p ∷ ps) ks i j h 0 0,
  add-zero i,
  add-zero j,
  length-walk table ps ks (suc i) (suc j)
      (Cells-left table p ps ks i (suc j) (Cells-right table k (p ∷ ps) ks i j h)),
  length-walk table ps (k ∷ ks) (suc i) j (Cells-left table p ps (k ∷ ks) i j h),
  length-walk table (p ∷ ps) ks i (suc j) (Cells-right table k (p ∷ ps) ks i j h),
)

-- The matching is a longest common subsequence: no common subsequence of the two lists of kinds
-- has more members than `lcs_matches` has pairs.
pub lcs_matches_longest :
    (prev new common : List BlockKind)
    → IsSubsequence common prev
    → IsSubsequence common new
    → length common ≤ length (lcs_matches prev new)
unfolding lcs_matches
lcs_matches_longest prev new common h g = omega (
  arith,
  common-le-lcs common prev new h g,
  length-walk (fill_table prev new) prev new 0 0 (cells prev new),
)
  where
    cells : (prev new : List BlockKind) → Cells (fill_table prev new) prev new 0 0
    cells prev new a b = rw (zero-add a, zero-add b) (fill_table-lcs prev new a b)

-- The pairs rise strictly in both members, from `i` and `j` on.
abbrev pub Rises : ℕ → ℕ → List (ℕ × ℕ) → Type 0
Rises i j [] = Unit {0}
Rises i j ((a, b) ∷ ms) = (i ≤ a) × (j ≤ b) × Rises (suc a) (suc b) ms

-- Each pair names an index of either list, with equal kinds there.
abbrev pub Agrees : List BlockKind → List BlockKind → ℕ × ℕ → Type 0
Agrees prev new (a, b) = (k : BlockKind) × (get_elem? prev a ≡ some k) × (get_elem? new b ≡ some k)

Rises-mono : (ms : List (ℕ × ℕ)) (i j i' j' : ℕ) → i ≤ i' → j ≤ j' → Rises i' j' ms → Rises i j ms
Rises-mono [] i j i' j' h g r = tt
Rises-mono ((a, b) ∷ ms) i j i' j' h g (ra, rb, r) = (omega arith, omega arith, r)

walk-Rises :
    (table : List (List ℕ)) (ps ks : List BlockKind) (i j : ℕ) → Rises i j (walk table ps ks i j)
unfolding walk
walk-Rises table [] ks i j = tt
walk-Rises table (p ∷ ps) [] i j = tt
walk-Rises table (p ∷ ps) (k ∷ ks) i j = ground (
  arith,
  walk-Rises table ps ks (suc i) (suc j),
  Rises-mono (walk table ps (k ∷ ks) (suc i) j) i j (suc i) j (omega arith) (omega arith)
      (walk-Rises table ps (k ∷ ks) (suc i) j),
  Rises-mono (walk table (p ∷ ps) ks i (suc j)) i j i (suc j) (omega arith) (omega arith)
      (walk-Rises table (p ∷ ps) ks i (suc j)),
)

-- The pairs (i, i), (i + 1, i + 1), …, as many as told.
abbrev pub diagonal : ℕ → ℕ → List (ℕ × ℕ)
diagonal i zero = []
diagonal i (suc n) = (i, i) ∷ diagonal (suc i) n

All-either {ℓ κ} :
    {A : Type ℓ} (P : A → Type κ) (b : Bool) (xs ys : List A)
    → All P xs
    → All P ys
    → All P (elim b [ true ↦ xs | false ↦ ys ])
All-either P true xs ys h g = h
All-either P false xs ys h g = g

walk-Agrees :
    (prev new : List BlockKind) (table : List (List ℕ)) (ps ks : List BlockKind) (i j : ℕ)
    → drop i prev ≡ ps
    → drop j new ≡ ks
    → All (Agrees prev new) (walk table ps ks i j)
unfolding walk
walk-Agrees prev new table [] ks i j h g = tt
walk-Agrees prev new table (p ∷ ps) [] i j h g = tt
walk-Agrees prev new table (p ∷ ps) (k ∷ ks) i j h g = elim (Bool-cases (kind_eq p k)) [
  | inl same ↦
      rw (same, walk)
        (
          (
            p,
            (head_of_drop prev i p ps h).0,
            (head_of_drop new j k ks g).0 ∙ ap some (sym (kind_eq→eq p k same)),
          ),
          walk-Agrees prev new table ps ks (suc i) (suc j) (head_of_drop prev i p ps h).1
              (head_of_drop new j k ks g).1,
        )
  | inr other ↦
      rw (other, walk)
        (All-either (Agrees prev new) _ _ _
          (walk-Agrees prev new table ps (k ∷ ks) (suc i) j (head_of_drop prev i p ps h).1 g)
          (walk-Agrees prev new table (p ∷ ps) ks i (suc j) h (head_of_drop new j k ks g).1))
]

-- The matched pairs rise strictly in both lists, and each names blocks of one kind: the matching
-- is an order-preserving partial bijection between indices in range.
pub lcs_matches_sound :
    (prev new : List BlockKind)
    → Rises 0 0 (lcs_matches prev new) × All (Agrees prev new) (lcs_matches prev new)
unfolding lcs_matches
lcs_matches_sound prev new = (
  walk-Rises (fill_table prev new) prev new 0 0,
  walk-Agrees prev new (fill_table prev new) prev new 0 0 refl refl,
)

walk-diagonal :
    (table : List (List ℕ)) (ks : List BlockKind) (i : ℕ)
    → walk table ks ks i i ≡ diagonal i (length ks)
unfolding walk
walk-diagonal table [] i = refl
walk-diagonal table (k ∷ ks) i =
    rw (kind_eq_refl k, walk) (ap (λ l. (i, i) ∷ l) (walk-diagonal table ks (suc i)))

-- Equal lists are matched index by index.
pub lcs_matches_self : (ks : List BlockKind) → lcs_matches ks ks ≡ diagonal 0 (length ks)
unfolding lcs_matches
lcs_matches_self ks = walk-diagonal (fill_table ks ks) ks 0
