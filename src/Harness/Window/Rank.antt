-- ===== src/Harness/Window/Rank.antt =====
-- Order statistics by counting, and the sort that finds them.
use wasm_benchmark.Base.{
  ℕ, zero, suc, ◌+◌, ◌≤◌, ◌<◌, ◌≡◌, refl, ap, ◌∙◌, arith, List, [], ◌∷◌, some, length, get_elem?,
  All, ltb, leb, if◌then◌else◌, Bool-cases, inl, inr,
}
use wasm_benchmark.Harness.Window.{insert, sort_unstable}
use native.Mathlib.Decide.{dec_le}

unfoldable pub count_lt : ℕ → List ℕ → ℕ
count_lt v [] = 0
count_lt v (x ∷ xs) = (if ltb x v then 1 else 0) + count_lt v xs

unfoldable pub count_le : ℕ → List ℕ → ℕ
count_le v [] = 0
count_le v (x ∷ xs) = (if leb x v then 1 else 0) + count_le v xs

-- At most k of the numbers are below v, and more than k are not above it: v has rank k.
abbrev pub HasRank : ℕ → ℕ → List ℕ → Type 0
HasRank k v xs = (count_lt v xs ≤ k) × (k < count_le v xs)

abbrev pub IsSorted : List ℕ → Type 0
IsSorted [] = Unit
IsSorted (x ∷ xs) = All (λ y. x ≤ y) xs × IsSorted xs

count_lt-insert : (v x : ℕ) (ys : List ℕ) → count_lt v (insert x ys) ≡ count_lt v (x ∷ ys)
unfolding count_lt insert
count_lt-insert v x [] = refl
count_lt-insert v x (y ∷ ys) = ground (arith, count_lt-insert v x ys)

count_le-insert : (v x : ℕ) (ys : List ℕ) → count_le v (insert x ys) ≡ count_le v (x ∷ ys)
unfolding count_le insert
count_le-insert v x [] = refl
count_le-insert v x (y ∷ ys) = ground (arith, count_le-insert v x ys)

pub count_lt-sort : (v : ℕ) (xs : List ℕ) → count_lt v (sort_unstable xs) ≡ count_lt v xs
unfolding sort_unstable count_lt
count_lt-sort v [] = refl
count_lt-sort v (x ∷ xs) =
    count_lt-insert v x (sort_unstable xs)
    ∙ ap (λ (n : ℕ). (if ltb x v then 1 else 0) + n) (count_lt-sort v xs)

pub count_le-sort : (v : ℕ) (xs : List ℕ) → count_le v (sort_unstable xs) ≡ count_le v xs
unfolding sort_unstable count_le
count_le-sort v [] = refl
count_le-sort v (x ∷ xs) =
    count_le-insert v x (sort_unstable xs)
    ∙ ap (λ (n : ℕ). (if leb x v then 1 else 0) + n) (count_le-sort v xs)

length-insert : (x : ℕ) (ys : List ℕ) → length (insert x ys) ≡ suc (length ys)
unfolding insert
length-insert x [] = refl
length-insert x (y ∷ ys) = ground (arith, length-insert x ys)

pub length-sort : (xs : List ℕ) → length (sort_unstable xs) ≡ length xs
unfolding sort_unstable
length-sort [] = refl
length-sort (x ∷ xs) = length-insert x (sort_unstable xs) ∙ ap suc (length-sort xs)

All-le_trans : (x y : ℕ) (ys : List ℕ) → x ≤ y → All (λ z. y ≤ z) ys → All (λ z. x ≤ z) ys
All-le_trans x y [] h a = tt
All-le_trans x y (z ∷ ys) h (hz, a) = (omega arith, All-le_trans x y ys h a)

All-insert : (v x : ℕ) (ys : List ℕ) → v ≤ x → All (λ z. v ≤ z) ys → All (λ z. v ≤ z) (insert x ys)
unfolding insert
All-insert v x [] h a = (h, tt)
All-insert v x (y ∷ ys) h (hy, a) = elim (Bool-cases (leb x y)) [
  | inl e ↦ rw e (h, (hy, a))
  | inr e ↦ rw e (hy, All-insert v x ys h a)
]

IsSorted-insert : (x : ℕ) (ys : List ℕ) → IsSorted ys → IsSorted (insert x ys)
unfolding insert
IsSorted-insert x [] s = (tt, tt)
IsSorted-insert x (y ∷ ys) (a, s) = elim (Bool-cases (leb x y)) [
  | inl e ↦ rw e ((ground arith, All-le_trans x y ys (ground arith) a), (a, s))
  | inr e ↦ rw e (All-insert y x ys (ground arith) a, IsSorted-insert x ys s)
]

pub IsSorted-sort : (xs : List ℕ) → IsSorted (sort_unstable xs)
unfolding sort_unstable
IsSorted-sort [] = tt
IsSorted-sort (x ∷ xs) = IsSorted-insert x (sort_unstable xs) (IsSorted-sort xs)

count_lt_least : (x : ℕ) (ys : List ℕ) → All (λ y. x ≤ y) ys → count_lt x ys ≡ 0
unfolding count_lt
count_lt_least x [] a = refl
count_lt_least x (y ∷ ys) (h, a) = ground (arith, count_lt_least x ys a)

All-get_elem? : (x k v : ℕ) (ys : List ℕ) → All (λ y. x ≤ y) ys → get_elem? ys k ≡ some v → x ≤ v
All-get_elem? x k v [] a e = cc
All-get_elem? x zero v (y ∷ ys) (h, a) e = ground arith
All-get_elem? x (suc k) v (y ∷ ys) (h, a) e = All-get_elem? x k v ys a e

-- The k-th element of a sorted list has rank k.
pub IsSorted-HasRank :
    (xs : List ℕ) (k v : ℕ) → IsSorted xs → get_elem? xs k ≡ some v → HasRank k v xs
unfolding count_lt count_le
IsSorted-HasRank [] k v s e = cc
IsSorted-HasRank (x ∷ xs) zero v (a, s) e =
    let same : x ≡ v = ground arith in
    let least = count_lt_least x xs a in
    (ground (arith, ap (λ (t : ℕ). count_lt t xs) same), ground arith)
IsSorted-HasRank (x ∷ xs) (suc k) v (a, s) e =
    let le : x ≤ v = All-get_elem? x k v xs a e in
    let (lt_rank, le_rank) = IsSorted-HasRank xs k v s e in (ground arith, ground arith)

count_mono : (v w : ℕ) (xs : List ℕ) → v < w → count_le v xs ≤ count_lt w xs
unfolding count_lt count_le
count_mono v w [] h = omega arith
count_mono v w (x ∷ xs) h = ground (arith, count_mono v w xs h)

-- Ranks order the values.
pub HasRank-le : (j k v w : ℕ) (xs : List ℕ) → HasRank j v xs → HasRank k w xs → j ≤ k → v ≤ w
HasRank-le j k v w xs hv hw h = elim (dec_le v w) [
  | yes le ↦ le
  | no above ↦ absurd (omega (arith, count_mono w v xs (omega arith)))
]
