-- ===== src/Femtovg/Imports/Leb.antt =====
-- Reading back a number in LEB128.
use wasm_benchmark.Base.{
  ℕ, zero, suc, ◌+◌, ◌*◌, ◌/◌, ◌%◌, ◌^◌, ◌≤◌, ◌<◌, ◌≡◌, refl, ap, ◌∙◌, arith, List, [], ◌∷◌, ◌++◌,
  some, ltb, if◌then◌else◌, length, length_append, get_elem?, true, false, ap₂,
}
use wasm_benchmark.Base.Bits.{or_fields}
use wasm_benchmark.Femtovg.Imports.{add_digit, uleb_loop, uleb, parsed}
use mathlib.Core.List.{append_assoc}
use native.Mathlib.Decide.{dec_lt}
use native.Mathlib.Nat.{pow-suc, add-mul, mul_assoc, mul-le-mul_right}

-- The encoding, seven bits to a byte and the lowest first, with k bytes more at most.
unfoldable pub leb128 : ℕ → ℕ → List ℕ
leb128 zero w = w ∷ []
leb128 (suc k) w =
    let rest = leb128 k (w / 128) in if ltb w 128 then (w ∷ []) else ((w % 128 + 128) ∷ rest)

pub get_elem?-here :
    (pre : List ℕ) (x : ℕ) (rest : List ℕ) → get_elem? (pre ++ x ∷ rest) (length pre) ≡ some x
get_elem?-here [] x rest = refl
get_elem?-here (y ∷ pre) x rest = get_elem?-here pre x rest

pub length-snoc : (pre : List ℕ) (x : ℕ) → length (pre ++ x ∷ []) ≡ length pre + 1
length-snoc [] x = refl
length-snoc (y ∷ pre) x = ap suc (length-snoc pre x) ∙ omega arith

-- A digit above those that were read adds to them.
add_digit-add :
    (v shift byte : ℕ)
    → shift < 32
    → v < 2 ^ shift
    → byte % 128 * 2 ^ shift < 2 ^ 32
    → add_digit v shift byte ≡ v + byte % 128 * 2 ^ shift
unfolding add_digit
add_digit-add v shift byte hs hv fits =
    let e : shift % 32 ≡ shift = omega arith in
    rw e (rw (small (byte % 128 * 2 ^ shift) fits) (or_fields shift (byte % 128) v hv))
  where
    small : (x : ℕ) → x < 2 ^ 32 → x % 2 ^ 32 ≡ x
    small x h = omega arith

-- A byte below 128 ends the number.
uleb_loop-last :
    (fuel v shift x : ℕ) (pre rest : List ℕ)
    → x < 128
    → uleb_loop (suc fuel) (pre ++ x ∷ rest) (length pre) v shift
      ≡ parsed (add_digit v shift x) (length pre + 1)
unfolding uleb_loop
uleb_loop-last fuel v shift x pre rest h =
    let test : ltb x 128 ≡ true = ground arith in
    rw (get_elem?-here pre x rest, uleb_loop, test) refl

-- Another byte adds its seven bits, and the number goes on behind it.
uleb_loop-more :
    (fuel v shift x : ℕ) (pre rest : List ℕ)
    → 128 ≤ x
    → uleb_loop (suc fuel) (pre ++ x ∷ rest) (length pre) v shift
      ≡ uleb_loop fuel
          ((pre ++ x ∷ []) ++ rest)
          (length (pre ++ x ∷ []))
          (add_digit v shift x)
          (shift + 7)
unfolding uleb_loop
uleb_loop-more fuel v shift x pre rest h =
    let test : ltb x 128 ≡ false = ground arith in
    rw
      (
        get_elem?-here pre x rest,
        uleb_loop,
        test,
        length-snoc pre x,
        append_assoc pre (x ∷ []) rest,
      )
      refl

two_seven : (k : ℕ) → 2 ^ (k + 7) ≡ 128 * 2 ^ k
two_seven k =
    let place : 2 ^ (k + 7) ≡ 2 ^ suc (suc (suc (suc (suc (suc (suc k)))))) =
      ap (λ (n : ℕ). 2 ^ n) (omega arith) in
    place
    ∙ omega (
      arith,
      pow-suc 2 k,
      pow-suc 2 (suc k),
      pow-suc 2 (suc (suc k)),
      pow-suc 2 (suc (suc (suc k))),
      pow-suc 2 (suc (suc (suc (suc k)))),
      pow-suc 2 (suc (suc (suc (suc (suc k))))),
      pow-suc 2 (suc (suc (suc (suc (suc (suc k)))))),
    )

-- The lowest seven bits of a number, and the rest of it, at their places.
places : (w p : ℕ) → w * p ≡ w % 128 * p + w / 128 * (128 * p)
places w p =
    let e : w ≡ w % 128 + w / 128 * 128 = omega arith in
    ap (λ (t : ℕ). t * p) e
    ∙ add-mul (w % 128) (w / 128 * 128) p
    ∙ ap (λ (t : ℕ). w % 128 * p + t) (mul_assoc (w / 128) 128 p)

low_bits : (w p : ℕ) → w % 128 * p ≤ 127 * p
low_bits w p = mul-le-mul_right p (omega arith)

leb128_small : (k w : ℕ) → w < 128 → leb128 k w ≡ w ∷ []
leb128_small zero w h = unfold leb128 in refl
leb128_small (suc k) w h = unfold leb128 in ground arith

leb128_large : (k w : ℕ) → 128 ≤ w → leb128 (suc k) w ≡ (w % 128 + 128) ∷ leb128 k (w / 128)
unfolding leb128
leb128_large k w h = ground arith

leb128_some : (k w : ℕ) → 0 < length (leb128 k w)
leb128_some zero w = unfold leb128 in omega arith
leb128_some (suc k) w = elim (dec_lt w 128) [
  | yes small ↦ rw (leb128_small (suc k) w small) (omega arith)
  | no large ↦ rw (leb128_large k w (omega arith)) (omega arith)
]

last_byte :
    (k fuel v shift w : ℕ) (pre rest : List ℕ)
    → w < 128
    → shift < 32
    → v < 2 ^ shift
    → w * 2 ^ shift < 2 ^ 32
    → uleb_loop (suc fuel) (pre ++ (leb128 k w ++ rest)) (length pre) v shift
      ≡ parsed (v + w * 2 ^ shift) (length pre + length (leb128 k w))
last_byte k fuel v shift w pre rest small hs hv fits =
    let low : w % 128 ≡ w = omega arith in
    rw
      (
        leb128_small k w small,
        uleb_loop-last fuel v shift w pre rest small,
        add_digit-add v shift w hs hv (rw low fits),
        low,
      )
      refl

-- With v read below the place `shift`, the encoding of w adds w at that place.
pub uleb_loop-leb128 :
    (k fuel v shift w : ℕ) (pre rest : List ℕ)
    → length (leb128 k w) ≤ fuel
    → shift + 7 * k < 32
    → v < 2 ^ shift
    → w < 128 ^ suc k
    → w * 2 ^ shift < 2 ^ 32
    → uleb_loop fuel (pre ++ (leb128 k w ++ rest)) (length pre) v shift
      ≡ parsed (v + w * 2 ^ shift) (length pre + length (leb128 k w))
uleb_loop-leb128 k zero v shift w pre rest hk hs hv hw fits =
    absurd (omega (arith, leb128_some k w))
uleb_loop-leb128 zero (suc fuel) v shift w pre rest hk hs hv hw fits =
    last_byte zero fuel v shift w pre rest (omega (arith, pow-suc 128 0)) (omega arith) hv fits
uleb_loop-leb128 (suc k) (suc fuel) v shift w pre rest hk hs hv hw fits = elim (dec_lt w 128) [
  | yes small ↦ last_byte (suc k) fuel v shift w pre rest small (omega arith) hv fits
  | no large ↦
      let x : ℕ = w % 128 + 128 in
      let p : ℕ = 2 ^ shift in
      let low : x % 128 ≡ w % 128 = omega arith in
      let step : 2 ^ (shift + 7) ≡ 128 * p = two_seven shift in
      let digit : add_digit v shift x ≡ v + w % 128 * p =
        add_digit-add v shift x (omega arith) hv
          (omega (arith, low, ap (λ (t : ℕ). t * p) low, places w p))
        ∙ ap (λ (t : ℕ). v + t * p) low in
      let held : v + w % 128 * p < 2 ^ (shift + 7) = omega (arith, step, low_bits w p) in
      let next_place : w / 128 * 2 ^ (shift + 7) ≡ w / 128 * (128 * p) =
        ap (λ (t : ℕ). w / 128 * t) step in
      let behind = length-snoc pre x in
      rw
        (
          leb128_large k w (omega arith),
          uleb_loop-more fuel v shift x pre (leb128 k (w / 128) ++ rest) (omega arith),
          digit,
          uleb_loop-leb128 k fuel (v + w % 128 * p) (shift + 7) (w / 128) (pre ++ x ∷ []) rest
              (omega (arith, ap (λ (l : List ℕ). length l) (leb128_large k w (omega arith))))
              (omega arith) held (omega (arith, pow-suc 128 (suc k)))
              (omega (arith, next_place, places w p)),
        )
        (ap₂ parsed (omega (arith, next_place, places w p)) (omega (arith, behind)))
]

-- Reading the encoding of a u32 gives it back, with the position behind it, whatever stands around.
pub uleb-leb128 :
    (w : ℕ) (pre rest : List ℕ)
    → w < 2 ^ 32
    → uleb (pre ++ (leb128 4 w ++ rest)) (length pre) ≡ parsed w (length pre + length (leb128 4 w))
unfolding uleb
uleb-leb128 w pre rest h =
    uleb_loop-leb128 4 (suc (length (pre ++ (leb128 4 w ++ rest)))) 0 0 w pre rest
      (omega (arith, length_append pre (leb128 4 w ++ rest), length_append (leb128 4 w) rest))
      (omega arith) (omega arith) (omega arith) (omega arith)
    ∙ ap (λ (t : ℕ). parsed t (length pre + length (leb128 4 w))) (omega arith)
