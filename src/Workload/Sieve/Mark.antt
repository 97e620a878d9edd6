-- ===== src/Workload/Sieve/Mark.antt =====
-- What the flags hold after the loops that write them.
use wasm_benchmark.Base.{
  ℕ, zero, suc, ◌+◌, ◌-◌, ◌*◌, ◌/◌, ◌%◌, ◌≤◌, ◌<◌, ◌≡◌, refl, sym, ap, ◌∙◌, arith, Bool, true,
  false, ◌&&◌, leb, ◌==◌, if◌then◌else◌, Bool-cases, inl, inr, List, Option, some, length, set,
  get_or, get_elem?-get_or, length-set, get_or-set_self, get_or-set_ne, write-eq-set, ltb,
}
use wasm_benchmark.Workload.Sieve.{reset_loop, mark_loop, sieve_body, sieve_loop}
use wasm_benchmark.Workload.Sieve.Divisor.{crossed, crossed_intro, crossed_elim}
use native.Mathlib.Nat.{
  div-add-mod, mul-le-mul_left, mul-mod_left, add-mod_right, dvd_of_mod-eq-zero, dvd_trans,
  mod-eq-zero_of_dvd,
}
use native.Mathlib.Decide.{ℕ_discrete, dec_le}
use native.Mathlib.Numerals.{add-one}

abbrev pub flag_at : List ℕ → ℕ → ℕ
flag_at flags i = get_or flags i 0

-- `result` is a normal return, of as many flags, and flag i of it is `f i`.
pub record Flags (f : ℕ → ℕ) (flags : List ℕ) (result : Option (List ℕ)) : Type 0 where
  pub out : List ℕ
  pub returns : result ≡ some out
  pub same_length : length out ≡ length flags
  pub flag : (i : ℕ) → flag_at out i ≡ f i

flag_at-set :
    (flags : List ℕ) (j v i : ℕ)
    → j < length flags
    → flag_at (set flags j v) i ≡ (if i == j then v else flag_at flags i)
flag_at-set flags j v i h = elim (ℕ_discrete i j) [
  | yes e ↦ rw e (ground (arith, get_or-set_self flags j v 0 h))
  | no ne ↦ ground (arith, get_or-set_ne flags j i v 0)
]

pub reset_loop-Flags :
    (left i : ℕ) (flags : List ℕ)
    → i + left ≤ length flags
    → Flags
        (λ j. if leb i j && ltb j (i + left) then 0 else flag_at flags j)
        flags
        (reset_loop left i flags)
unfolding reset_loop
reset_loop-Flags zero i flags h = record {
  out = flags;
  returns = refl;
  same_length = refl;
  flag = λ j. ground arith;
}
reset_loop-Flags (suc left) i flags h =
    let rest =
      reset_loop-Flags left (i + 1) (set flags i 0) (omega (arith, length-set flags i 0)) in
    record {
      out = rest.out;
      returns = rw (write-eq-set flags i 0 (omega arith)) rest.returns;
      same_length = rest.same_length ∙ length-set flags i 0;
      flag = λ j. ground (arith, rest.flag j, flag_at-set flags i 0 j (omega arith));
    }

-- A multiple of p above another is at least p above it.
next_multiple : (p m i : ℕ) → m % p ≡ 0 → i % p ≡ 0 → m < i → m + p ≤ i
next_multiple p m i hm hi h =
    let em : p * (m / p) ≡ m = omega (arith, div-add-mod m p) in
    let ei : p * (i / p) ≡ i = omega (arith, div-add-mod i p) in
    elim (dec_le (i / p) (m / p)) [
      | yes le ↦ absurd (omega (arith, mul-le-mul_left p le, em, ei))
      | no above ↦ omega (arith, mul-le-mul_left p (larger above), em, ei, mul_suc p (m / p))
    ]
  where
    larger : ¬ (i / p ≤ m / p) → suc (m / p) ≤ i / p
    larger ne = omega arith

    mul_suc : (a b : ℕ) → a * suc b ≡ a * b + a
    mul_suc a b = omega arith

mod_next : (m p : ℕ) → m % p ≡ 0 → (m + p) % p ≡ 0
mod_next m p h = add-mod_right m p ∙ h

mark_loop-Flags :
    (fuel n p m : ℕ) (flags : List ℕ)
    → 0 < p
    → m % p ≡ 0
    → n < length flags
    → n + 1 - m < fuel
    → Flags
        (λ i. if leb m i && (leb i n && i % p == 0) then 1 else flag_at flags i)
        flags
        (mark_loop fuel n p m flags)
unfolding mark_loop
mark_loop-Flags zero n p m flags hp hm hn hf = absurd (omega arith)
mark_loop-Flags (suc fuel) n p m flags hp hm hn hf = elim (Bool-cases (leb m n)) [
  | inl more ↦
      let rest =
        mark_loop-Flags fuel n p (m + p) (set flags m 1) hp (mod_next m p hm)
          (omega (arith, length-set flags m 1)) (ground arith) in
      record {
        out = rest.out;
        returns = rw (more, mark_loop, write-eq-set flags m 1 (ground arith)) rest.returns;
        same_length = rest.same_length ∙ length-set flags m 1;
        flag = λ i. ground (arith, rest.flag i, flag_at-set flags m 1 i, next_multiple p m i hm);
      }
  | inr done ↦ record {
    out = flags;
    returns = rw (done, mark_loop) refl;
    same_length = refl;
    flag = λ i. ground arith;
  }
]

abbrev pub mark_of : Bool → ℕ
mark_of true = 1
mark_of false = 0

-- Up to n, exactly the numbers crossed out before round p carry the mark.
abbrev pub AreCrossed : ℕ → ℕ → List ℕ → Type 0
AreCrossed n p flags = (i : ℕ) → i ≤ n → flag_at flags i ≡ mark_of (crossed p i)

mod_trans : (i p d : ℕ) → i % p ≡ 0 → p % d ≡ 0 → i % d ≡ 0
mod_trans i p d h k =
    mod-eq-zero_of_dvd d (dvd_trans d (dvd_of_mod-eq-zero d k) (dvd_of_mod-eq-zero p h))

-- A round for a p that is itself crossed out adds nothing.
crossed_again : (p i : ℕ) → 2 ≤ p → crossed p p ≡ true → crossed (suc p) i ≡ crossed p i
unfolding crossed
crossed_again p i h c = elim (Bool-cases (leb (p * p) i && i % p == 0)) [
  | inr n ↦ ground arith
  | inl y ↦
      let (d, lo, hi, s, e) = crossed_elim p p c in
      let square : p * p ≤ i = ground arith in
      let divides : i % p ≡ 0 = ground arith in
      let old : crossed p i ≡ true =
        crossed_intro p i d lo hi (omega (arith, mul-le-mul_left p h))
          (mod_trans i p d divides e) in
      ground arith
]

crossed_new :
    (p i : ℕ)
    → 2 ≤ p
    → (if leb (p * p) i && i % p == 0 then 1 else mark_of (crossed p i))
      ≡ mark_of (crossed (suc p) i)
unfolding crossed
crossed_new p i h = ground arith

-- `result` is a normal return after which the numbers crossed before round p are marked.
pub record Crosses (n p : ℕ) (flags : List ℕ) (result : Option (List ℕ)) : Type 0 where
  pub out : List ℕ
  pub returns : result ≡ some out
  pub same_length : length out ≡ length flags
  pub marks : AreCrossed n p out

sieve_body-Crosses :
    (n p : ℕ) (flags : List ℕ)
    → 2 ≤ p
    → p ≤ n
    → n < length flags
    → AreCrossed n p flags
    → Crosses n (suc p) flags (sieve_body n p flags)
unfolding sieve_body
sieve_body-Crosses n p flags h hp hn marks = elim (Bool-cases (crossed p p)) [
  | inl c ↦ record {
    out = flags;
    returns = rw (get_elem?-get_or flags p 0 (omega arith)) (ground (arith, marks p hp));
    same_length = refl;
    marks = λ i hi. marks i hi ∙ ap mark_of (sym (crossed_again p i h c));
  }
  | inr c ↦
      let rest =
        mark_loop-Flags (n + 1) n p (p * p) flags (omega arith) (mul-mod_left p p) hn
          (omega (arith, mul-le-mul_left p h)) in
      record {
        out = rest.out;
        returns =
            rw (get_elem?-get_or flags p 0 (omega arith))
              (ground (arith, marks p hp, rest.returns));
        same_length = rest.same_length;
        marks = λ i hi. ground (arith, rest.flag i, marks i hi, crossed_new p i h);
      }
]

-- The outer loop ends, at a p whose square has passed n.
pub sieve_loop-Crosses :
    (fuel n p : ℕ) (flags : List ℕ)
    → 2 ≤ p
    → n + 1 - p < fuel
    → n < length flags
    → AreCrossed n p flags
    → (last : ℕ) × (n < last * last) × Crosses n last flags (sieve_loop fuel n p flags)
unfolding sieve_loop
sieve_loop-Crosses zero n p flags h hf hn marks = absurd (omega arith)
sieve_loop-Crosses (suc fuel) n p flags h hf hn marks = elim (Bool-cases (leb (p * p) n)) [
  | inl more ↦
      let small : p ≤ n = ground (arith, mul-le-mul_left p h) in
      let body = sieve_body-Crosses n p flags h small hn marks in
      let (last, square, rest) =
        sieve_loop-Crosses fuel n (suc p) body.out (omega arith) (omega arith)
          (omega (arith, body.same_length)) body.marks in
      (
        last,
        square,
        record {
          out = rest.out;
          returns = rw (more, sieve_loop, body.returns, add-one p) rest.returns;
          same_length = rest.same_length ∙ body.same_length;
          marks = rest.marks;
        },
      )
  | inr done ↦ (
    p,
    ground arith,
    record { out = flags; returns = rw (done, sieve_loop) refl; same_length = refl; marks = marks },
  )
]
