-- ===== src/Femtovg/Png/Stored.antt =====
-- The stream of the PNG against a reader of stored deflate blocks.
use wasm_benchmark.Base.{
  ℕ, zero, suc, ◌+◌, ◌-◌, ◌*◌, ◌/◌, ◌%◌, ◌≤◌, ◌<◌, ◌≡◌, refl, ap, ◌∙◌, arith, List, [], ◌∷◌, ◌++◌,
  Option, none, some, ◌>>=◌, true, false, length, length-drop, length-take, take, drop, leb, ◌==◌,
  ◌&&◌, if◌then◌else◌, All, length_append, take_past, drop_past,
}
use wasm_benchmark.Femtovg.Png.{
  chunks_loop, chunks, stored_block, blocks_loop, zlib, be_bytes, adler_loop,
}
use mathlib.Core.List.{append_assoc, append-nil}

-- One stored block after RFC 1951: its flag, its bytes and what is left; `none` where the length
-- does not match its complement or the bytes are too few.
abbrev pub read_block : List ℕ → Option (ℕ × List ℕ × List ℕ)
read_block (flag ∷ (l ∷ (h ∷ (nl ∷ (nh ∷ rest))))) =
    let size = l + 256 * h in
    if (size + (nl + 256 * nh) == 65535) && leb size (length rest)
    then some (flag, take size rest, drop size rest)
    else none
read_block _ = none

-- All blocks up to the one whose flag is set, and what is left behind it.
pub inflate_stored : ℕ → List ℕ → Option (List ℕ × List ℕ)
inflate_stored zero bytes = none
inflate_stored (suc fuel) bytes = read_block bytes >>= λ (flag, block, rest). elim (flag == 1) [
  | true ↦ some (block, rest)
  | false ↦ inflate_stored fuel rest >>= λ r. some (block ++ r.0, r.1)
]

abbrev pub concat_all : List (List ℕ) → List ℕ
concat_all [] = []
concat_all (b ∷ bs) = b ++ concat_all bs

read_block-stored_block :
    (flag : ℕ) (block rest : List ℕ)
    → length block ≤ 65535
    → read_block (stored_block flag block ++ rest) ≡ some (flag, block, rest)
unfolding stored_block
read_block-stored_block flag block rest h =
    let n : ℕ = length block in
    let size : n % 65536 % 256 + 256 * (n % 65536 / 256 % 256) ≡ n = omega arith in
    let complement : (65535 - n % 65536) % 256 + 256 * ((65535 - n % 65536) / 256 % 256)
        ≡ 65535 - n =
      omega arith in
    let sum : (n + (65535 - n) == 65535) ≡ true = ground arith in
    let fits : leb n (length (block ++ rest)) ≡ true = ground (arith, length_append block rest) in
    rw (size, complement, sum, fits, take_past block rest, drop_past block rest) refl

-- The pieces fit their 16 bits.
abbrev pub IsBlock : List ℕ → Type 0
IsBlock block = length block ≤ 65535

last_block :
    (fuel : ℕ) (block rest : List ℕ)
    → IsBlock block
    → inflate_stored (suc fuel) (stored_block 1 block ++ rest) ≡ some (block, rest)
unfolding inflate_stored
last_block fuel block rest h = rw (read_block-stored_block 1 block rest h) refl

further_block :
    (fuel : ℕ) (block rest : List ℕ)
    → IsBlock block
    → inflate_stored (suc fuel) (stored_block 0 block ++ rest)
      ≡ (inflate_stored fuel rest >>= λ r. some (block ++ r.0, r.1))
unfolding inflate_stored
further_block fuel block rest h = rw (read_block-stored_block 0 block rest h) refl

inflate_stored-blocks_loop :
    (blocks : List (List ℕ)) (i total fuel : ℕ) (rest : List ℕ)
    → i + length blocks ≡ total
    → 0 < length blocks
    → length blocks ≤ fuel
    → All IsBlock blocks
    → inflate_stored fuel (blocks_loop i total blocks ++ rest) ≡ some (concat_all blocks, rest)
unfolding blocks_loop
inflate_stored-blocks_loop [] i total fuel rest e h hf hb = absurd (omega arith)
inflate_stored-blocks_loop (b ∷ bs) i total zero rest e h hf hb = absurd (omega arith)
inflate_stored-blocks_loop (b ∷ []) i total (suc fuel) rest e h hf (hb, hbs) =
    let flag : (i + 1 == total) ≡ true = ground arith in
    rw (flag, append-nil (stored_block 1 b), append-nil b) (last_block fuel b rest hb)
inflate_stored-blocks_loop (b ∷ (c ∷ bs)) i total (suc fuel) rest e h hf (hb, hbs) =
    let flag : (i + 1 == total) ≡ false = ground arith in
    let behind = blocks_loop (i + 1) total (c ∷ bs) in
    rw (flag, append_assoc (stored_block 0 b) behind rest)
      (further_block fuel b (behind ++ rest) hb
        ∙ ap (λ m. m >>= λ r. some (b ++ r.0, r.1))
            (inflate_stored-blocks_loop (c ∷ bs) (i + 1) total fuel rest (omega arith) (omega arith)
              (omega arith) hbs))

-- The pieces of a list are its bytes in order, each short enough.
take-drop : (k : ℕ) (xs : List ℕ) → take k xs ++ drop k xs ≡ xs
take-drop zero xs = refl
take-drop (suc k) [] = refl
take-drop (suc k) (x ∷ xs) = ap (λ (l : List ℕ). x ∷ l) (take-drop k xs)

concat_all-chunks_loop :
    (fuel k : ℕ) (xs : List ℕ) → length xs ≤ fuel → 0 < k → concat_all (chunks_loop fuel k xs) ≡ xs
unfolding chunks_loop
concat_all-chunks_loop zero k [] h hk = refl
concat_all-chunks_loop zero k (x ∷ xs) h hk = absurd (omega arith)
concat_all-chunks_loop (suc fuel) k [] h hk = refl
concat_all-chunks_loop (suc fuel) k (x ∷ xs) h hk =
    ap (λ (l : List ℕ). take k (x ∷ xs) ++ l)
      (concat_all-chunks_loop fuel k (drop k (x ∷ xs)) (omega (arith, length-drop k (x ∷ xs))) hk)
    ∙ take-drop k (x ∷ xs)

chunks_loop_short : (fuel k : ℕ) (xs : List ℕ) → All (λ b. length b ≤ k) (chunks_loop fuel k xs)
unfolding chunks_loop
chunks_loop_short zero k xs = tt
chunks_loop_short (suc fuel) k [] = tt
chunks_loop_short (suc fuel) k (x ∷ xs) =
    (omega (arith, length-take k (x ∷ xs)), chunks_loop_short fuel k (drop k (x ∷ xs)))

length-chunks_loop : (fuel k : ℕ) (xs : List ℕ) → length (chunks_loop fuel k xs) ≤ fuel
unfolding chunks_loop
length-chunks_loop zero k xs = omega arith
length-chunks_loop (suc fuel) k [] = omega arith
length-chunks_loop (suc fuel) k (x ∷ xs) =
    omega (arith, length-chunks_loop fuel k (drop k (x ∷ xs)))

chunks_some : (k : ℕ) (xs : List ℕ) → 0 < length xs → 0 < length (chunks k xs)
unfolding chunks chunks_loop
chunks_some k [] h = h
chunks_some k (x ∷ xs) h = omega arith

-- The stream of any bytes but none is, behind its two bytes of header, a row of stored blocks
-- with the flag on the last alone that hold these bytes, and then the Adler-32 of them.
pub zlib-inflate_stored :
    (raw : List ℕ)
    → 0 < length raw
    → inflate_stored (length raw) (drop 2 (zlib raw)) ≡ some (raw, be_bytes (adler_loop raw 1 0))
unfolding zlib chunks
zlib-inflate_stored raw h =
    let blocks = chunks 65535 raw in
    inflate_stored-blocks_loop blocks 0 (length blocks) (length raw) (be_bytes (adler_loop raw 1 0))
      (omega arith) (chunks_some 65535 raw h) (length-chunks_loop (length raw) 65535 raw)
      (chunks_loop_short (length raw) 65535 raw)
    ∙ ap (λ (l : List ℕ). some (l, be_bytes (adler_loop raw 1 0)))
        (concat_all-chunks_loop (length raw) 65535 raw (omega arith) (omega arith))
