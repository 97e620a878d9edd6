-- ===== src/Femtovg/Png/Runs.antt =====
-- The PNG writer on small input, and its theorems there.
use wasm_benchmark.Base.{ℕ, ◌≡◌, refl, arith, List, [], ◌∷◌, some, drop}
use wasm_benchmark.Femtovg.Png.{be_bytes, zlib, adler_loop, raw_rows, rows_loop}
use wasm_benchmark.Femtovg.Png.Stored.{inflate_stored, zlib-inflate_stored}

abbrev four_bytes : List ℕ
four_bytes = 255 ∷ 128 ∷ 0 ∷ 255 ∷ []

-- One row of one pixel; the bytes of a part of a row are dropped.
one_row : raw_rows 1 (255 ∷ 128 ∷ 0 ∷ 255 ∷ 9 ∷ []) ≡ 0 ∷ four_bytes
unfolding raw_rows rows_loop
one_row = refl

zlib-inflate_stored_example :
    inflate_stored 4 (drop 2 (zlib four_bytes))
    ≡ some (four_bytes, be_bytes (adler_loop four_bytes 1 0))
zlib-inflate_stored_example = zlib-inflate_stored four_bytes (omega arith)
