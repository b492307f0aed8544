-- ===== src/LogFile/Reads.antt =====
-- src/log_file.cpp: what the loop of `read_at` reads, over any `pread` that keeps its word.
use native.Mathlib.Decide.{dec_lt}
use lsm_tree_storage_engine.Prelude.{
  ℕ, List, Option, some, ok, err, Result, corruption, io_error, length, take, drop, ◌++◌, ◌≡◌, ◌∙◌,
  ap, sym, arith, zero, suc, ◌<◌, ◌≤◌, ◌+◌, ◌-◌, ◌^◌, [], ◌∷◌, append-nil, append_assoc,
  length-take, length-drop, if◌then◌else◌, ◌==◌, Bool, false, true,
}
use lsm_tree_storage_engine.LogFile.{read_loop}

-- `pread` on a regular file that holds `content`, at an offset that fits its type and with no fault of
-- the device: some of the bytes asked for, from the offset on, and one at least where there is one.
pub record IsPread (content : List ℕ) (pread : ℕ → ℕ → Result (List ℕ)) : Type 0 where
  pub count : ℕ → ℕ → ℕ
  pub gives :
      (want at : ℕ) → at < 2 ^ 63 → pread want at ≡ ok (take (count want at) (drop at content))
  pub bounded : (want at : ℕ) → count want at ≤ want
  pub some_bytes : (want at : ℕ) → 0 < want → at < length content → 0 < count want at

take-split : (n m : ℕ) (xs : List ℕ) → take n xs ++ take m (drop n xs) ≡ take (n + m) xs
take-split zero m xs = let same : m ≡ zero + m = omega arith in ap (λ (k : ℕ). take k xs) same
take-split (suc n) zero [] =
    let same : suc n ≡ suc n + zero = omega arith in ap (λ (k : ℕ). take k []) same
take-split (suc n) (suc m) [] = ap (λ (k : ℕ). take k []) (moved n (suc m))
  where
    moved : (n m : ℕ) → suc (n + m) ≡ suc n + m
    moved n m = omega arith
take-split (suc n) m (x ∷ xs) =
    ap (λ ys. x ∷ ys) (take-split n m xs) ∙ ap (λ (k : ℕ). take k (x ∷ xs)) (moved n m)
  where
    moved : (n m : ℕ) → suc (n + m) ≡ suc n + m
    moved n m = omega arith

drop-drop : (at n : ℕ) (xs : List ℕ) → drop (at + n) xs ≡ drop n (drop at xs)
drop-drop zero n xs = let same : zero + n ≡ n = omega arith in ap (λ (k : ℕ). drop k xs) same
drop-drop (suc at) zero [] =
    let same : suc at + zero ≡ suc at = omega arith in ap (λ (k : ℕ). drop k []) same
drop-drop (suc at) (suc n) [] = ap (λ (k : ℕ). drop k []) (moved at (suc n))
  where
    moved : (n m : ℕ) → suc n + m ≡ suc (n + m)
    moved n m = omega arith
drop-drop (suc at) n (x ∷ xs) = ap (λ (k : ℕ). drop k (x ∷ xs)) (moved at n) ∙ drop-drop at n xs
  where
    moved : (n m : ℕ) → suc n + m ≡ suc (n + m)
    moved n m = omega arith

module _ (content : List ℕ) (pread : ℕ → ℕ → Result (List ℕ)) (word : IsPread content pread) where
  -- One round, by what `pread` gives.
  abbrev round : ℕ → ℕ → ℕ → List ℕ → Result (List ℕ) → Option (Result (List ℕ))
  round fuel left at buf r = elim r [
    | err _ ↦ some (err io_error)
    | ok chunk ↦
        let rest = read_loop pread fuel (left - length chunk) (at + length chunk) (buf ++ chunk) in
        if length chunk == 0 then some (err corruption) else rest
  ]

  read_loop-round :
      (fuel left at : ℕ) (buf : List ℕ)
      → 0 < left
      → at < 2 ^ 63
      → read_loop pread (suc fuel) left at buf
        ≡ round fuel left at buf (ok (take (word.count left at) (drop at content)))
  unfolding read_loop
  read_loop-round fuel left at buf some_left inside =
      let more : (left == 0) ≡ false = ground (arith, some_left) in
      ap (λ (c : Bool). if c then some (ok buf) else round fuel left at buf (pread left at)) more
      ∙ ap (round fuel left at buf) (word.gives left at inside)

  round-more :
      (fuel left at : ℕ) (buf chunk : List ℕ)
      → 0 < length chunk
      → round fuel left at buf (ok chunk)
        ≡ read_loop pread fuel (left - length chunk) (at + length chunk) (buf ++ chunk)
  round-more fuel left at buf chunk some_chunk =
      let more : (length chunk == 0) ≡ false = ground (arith, some_chunk) in
      ap
        (λ (c : Bool).
          if c
          then some (err corruption)
          else read_loop pread fuel (left - length chunk) (at + length chunk) (buf ++ chunk))
        more

  round-end :
      (fuel left at : ℕ) (buf chunk : List ℕ)
      → length chunk ≡ 0
      → round fuel left at buf (ok chunk) ≡ some (err corruption)
  round-end fuel left at buf chunk nothing =
      let end : (length chunk == 0) ≡ true = ground (arith, nothing) in
      ap
        (λ (c : Bool).
          if c
          then some (err corruption)
          else read_loop pread fuel (left - length chunk) (at + length chunk) (buf ++ chunk))
        end

  abbrev chunk_of : ℕ → ℕ → List ℕ
  chunk_of left at = take (word.count left at) (drop at content)

  chunk_of-split :
      (left at : ℕ)
      → length (chunk_of left at) ≡ word.count left at
      → chunk_of left at
          ++ take (left - length (chunk_of left at)) (drop (at + length (chunk_of left at)) content)
        ≡ take left (drop at content)
  chunk_of-split left at full =
      let n = word.count left at in
      ap (λ (k : ℕ). chunk_of left at ++ take (left - k) (drop (at + k) content)) full
      ∙ ap (λ ys. chunk_of left at ++ take (left - n) ys) (drop-drop at n content)
      ∙ take-split n (left - n) (drop at content)
      ∙ ap (λ (k : ℕ). take k (drop at content)) (omega (arith, word.bounded left at))

  pub read_loop-inside :
      (fuel left at : ℕ) (buf : List ℕ)
      → left < fuel
      → at + left ≤ length content
      → at + left < 2 ^ 63
      → read_loop pread fuel left at buf ≡ some (ok (buf ++ take left (drop at content)))
  unfolding read_loop
  read_loop-inside zero left at buf enough inside fits = absurd (omega (arith, enough))
  read_loop-inside (suc fuel) zero at buf enough inside fits =
      ap (λ bytes. some (ok bytes)) (sym (append-nil buf))
  read_loop-inside (suc fuel) (suc k) at buf enough inside fits =
      let left = suc k in
      let chunk = chunk_of left at in
      let some_chunk : 0 < word.count left at =
        word.some_bytes left at (omega arith) (omega (arith, inside)) in
      let full : length chunk ≡ word.count left at = omega (
        arith,
        length-take (word.count left at) (drop at content),
        length-drop at content,
        word.bounded left at,
        inside,
      ) in
      read_loop-round fuel left at buf (omega arith) (omega (arith, fits))
      ∙ round-more fuel left at buf chunk (omega (arith, full, some_chunk))
      ∙ read_loop-inside fuel (left - length chunk) (at + length chunk) (buf ++ chunk)
          (omega (arith, full, some_chunk, enough))
          (omega (arith, full, word.bounded left at, inside))
          (omega (arith, full, word.bounded left at, fits))
      ∙ ap (λ bytes. some (ok bytes))
          (append_assoc buf chunk _ ∙ ap (λ ys. buf ++ ys) (chunk_of-split left at full))

  pub read_loop-short :
      (fuel left at : ℕ) (buf : List ℕ)
      → 0 < left
      → left < fuel
      → length content < at + left
      → at + left < 2 ^ 63
      → read_loop pread fuel left at buf ≡ some (err corruption)
  read_loop-short zero left at buf some_left enough short fits = absurd (omega (arith, enough))
  read_loop-short (suc fuel) left at buf some_left enough short fits =
      let chunk = chunk_of left at in
      let size = length-take (word.count left at) (drop at content) in
      let behind = length-drop at content in
      read_loop-round fuel left at buf some_left (omega (arith, fits, some_left))
      ∙ elim (dec_lt 0 (length chunk)) [
        | yes some_chunk ↦
            let less : length chunk < left =
              omega (arith, size, behind, word.bounded left at, short, some_chunk) in
            round-more fuel left at buf chunk some_chunk
            ∙ read_loop-short fuel (left - length chunk) (at + length chunk) (buf ++ chunk)
                (omega (arith, less)) (omega (arith, less, some_chunk, enough))
                (omega (arith, less, short)) (omega (arith, less, fits))
        | no none_left ↦ round-end fuel left at buf chunk (omega (arith, none_left))
      ]
