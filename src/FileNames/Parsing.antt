-- ===== src/FileNames/Parsing.antt =====
-- include/kvstore/file_names.hpp: a file's name, under the parsers.
use lsm_tree_storage_engine.Prelude.{
  ℕ, List, ◌≤◌, zero, some, ◌-◌, ◌/◌, ◌++◌, ◌∙◌, refl, ◌≡◌, ◌*◌, inr, ap, ◌∷◌, ltb, ◌+◌, inl,
  Bool-cases, [], suc, ◌%◌, ◌<◌, arith, take, not, ltb-false, drop, drop-append_eq, leb, replicate,
  length, lt→ltb, length-append, false, none, Option, take-append_eq, Bool, length-replicate,
  if◌then◌else◌,
}
use lsm_tree_storage_engine.Key.{key_eq, key_eq_refl}
use lsm_tree_storage_engine.FileNames.{
  to_digits, to_string, pad_file_id, parse_digits, at_least_first, parse_id_with_suffix,
}

-- What so many digits can say.
abbrev bound : ℕ → ℕ
bound zero = 1
bound (suc n) = 10 * bound n

parse_digits-snoc :
    (id v d : ℕ) (xs : List ℕ)
    → parse_digits id xs ≡ some v
    → d < 10
    → v * 10 + d ≤ 4294967295
    → parse_digits id (xs ++ (0x30 + d) ∷ []) ≡ some (v * 10 + d)
unfolding parse_digits
parse_digits-snoc id v d [] h small fits = ground (arith, h, small, fits)
parse_digits-snoc id v d (c ∷ xs) h small fits =
    ground (arith, h, small, fits, parse_digits-snoc (id * 10 + (c - 0x30)) v d xs)

parse_digit : (n : ℕ) → n < 10 → parse_digits 0 ((0x30 + n) ∷ []) ≡ some n
unfolding parse_digits
parse_digit n small = ground (arith, small)

parse_digits-to_digits :
    (fuel n : ℕ)
    → n < bound (suc fuel)
    → n ≤ 4294967295
    → parse_digits 0 (to_digits (suc fuel) n) ≡ some n
unfolding to_digits
parse_digits-to_digits zero n h fits =
    rw (lt→ltb n 10 (omega (arith, h))) (parse_digit n (omega (arith, h)))
parse_digits-to_digits (suc fuel) n h fits = elim (Bool-cases (ltb n 10)) [
  | inl one ↦ rw one (parse_digit n (ground (arith, one)))
  | inr more ↦ rw more (
      parse_digits-snoc 0 (n / 10) (n % 10) (to_digits (suc fuel) (n / 10))
        (parse_digits-to_digits fuel (n / 10) (omega (arith, h)) (omega (arith, fits)))
        (omega arith) (omega (arith, fits))
      ∙ ap some (omega arith))
]

parse_digits-zeros :
    (n : ℕ) (digits : List ℕ) → parse_digits 0 (replicate n 0x30 ++ digits) ≡ parse_digits 0 digits
unfolding parse_digits
parse_digits-zeros zero digits = refl
parse_digits-zeros (suc n) digits = parse_digits-zeros n digits

parse_digits-pad_file_id : (id : ℕ) → id ≤ 4294967295 → parse_digits 0 (pad_file_id id) ≡ some id
unfolding pad_file_id
parse_digits-pad_file_id id fits =
    let digits_eq = parse_digits-to_digits 9 id (omega (arith, fits)) fits in
    elim (Bool-cases (ltb (length (to_string id)) 6)) [
      | inl short ↦
          rw short (parse_digits-zeros (6 - length (to_string id)) (to_string id) ∙ digits_eq)
      | inr long ↦ rw long digits_eq
    ]

some_digits : (id : ℕ) → 0 < length (pad_file_id id)
unfolding pad_file_id
some_digits id = elim (Bool-cases (ltb (length (to_string id)) 6)) [
  | inl short ↦ rw short (
      ground (
        arith,
        short,
        length-append (replicate (6 - length (to_string id)) 0x30) (to_string id),
        length-replicate {A = ℕ} (6 - length (to_string id)) 0x30,
      ))
  | inr long ↦ rw long (ground (arith, long))
]

-- A name with a suffix is parsed by what stands in front of it.
parse_id_with_suffix-append :
    (stem suffix : List ℕ)
    → 0 < length stem
    → parse_id_with_suffix (stem ++ suffix) suffix ≡ at_least_first (parse_digits 0 stem)
unfolding parse_id_with_suffix
parse_id_with_suffix-append stem suffix some_stem =
    let size = length-append stem suffix in
    let longer : leb (length (stem ++ suffix)) (length suffix) ≡ false =
      ground (arith, size, some_stem) in
    let at : length (stem ++ suffix) - length suffix ≡ length stem = omega (arith, size) in
    let same : not (key_eq (drop (length stem) (stem ++ suffix)) suffix) ≡ false =
      ap (λ (t : List ℕ). not (key_eq t suffix)) (drop-append_eq (length stem) stem suffix refl)
      ∙ ap not (key_eq_refl suffix) in
    ap (λ (c : Bool). by_length c (length (stem ++ suffix) - length suffix)) longer
    ∙ ap (λ (n : ℕ). by_length false n) at
    ∙ ap
        (λ (c : Bool).
          if c then none else at_least_first (parse_digits 0 (take (length stem) (stem ++ suffix))))
        same
    ∙ ap (λ (t : List ℕ). at_least_first (parse_digits 0 t))
        (take-append_eq (length stem) stem suffix refl)
  where
    by_length : Bool → ℕ → Option ℕ
    by_length c n =
        if c
        then none
        else if not (key_eq (drop n (stem ++ suffix)) suffix)
        then none
        else at_least_first (parse_digits 0 (take n (stem ++ suffix)))

-- A file's name, of any of the engine's suffixes, gives back the id that it was made of, for every id
-- of 32 bits but 0.
pub parse_id_with_suffix-pad_file_id :
    (id : ℕ) (suffix : List ℕ)
    → 1 ≤ id
    → id ≤ 4294967295
    → parse_id_with_suffix (pad_file_id id ++ suffix) suffix ≡ some id
parse_id_with_suffix-pad_file_id id suffix first fits =
    parse_id_with_suffix-append (pad_file_id id) suffix (some_digits id)
    ∙ ap at_least_first (parse_digits-pad_file_id id fits)
    ∙ ap (λ (c : Bool). if c then none else some id) (ltb-false id 1 first)
