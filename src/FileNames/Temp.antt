-- ===== src/FileNames/Temp.antt =====
-- include/kvstore/file_names.hpp: the names of files that are being written.
use lsm_tree_storage_engine.Prelude.{
  ℕ, List, none, false, ◌<◌, arith, take, true, ap, take-append_eq, ◌≤◌, Bool, ◌-◌, drop, ◌≡◌,
  length-append, Option, ◌∙◌, refl, not, length, leb, ◌++◌, drop-append_eq, if◌then◌else◌,
}
use lsm_tree_storage_engine.Key.{key_eq, key_eq_refl}
use lsm_tree_storage_engine.FileNames.{
  pad_file_id, parse_id_with_suffix, at_least_first, parse_digits, log_file_name, sst_file_name,
  temp_name, temp_suffix, table_suffix, log_suffix, parse_log_file_id, parse_sst_file_id,
  is_own_name, is_temp_name, has_value,
}
use lsm_tree_storage_engine.FileNames.Parsing.{parse_id_with_suffix-pad_file_id}

-- A temporary name is judged by the name in front of its suffix.
is_temp_name-temp_name :
    (stem : List ℕ) → 0 < length stem → is_temp_name (temp_name stem) ≡ is_own_name stem
unfolding is_temp_name
is_temp_name-temp_name stem some_stem =
    let size = length-append stem temp_suffix in
    let longer : leb (length (stem ++ temp_suffix)) 4 ≡ false = ground (arith, size, some_stem) in
    let at : length (stem ++ temp_suffix) - 4 ≡ length stem = omega (arith, size) in
    let same : not (key_eq (drop (length stem) (stem ++ temp_suffix)) temp_suffix) ≡ false =
      ap (λ (t : List ℕ). not (key_eq t temp_suffix))
        (drop-append_eq (length stem) stem temp_suffix refl)
      ∙ ap not (key_eq_refl temp_suffix) in
    ap (λ (c : Bool). by_length c (length (stem ++ temp_suffix) - 4)) longer
    ∙ ap (λ (n : ℕ). by_length false n) at
    ∙ ap (λ (c : Bool). if c then false else is_own_name (take (length stem) (stem ++ temp_suffix)))
        same
    ∙ ap is_own_name (take-append_eq (length stem) stem temp_suffix refl)
  where
    by_length : Bool → ℕ → Bool
    by_length c n =
        if c
        then false
        else if not (key_eq (drop n (stem ++ temp_suffix)) temp_suffix)
        then false
        else is_own_name (take n (stem ++ temp_suffix))

-- A name that ends in another suffix of the same length is not parsed.
parse_id_with_suffix-other :
    (stem suffix : List ℕ)
    → length suffix ≡ 4
    → key_eq temp_suffix suffix ≡ false
    → parse_id_with_suffix (temp_name stem) suffix ≡ none
unfolding parse_id_with_suffix
parse_id_with_suffix-other stem suffix four other =
    let at : length (stem ++ temp_suffix) - length suffix ≡ length stem =
      omega (arith, length-append stem temp_suffix, four) in
    let differs : not (key_eq (drop (length stem) (stem ++ temp_suffix)) suffix) ≡ true =
      ap (λ (t : List ℕ). not (key_eq t suffix))
        (drop-append_eq (length stem) stem temp_suffix refl)
      ∙ ap not other in
    ap
      (λ (n : ℕ).
        by_stem (leb (length (stem ++ temp_suffix)) (length suffix))
          (not (key_eq (drop n (stem ++ temp_suffix)) suffix)) n)
      at
    ∙ ap
        (λ (c : Bool). by_stem (leb (length (stem ++ temp_suffix)) (length suffix)) c (length stem))
        differs
    ∙ either (leb (length (stem ++ temp_suffix)) (length suffix))
  where
    by_stem : Bool → Bool → ℕ → Option ℕ
    by_stem shorter differs n =
        if shorter
        then none
        else if differs
        then none
        else at_least_first (parse_digits 0 (take n (stem ++ temp_suffix)))

    either : (c : Bool) → by_stem c true (length stem) ≡ none
    either true = refl
    either false = refl

-- The temporary name of a table or a data file, of any id of 32 bits but 0, is recognised as one, which
-- recovery may delete, and is not taken for a table or a data file.
pub is_temp_name-file_names :
    (id : ℕ)
    → 1 ≤ id
    → id ≤ 4294967295
    → (is_temp_name (temp_name (sst_file_name id)) ≡ true)
      × (parse_sst_file_id (temp_name (sst_file_name id)) ≡ none)
      × (is_temp_name (temp_name (log_file_name id)) ≡ true)
      × (parse_log_file_id (temp_name (log_file_name id)) ≡ none)
unfolding key_eq
is_temp_name-file_names id first fits =
    let sst : has_value (parse_sst_file_id (sst_file_name id)) ≡ true =
      ap (λ (o : Option ℕ). has_value o)
        (parse_id_with_suffix-pad_file_id id table_suffix first fits) in
    let log : has_value (parse_log_file_id (log_file_name id)) ≡ true =
      ap (λ (o : Option ℕ). has_value o)
        (parse_id_with_suffix-pad_file_id id log_suffix first fits) in
    (
      is_temp_name-temp_name (sst_file_name id)
            (omega (arith, length-append (pad_file_id id) table_suffix))
          ∙ ground (arith, sst),
      parse_id_with_suffix-other (sst_file_name id) table_suffix refl refl,
      is_temp_name-temp_name (log_file_name id)
            (omega (arith, length-append (pad_file_id id) log_suffix))
          ∙ ground (arith, log),
      parse_id_with_suffix-other (log_file_name id) log_suffix refl refl,
    )
