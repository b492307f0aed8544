-- ===== src/FileNames.antt =====
-- include/kvstore/file_names.hpp: the names of the engine's files. A name is the list of its character
-- codes; `std::to_string` is the decimal digits of a number.
pub mod Parsing
pub mod Temp
use lsm_tree_storage_engine.Prelude.{
  ℕ, List, zero, some, length, ltb, ◌||◌, Bool, ◌-◌, ◌++◌, drop, take, [], suc, Option, true, ◌/◌,
  not, ◌∷◌, none, replicate, ◌*◌, ◌+◌, leb, false, ◌%◌, if◌then◌else◌,
}
use lsm_tree_storage_engine.Key.{key_eq}

abbrev pub log_suffix : List ℕ
log_suffix = 0x2e ∷ 0x6c ∷ 0x6f ∷ 0x67 ∷ []

abbrev pub hint_suffix : List ℕ
hint_suffix = 0x2e ∷ 0x68 ∷ 0x69 ∷ 0x6e ∷ 0x74 ∷ []

abbrev pub table_suffix : List ℕ
table_suffix = 0x2e ∷ 0x73 ∷ 0x73 ∷ 0x74 ∷ []

abbrev pub wal_suffix : List ℕ
wal_suffix = 0x2e ∷ 0x77 ∷ 0x61 ∷ 0x6c ∷ []

abbrev pub temp_suffix : List ℕ
temp_suffix = 0x2e ∷ 0x74 ∷ 0x6d ∷ 0x70 ∷ []

-- "MANIFEST".
abbrev pub manifest_name : List ℕ
manifest_name = 0x4d ∷ 0x41 ∷ 0x4e ∷ 0x49 ∷ 0x46 ∷ 0x45 ∷ 0x53 ∷ 0x54 ∷ []

abbrev pub file_id_digits : ℕ
file_id_digits = 6

-- `std::to_string`; ten digits hold 32 bits.
unfoldable pub to_digits : ℕ → ℕ → List ℕ
to_digits zero n = []
to_digits (suc fuel) n =
    let front = to_digits fuel (n / 10) in
    if ltb n 10 then (0x30 + n) ∷ [] else front ++ (0x30 + n % 10) ∷ []

abbrev pub to_string : ℕ → List ℕ
to_string n = to_digits 10 n

unfoldable pub pad_file_id : ℕ → List ℕ
pad_file_id id =
    let digits = to_string id in
    if ltb (length digits) file_id_digits
    then replicate (file_id_digits - length digits) 0x30 ++ digits
    else digits

-- The loop over the digits.
unfoldable pub parse_digits : ℕ → List ℕ → Option ℕ
parse_digits id [] = some id
parse_digits id (c ∷ digits) =
    let next = id * 10 + (c - 0x30) in
    let rest = parse_digits next digits in
    if ltb c 0x30 || ltb 0x39 c then none else if ltb 4294967295 next then none else rest

abbrev pub at_least_first : Option ℕ → Option ℕ
at_least_first none = none
at_least_first (some id) = if ltb id 1 then none else some id

unfoldable pub parse_id_with_suffix : List ℕ → List ℕ → Option ℕ
parse_id_with_suffix filename suffix =
    let stem = length filename - length suffix in
    let parsed = at_least_first (parse_digits 0 (take stem filename)) in
    if leb (length filename) (length suffix)
    then none
    else if not (key_eq (drop stem filename) suffix)
    then none
    else parsed

abbrev pub log_file_name : ℕ → List ℕ
log_file_name id = pad_file_id id ++ log_suffix

abbrev pub hint_file_name : ℕ → List ℕ
hint_file_name id = pad_file_id id ++ hint_suffix

abbrev pub sst_file_name : ℕ → List ℕ
sst_file_name id = pad_file_id id ++ table_suffix

abbrev pub wal_file_name : ℕ → List ℕ
wal_file_name id = pad_file_id id ++ wal_suffix

abbrev pub temp_name : List ℕ → List ℕ
temp_name final_name = final_name ++ temp_suffix

abbrev pub parse_log_file_id : List ℕ → Option ℕ
parse_log_file_id filename = parse_id_with_suffix filename log_suffix

abbrev pub parse_hint_file_id : List ℕ → Option ℕ
parse_hint_file_id filename = parse_id_with_suffix filename hint_suffix

abbrev pub parse_sst_file_id : List ℕ → Option ℕ
parse_sst_file_id filename = parse_id_with_suffix filename table_suffix

abbrev pub parse_wal_file_id : List ℕ → Option ℕ
parse_wal_file_id filename = parse_id_with_suffix filename wal_suffix

abbrev pub has_value {ℓ} : {A : Type ℓ} → Option A → Bool
has_value none = false
has_value (some _) = true

-- One of the engine's own names.
abbrev pub is_own_name : List ℕ → Bool
is_own_name stem =
    key_eq stem manifest_name
    || (has_value (parse_log_file_id stem)
        || (has_value (parse_hint_file_id stem)
            || (has_value (parse_sst_file_id stem) || has_value (parse_wal_file_id stem))))

unfoldable pub is_temp_name : List ℕ → Bool
is_temp_name filename =
    let stem = length filename - length temp_suffix in
    let own = is_own_name (take stem filename) in
    if leb (length filename) (length temp_suffix)
    then false
    else if not (key_eq (drop stem filename) temp_suffix)
    then false
    else own
