-- ===== src/Tests/Names.antt =====
-- File names at concrete inputs.
use lsm_tree_storage_engine.Prelude.{none, ◌∷◌, some, ◌≡◌, arith, refl, [], true, ◌++◌}
use lsm_tree_storage_engine.FileNames.{
  to_digits, pad_file_id, parse_id_with_suffix, wal_suffix, sst_file_name, log_file_name, temp_name,
  is_temp_name, parse_sst_file_id, parse_log_file_id,
}
use lsm_tree_storage_engine.FileNames.Parsing.{parse_id_with_suffix-pad_file_id}
use lsm_tree_storage_engine.FileNames.Temp.{is_temp_name-file_names}

-- "000042.sst".
name_42 :
    sst_file_name 42 ≡ 0x30 ∷ 0x30 ∷ 0x30 ∷ 0x30 ∷ 0x34 ∷ 0x32 ∷ 0x2e ∷ 0x73 ∷ 0x73 ∷ 0x74 ∷ []
unfolding pad_file_id to_digits
name_42 = refl

parse_id_with_suffix-pad_file_id_example :
    parse_id_with_suffix (pad_file_id 1234567 ++ wal_suffix) wal_suffix ≡ some 1234567
parse_id_with_suffix-pad_file_id_example =
    parse_id_with_suffix-pad_file_id 1234567 wal_suffix (omega arith) (omega arith)

is_temp_name-file_names_example :
    (is_temp_name (temp_name (sst_file_name 42)) ≡ true)
    × (parse_sst_file_id (temp_name (sst_file_name 42)) ≡ none)
    × (is_temp_name (temp_name (log_file_name 42)) ≡ true)
    × (parse_log_file_id (temp_name (log_file_name 42)) ≡ none)
is_temp_name-file_names_example = is_temp_name-file_names 42 (omega arith) (omega arith)
