-- ===== src/Tests/Tables.antt =====
-- A sorted table's block and footer at concrete inputs.
use lsm_tree_storage_engine.Prelude.{refl, ◌∷◌, true, arith, false, [], List, ok, some, ◌≡◌}
use lsm_tree_storage_engine.SsTable.{BlockEntry, Footer, parse_block, encode_footer, decode_footer}
use lsm_tree_storage_engine.SsTable.Blocks.{block_of, parse_block-block_of}
use lsm_tree_storage_engine.SsTable.Footers.{decode_footer-encode}
use lsm_tree_storage_engine.Tests.Fixtures.{key_ab, zlib, text_xyz}

abbrev two_entries : List BlockEntry
two_entries =
    record { key = key_ab; value = text_xyz; tombstone = false }
    ∷ record { key = text_xyz; value = []; tombstone = true }
    ∷ []

parse_block-block_of_example : parse_block (block_of [] two_entries) ≡ some (ok two_entries)
parse_block-block_of_example = parse_block-block_of two_entries (
  record { has_key = omega arith; key_u32 = omega arith; value_u32 = omega arith },
  (record { has_key = omega arith; key_u32 = omega arith; value_u32 = omega arith }, tt),
)

abbrev small_footer : Footer
small_footer = record {
  index_offset = 90;
  index_size = 30;
  filter_offset = 60;
  filter_size = 30;
  entry_count = 2;
  format_version = 1;
}

decode_footer-encode_example :
    decode_footer zlib (encode_footer zlib small_footer) ≡ ok small_footer
decode_footer-encode_example = decode_footer-encode zlib small_footer (record {
  index_offset = omega arith;
  index_size = omega arith;
  filter_offset = omega arith;
  filter_size = omega arith;
  entry_count = omega arith;
  version = refl;
})
