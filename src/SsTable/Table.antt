-- ===== src/SsTable/Table.antt =====
-- src/sstable.cpp, `SSTable`: a table's file opened, its index and filter loaded, and a key looked up.
-- Opening, mapping and closing the file are not modelled; `read_mode_ == ReadMode::Mmap` is the field
-- `mapped`. `std::lower_bound` is the first element that is not below the key, which is what it
-- gives on a range in order.
use lsm_tree_storage_engine.Prelude.{
  ℕ, ok, zero, ltb, ◌*◌, leb, length, take, true, ◌>>=◌, ◌-◌, get_or, invalid_argument, Bool, List,
  not, suc, Option, err, Result, none, corruption, ◌>>◌, io_error, ◌==◌, reject_if, ◌||◌, some, ◌+◌,
  [], false, ◌∷◌, if◌then◌else◌,
}
use lsm_tree_storage_engine.Encoding.{get_u32, get_u64, subspan}
use lsm_tree_storage_engine.SsTable.{
  BlockEntry, IndexEntry, Footer, parse_block, decode_footer, footer_size, block_trailer_size,
}
use lsm_tree_storage_engine.Bloom.{BloomFilter, maybe_contains}
use lsm_tree_storage_engine.Key.{Key, key_lt, key_eq}
use lsm_tree_storage_engine.Crc.{Zlib, crc32_of}
use lsm_tree_storage_engine.Bloom

abbrev pub index_header_size : ℕ
index_header_size = 4

abbrev pub index_entry_fixed_size : ℕ
index_entry_fixed_size = 16

pub record SsTable : Type 0 where
  pub id : ℕ
  pub file : List ℕ
  pub mapped : Bool
  pub bloom_enabled : Bool
  pub footer : Footer
  pub index : List IndexEntry
  pub filter : Option BloomFilter
  pub min_key : Key
  pub max_key : Key

pub data Lookup : Type 0 where
  not_present deleted : Lookup
  found : List ℕ → Lookup

-- What the loop of `LogFile::read_at` (LogFile) comes to on an intact file of these bytes, at offsets
-- below 2^63: a short read is an error, and nothing is read when nothing is asked for.
abbrev pub read_file : List ℕ → ℕ → ℕ → Result (List ℕ)
read_file file offset size =
    if size == 0
    then ok []
    else if ltb (length file) (offset + size)
    then err corruption
    else ok (subspan file offset size)

-- `read_at`, in both read modes.
unfoldable pub read_at : Bool → List ℕ → ℕ → ℕ → Result (List ℕ)
read_at mapped file offset size =
    if mapped
    then (if ltb (length file) offset || ltb (length file - offset) size
        then err corruption
        else ok (subspan file offset size))
    else read_file file offset size

-- The bytes before a crc trailer that fits them.
unfoldable pub check_trailer : Zlib → List ℕ → Result (List ℕ)
check_trailer z raw = do
  let payload_size = length raw - block_trailer_size
  reject_if (not (get_u32 raw payload_size == crc32_of z (take payload_size raw))) corruption
  ok (take payload_size raw)

-- The key does not come behind the last one of the index so far.
abbrev pub not_behind : Option Key → Key → Bool
not_behind none key = false
not_behind (some last) key = not (key_lt last key)

-- One round of `load_index`: the entry, and the position behind it.
unfoldable pub load_entry : List ℕ → ℕ → Option Key → ℕ → Result (IndexEntry × ℕ)
load_entry payload filter_offset last at = do
  reject_if (ltb (length payload - at) index_entry_fixed_size) corruption
  let key_size = get_u32 payload at
  let at = at + 4
  reject_if
      ((key_size == 0)
        || (ltb (length payload - at) key_size || ltb (length payload - at - key_size) 12))
      corruption
  let key = subspan payload at key_size
  let at = at + key_size
  let block_offset = get_u64 payload at
  let at = at + 8
  let block_size = get_u32 payload at
  let at = at + 4
  reject_if
      (ltb block_size block_trailer_size
        || (ltb filter_offset block_offset || ltb (filter_offset - block_offset) block_size))
      corruption
  reject_if (not_behind last key) corruption
  ok (record { key = key; block_offset = block_offset; block_size = block_size }, at)

unfoldable pub load_entries : ℕ → List ℕ → ℕ → Option Key → ℕ → Result (List IndexEntry × ℕ)
load_entries zero payload filter_offset last at = ok ([], at)
load_entries (suc count) payload filter_offset last at = do
  entry ← load_entry payload filter_offset last at
  rest ← load_entries count payload filter_offset (some entry.0.key) entry.1
  ok (entry.0 ∷ rest.0, rest.1)

unfoldable pub load_index : List ℕ → ℕ → Result (List IndexEntry)
load_index payload filter_offset = do
  let count = get_u32 payload 0
  reject_if (ltb (length payload - index_header_size) (count * index_entry_fixed_size)) corruption
  entries ← load_entries count payload filter_offset none index_header_size
  reject_if (not (entries.1 == length payload)) corruption
  ok entries.0

abbrev pub some_filter : Result BloomFilter → Result (Option BloomFilter)
some_filter (err code) = err code
some_filter (ok filter) = ok (some filter)

unfoldable pub load_filter : Zlib → Bool → List ℕ → Footer → Result (Option BloomFilter)
load_filter z mapped file footer =
    if footer.filter_size == 0
    then ok none
    else (read_at mapped file footer.filter_offset footer.filter_size >>= λ bytes.
        some_filter (Bloom.decode z bytes))

-- `parse_block` with its fuel, which does not run out.
abbrev pub parsed : Option (Result (List BlockEntry)) → Result (List BlockEntry)
parsed none = err io_error
parsed (some r) = r

unfoldable pub read_block_raw : Zlib → SsTable → ℕ → Result (List ℕ)
read_block_raw z t block_index = do
  reject_if (leb (length t.index) block_index) invalid_argument
  let entry : IndexEntry =
      get_or t.index block_index (record { key = []; block_offset = 0; block_size = 0 })
  raw ← read_at t.mapped t.file entry.block_offset entry.block_size
  check_trailer z raw

abbrev pub last_index_key : List IndexEntry → Key
last_index_key [] = []
last_index_key (entry ∷ []) = entry.key
last_index_key (_ ∷ entry ∷ index) = last_index_key (entry ∷ index)

abbrev pub first_key : List BlockEntry → Result Key
first_key [] = err corruption
first_key (entry ∷ _) = ok entry.key

-- The end of `load`: the smallest and the largest key.
unfoldable pub load_keys : Zlib → SsTable → Result SsTable
load_keys z t =
    if length t.index == 0
    then (reject_if (not (t.footer.entry_count == 0)) corruption >> ok t)
    else do
      block ← read_block_raw z t 0
      entries ← parsed (parse_block block)
      min_key ← first_key entries
      ok (record t { max_key = last_index_key t.index; min_key = min_key })

-- `load` behind the footer.
unfoldable pub load_regions : Zlib → ℕ → Bool → Bool → List ℕ → Footer → Result SsTable
load_regions z id mapped bloom_enabled file footer = do
  let metadata_start = length file - footer_size
  reject_if
      (ltb metadata_start footer.index_offset
        || ltb (metadata_start - footer.index_offset) footer.index_size)
      corruption
  reject_if
      (ltb metadata_start footer.filter_offset
        || ltb (metadata_start - footer.filter_offset) footer.filter_size)
      corruption
  reject_if (ltb footer.index_size (index_header_size + block_trailer_size)) corruption
  raw ← read_at mapped file footer.index_offset footer.index_size
  payload ← check_trailer z raw
  index ← load_index payload footer.filter_offset
  filter ← load_filter z mapped file footer
  load_keys z (record {
    id = id;
    file = file;
    mapped = mapped;
    bloom_enabled = bloom_enabled;
    footer = footer;
    index = index;
    filter = filter;
    min_key = [];
    max_key = [];
  })

unfoldable pub load : Zlib → ℕ → Bool → Bool → List ℕ → Result SsTable
load z id mapped bloom_enabled file = do
  reject_if (ltb (length file) footer_size) corruption
  footer_bytes ← read_at mapped file (length file - footer_size) footer_size
  footer ← decode_footer z footer_bytes
  load_regions z id mapped bloom_enabled file footer

-- The filter's answer, where there is a filter to ask.
abbrev pub may_hold : Bool → Option BloomFilter → Key → Bool
may_hold enabled none key = true
may_hold enabled (some filter) key = if enabled then maybe_contains filter key else true

-- `std::lower_bound` over the index, counted from a position.
unfoldable pub find_block : ℕ → Key → List IndexEntry → Option ℕ
find_block i key [] = none
find_block i key (entry ∷ index) =
    let rest = find_block (i + 1) key index in if key_lt entry.key key then rest else some i

-- `std::lower_bound` over a block, and what stands there.
unfoldable pub answer_in : Key → List BlockEntry → Lookup
answer_in key [] = not_present
answer_in key (entry ∷ entries) =
    let rest = answer_in key entries in
    if key_lt entry.key key
    then rest
    else if key_eq entry.key key
    then (if entry.tombstone then deleted else found entry.value)
    else not_present

unfoldable pub look_in_block : Zlib → SsTable → Key → Option ℕ → Result Lookup
look_in_block z t key none = ok not_present
look_in_block z t key (some i) = do
  block ← read_block_raw z t i
  entries ← parsed (parse_block block)
  ok (answer_in key entries)

unfoldable pub lookup : Zlib → SsTable → Key → Result Lookup
lookup z t key =
    let searched = look_in_block z t key (find_block 0 key t.index) in
    if length t.index == 0
    then ok not_present
    else if key_lt key t.min_key || key_lt t.max_key key
    then ok not_present
    else if may_hold t.bloom_enabled t.filter key
    then searched
    else ok not_present
