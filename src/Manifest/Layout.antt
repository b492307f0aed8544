-- ===== src/Manifest/Layout.antt =====
-- The manifest's bytes, as one list.
use native.Mathlib.Nat.{mod-eq_of_lt}
use lsm_tree_storage_engine.Prelude.{
  ℕ, [], ◌≡◌, ◌∷◌, List, arith, append_assoc, length-append, ◌≤◌, ◌++◌, ◌+◌, ◌∙◌, append-nil, ap,
  false, length, sym, All, ◌*◌,
}
use lsm_tree_storage_engine.Manifest.{
  TableMeta, LevelSet, append_string, encode_table, encode_tables, encode_levels, encode, magic,
}
use lsm_tree_storage_engine.Encoding.{le32, IsU32, append_u32, IsU64, le64}
use lsm_tree_storage_engine.Crc.{Zlib, crc32_of}
use lsm_tree_storage_engine.Key.{Key, key_lt}
use lsm_tree_storage_engine.Encoding.Layout.{append_u32_lem, append_u64_lem}

abbrev pub string_bytes : Key → List ℕ
string_bytes s = le32 (length s) ++ s

abbrev pub table_bytes : TableMeta → List ℕ
table_bytes t =
    le32 t.id
    ++ (le64 t.file_size
        ++ (le64 t.entry_count ++ (string_bytes t.min_key ++ string_bytes t.max_key)))

abbrev pub all_tables : List TableMeta → List ℕ
all_tables [] = []
all_tables (t ∷ tables) = table_bytes t ++ all_tables tables

abbrev pub one_level : List TableMeta → List ℕ
one_level level = le32 (length level) ++ all_tables level

abbrev pub all_levels : List (List TableMeta) → List ℕ
all_levels [] = []
all_levels (level ∷ levels) = one_level level ++ all_levels levels

-- What the fields of a table's entry hold, and what `decode` asks of it.
pub record CanName (t : TableMeta) : Type 0 where
  pub has_id : 1 ≤ t.id
  pub id_u32 : IsU32 t.id
  pub size_u64 : IsU64 t.file_size
  pub count_u64 : IsU64 t.entry_count
  pub min_u32 : IsU32 (length t.min_key)
  pub max_u32 : IsU32 (length t.max_key)
  pub ordered : key_lt t.max_key t.min_key ≡ false

abbrev pub CanList : List TableMeta → Type 0
CanList level = IsU32 (length level) × All CanName level

pub record CanStore (s : LevelSet) : Type 0 where
  pub next_u32 : IsU32 s.next_id
  pub count_u32 : IsU32 (length s.levels)
  pub named : All CanList s.levels

append_string-eq : (out s : List ℕ) → IsU32 (length s) → append_string out s ≡ out ++ string_bytes s
unfolding append_string
append_string-eq out s h =
    ap (λ (n : ℕ). append_u32 out n ++ s) (mod-eq_of_lt h)
    ∙ ap (λ (t : List ℕ). t ++ s) (append_u32_lem out (length s))
    ∙ append_assoc out (le32 (length s)) s

encode_table-eq :
    (out : List ℕ) (t : TableMeta) → CanName t → encode_table out t ≡ out ++ table_bytes t
unfolding encode_table
encode_table-eq out t can =
    append_string-eq _ t.max_key can.max_u32
    ∙ ap (λ (o : List ℕ). o ++ string_bytes t.max_key) (append_string-eq _ t.min_key can.min_u32)
    ∙ simp (append_u32_lem, append_u64_lem, append_assoc)

encode_tables-eq :
    (out : List ℕ) (tables : List TableMeta)
    → All CanName tables
    → encode_tables out tables ≡ out ++ all_tables tables
unfolding encode_tables
encode_tables-eq out [] h = sym (append-nil out)
encode_tables-eq out (t ∷ tables) h =
    ap (λ (o : List ℕ). encode_tables o tables) (encode_table-eq out t h.0)
    ∙ encode_tables-eq (out ++ table_bytes t) tables h.1
    ∙ append_assoc out (table_bytes t) (all_tables tables)

encode_levels-eq :
    (out : List ℕ) (levels : List (List TableMeta))
    → All CanList levels
    → encode_levels out levels ≡ out ++ all_levels levels
unfolding encode_levels
encode_levels-eq out [] h = sym (append-nil out)
encode_levels-eq out (level ∷ levels) h =
    ap (λ (o : List ℕ). encode_levels (encode_tables o level) levels)
      (ap (append_u32 out) (mod-eq_of_lt h.0.0) ∙ append_u32_lem out (length level))
    ∙ ap (λ (o : List ℕ). encode_levels o levels)
        (encode_tables-eq (out ++ le32 (length level)) level h.0.1
          ∙ append_assoc out (le32 (length level)) (all_tables level))
    ∙ encode_levels-eq (out ++ one_level level) levels h.1
    ∙ append_assoc out (one_level level) (all_levels levels)

-- Everything but the crc.
abbrev pub payload : LevelSet → List ℕ
payload s = magic ++ (le32 1 ++ (le32 s.next_id ++ (le32 (length s.levels) ++ all_levels s.levels)))

pub encode-eq :
    (z : Zlib) (s : LevelSet) → CanStore s → encode z s ≡ payload s ++ le32 (crc32_of z (payload s))
unfolding encode
encode-eq z s can =
    ap
      (λ (n : ℕ).
        closed (encode_levels (append_u32 (append_u32 (append_u32 magic 1) s.next_id) n) s.levels))
      (mod-eq_of_lt can.count_u32)
    ∙ ap closed (
        ap (λ (o : List ℕ). encode_levels o s.levels) (simp append_u32_lem)
        ∙ encode_levels-eq (magic ++ (le32 1 ++ (le32 s.next_id ++ le32 (length s.levels))))
            s.levels can.named)
    ∙ append_u32_lem (payload s) (crc32_of z (payload s))
  where
    closed : List ℕ → List ℕ
    closed out = append_u32 out (crc32_of z out)

pub length-table_bytes :
    (t : TableMeta) → length (table_bytes t) ≡ 28 + length t.min_key + length t.max_key
length-table_bytes t = omega (arith, length-append t.min_key (string_bytes t.max_key))

pub length-all_tables : (tables : List TableMeta) → length tables * 28 ≤ length (all_tables tables)
length-all_tables [] = omega arith
length-all_tables (t ∷ tables) = omega (
  arith,
  length-append (table_bytes t) (all_tables tables),
  length-table_bytes t,
  length-all_tables tables,
)

pub length-all_levels :
    (levels : List (List TableMeta)) → length levels * 4 ≤ length (all_levels levels)
length-all_levels [] = omega arith
length-all_levels (level ∷ levels) =
    omega (arith, length-append (one_level level) (all_levels levels), length-all_levels levels)
