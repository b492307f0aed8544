-- ===== src/SsTable/Blocks.antt =====
-- A block's entries, read back.
use native.Mathlib.Nat.{mod-eq_of_lt}
use mathlib.Core.Path.{subst}
use lsm_tree_storage_engine.Prelude.{
  ℕ, reject-pass, reject_if, ◌++◌, ◌≤◌, ◌∙◌, ltb-false, ◌∷◌, [], ap, corruption, List, ◌%◌,
  length-append, arith, zero, append_assoc, true, ◌≡◌, false, Result, ◌==◌, some, append-nil,
  lt→ltb, ok, ◌-◌, suc, refl, ◌+◌, ◌<◌, Bool, All, sym, ltb, ◌^◌, length, if◌then◌else◌, ◌>>◌,
}
use lsm_tree_storage_engine.Encoding.{append_u32, get_u32, IsU32, le32, subspan, byte_at}
use lsm_tree_storage_engine.SsTable.{
  BlockEntry, append_entry, parse_entry, parse_on, parse_loop, parse_block, push,
}
use lsm_tree_storage_engine.Encoding.Cursor.{
  At, At-append_skip, At-skip, get_u32-At, byte_at-At, subspan-At,
}
use lsm_tree_storage_engine.Record.{has_tombstone}
use lsm_tree_storage_engine.Encoding.Layout.{append_u32_lem}

-- What `add` lets into a block: a key, sizes that fit, and no value on a tombstone.
pub record CanAdd (e : BlockEntry) : Type 0 where
  pub has_key : 0 < length e.key
  pub key_u32 : IsU32 (length e.key)
  pub value_u32 : IsU32 (length e.value)

abbrev flag : Bool → ℕ
flag tombstone = if tombstone then 1 else 0

abbrev pub entry_bytes : BlockEntry → List ℕ
entry_bytes e =
    le32 (length e.key) ++ (le32 (length e.value) ++ (flag e.tombstone ∷ e.key ++ e.value))

abbrev pub all_entries : List BlockEntry → List ℕ
all_entries [] = []
all_entries (e ∷ es) = entry_bytes e ++ all_entries es

-- The block that a builder makes of entries.
abbrev pub block_of : List ℕ → List BlockEntry → List ℕ
block_of block [] = block
block_of block (e ∷ es) = block_of (append_entry block e.key e.value e.tombstone) es

pub append_entry-eq :
    (block : List ℕ) (e : BlockEntry)
    → CanAdd e
    → append_entry block e.key e.value e.tombstone ≡ block ++ entry_bytes e
unfolding append_entry
append_entry-eq block e can =
    ap (λ (n : ℕ). with_sizes n (length e.value % 2 ^ 32)) (mod-eq_of_lt can.key_u32)
    ∙ ap (λ (n : ℕ). with_sizes (length e.key) n) (mod-eq_of_lt can.value_u32)
    ∙ simp (append_u32_lem, append_assoc)
  where
    with_sizes : ℕ → ℕ → List ℕ
    with_sizes k v =
        ((append_u32 (append_u32 block k) v ++ flag e.tombstone ∷ []) ++ e.key) ++ e.value

block_of-eq :
    (block : List ℕ) (es : List BlockEntry)
    → All CanAdd es
    → block_of block es ≡ block ++ all_entries es
block_of-eq block [] can = sym (append-nil block)
block_of-eq block (e ∷ es) can =
    ap (λ (b : List ℕ). block_of b es) (append_entry-eq block e can.0)
    ∙ block_of-eq (block ++ entry_bytes e) es can.1
    ∙ append_assoc block (entry_bytes e) (all_entries es)

flag-tombstone : (b : Bool) → has_tombstone (flag b) ≡ b
unfolding has_tombstone
flag-tombstone true = refl
flag-tombstone false = refl

module _ (payload : List ℕ) where
  parse_entry-At :
      (at : ℕ) (e : BlockEntry) (rest : List ℕ)
      → CanAdd e
      → At payload at (
          le32 (length e.key)
          ++ (le32 (length e.value) ++ (flag e.tombstone ∷ e.key ++ (e.value ++ rest))))
      → at + 9 + length e.key + length e.value ≤ length payload
      → parse_entry payload at ≡ ok (e, at + 9 + (length e.key + length e.value))
  unfolding parse_entry
  parse_entry-At at e rest can a room =
      let tail = flag e.tombstone ∷ e.key ++ (e.value ++ rest) in
      let value_at = At-skip 4 a in
      let flag_at = At-skip 8 a in
      let key_at = At-skip 9 a in
      let key_eq = get_u32-At (length e.key) (le32 (length e.value) ++ tail) a can.key_u32 in
      let value_eq = get_u32-At (length e.value) tail value_at can.value_u32 in
      let flags_eq : byte_at payload (at + 8) ≡ flag e.tombstone = byte_at-At flag_at in
      reject-pass _ _ _ (ltb-false (length payload - at) 9 (omega arith)) (
        ap (λ (n : ℕ). with_sizes n (get_u32 payload (at + 4)) (byte_at payload (at + 8))) key_eq
        ∙ ap (λ (n : ℕ). with_sizes (length e.key) n (byte_at payload (at + 8))) value_eq
        ∙ ap (λ (n : ℕ). with_sizes (length e.key) (length e.value) n) flags_eq
        ∙ reject-pass _ _ _
            (ltb-false (length payload - (at + 9)) (length e.key + length e.value) (omega arith))
            (reject-pass (length e.key == 0) _ _ (ground (arith, can.has_key)) (λ i. ok (
              record {
                key = subspan-At e.key (e.value ++ rest) key_at i;
                value = subspan-At e.value rest (At-append_skip e.key (e.value ++ rest) key_at) i;
                tombstone = flag-tombstone e.tombstone i;
              },
              at + 9 + (length e.key + length e.value),
            ))))
    where
      with_sizes : ℕ → ℕ → ℕ → Result (BlockEntry × ℕ)
      with_sizes key_size value_size flags = do
        reject_if (ltb (length payload - (at + 9)) (key_size + value_size)) corruption
        reject_if (key_size == 0) corruption
        ok (
          record {
            key = subspan payload (at + 9) key_size;
            value = subspan payload (at + 9 + key_size) value_size;
            tombstone = has_tombstone flags;
          },
          at + 9 + (key_size + value_size),
        )

  parse_loop-At :
      (fuel at : ℕ) (es : List BlockEntry)
      → All CanAdd es
      → At payload at (all_entries es)
      → at + length (all_entries es) ≡ length payload
      → length (all_entries es) < fuel
      → parse_loop fuel payload at ≡ some (ok es)
  unfolding parse_loop
  parse_loop-At zero at es can a e enough = absurd (omega arith)
  parse_loop-At (suc fuel) at [] can a e enough =
      rw (ltb-false at (length payload) (omega arith)) refl
  parse_loop-At (suc fuel) at (x ∷ es) can a e enough =
      let size = length-append (x.key ++ x.value) (all_entries es) in
      let size' = length-append x.key x.value in
      let next = at + 9 + (length x.key + length x.value) in
      let moved : At payload at (
          le32 (length x.key)
          ++ (le32 (length x.value) ++ (flag x.tombstone ∷ x.key ++ (x.value ++ all_entries es)))) =
        subst (At payload at) (simp append_assoc) a in
      let rest_at : At payload next (all_entries es) =
        subst (λ (n : ℕ). At payload n (all_entries es)) (omega arith)
          (At-append_skip x.value (all_entries es)
            (At-append_skip x.key (x.value ++ all_entries es) (At-skip 9 moved))) in
      rw (lt→ltb at (length payload) (omega (arith, e))) (
        ap (parse_on (parse_loop fuel payload))
          (parse_entry-At at x (all_entries es) can.0 moved (omega (arith, e, size, size')))
        ∙ ap (push x) (
            parse_loop-At fuel next es can.1 rest_at (omega (arith, e, size, size'))
              (omega (arith, enough, size, size'))))

pub parse_block-all_entries :
    (es : List BlockEntry) → All CanAdd es → parse_block (all_entries es) ≡ some (ok es)
unfolding parse_block
parse_block-all_entries es can =
    parse_loop-At (all_entries es) (suc (length (all_entries es))) 0 es can (record { left = refl })
      (omega arith) (omega arith)

-- Entries with keys, of sizes that fit 32 bits, are read back from the block that `append_entry`
-- makes of them, in order.
pub parse_block-block_of :
    (es : List BlockEntry) → All CanAdd es → parse_block (block_of [] es) ≡ some (ok es)
parse_block-block_of es can =
    ap parse_block (block_of-eq [] es can) ∙ parse_block-all_entries es can
