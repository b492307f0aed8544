-- ===== src/LogScan/Total.antt =====
-- src/log_scan.cpp: the fuel of the scan.
use lsm_tree_storage_engine.Prelude.{
  ℕ, ◌≡◌, Status, ◌≤◌, suc, ok, arith, zero, some, List, Result, ◌+◌, ◌<◌, inl, ltb, Result-cases,
  err, Bool-cases, inr,
}
use lsm_tree_storage_engine.Crc.{Zlib}
use lsm_tree_storage_engine.Record.{Record, header_size}
use lsm_tree_storage_engine.LogScan.{DataFile, read_record, scan_loop, scan_records}

read_record-inside :
    (z : Zlib) (file : DataFile) (offset total : ℕ) (rec : Record) (bytes : List ℕ)
    → read_record z file offset ≡ ok (total, rec, bytes)
    → (header_size ≤ total) × (offset + total ≤ file.size)
unfolding read_record
read_record-inside z file offset total rec bytes h = ground arith

module _ (z : Zlib) (file : DataFile) {S : Type 0}
    (visit : ℕ → Record → List ℕ → S → S × Status) where
  -- The round at `offset`, when the rounds that follow end.
  round-total :
      (fuel offset good_end : ℕ) (s : S)
      → ((total : ℕ) (s' : S)
          → header_size ≤ total
          → offset + total ≤ file.size
          → (r : S × Result ℕ) × (scan_loop z file visit fuel (offset + total) (offset + total) s'
              ≡ some r))
      → (r : S × Result ℕ) × (scan_loop z file visit (suc fuel) offset good_end s ≡ some r)
  unfolding scan_loop
  round-total fuel offset good_end s next =
      elim (Bool-cases (ltb file.size (offset + header_size))) [
        | inl short ↦ ((s, ok good_end), rw short)
        | inr long ↦ elim (Result-cases (read_record z file offset)) [
          | inr (e, bad) ↦ ((s, ok good_end), rw (long, bad))
          | inl ((total, rec, bytes), good) ↦
              let (low, high) = read_record-inside z file offset total rec bytes good in
              let (s', status) = visit offset rec bytes s in
              elim (Result-cases status) [
                | inr (e, failed) ↦ ((s', err e), rw (long, good, failed))
                | inl (_, passed) ↦
                    let (r, ends) = next total s' low high in (r, rw (long, good, passed) ends)
              ]
        ]
      ]

  scan_loop-total :
      (fuel offset good_end : ℕ) (s : S)
      → file.size < fuel + offset
      → offset ≤ file.size
      → (r : S × Result ℕ) × (scan_loop z file visit fuel offset good_end s ≡ some r)
  scan_loop-total zero offset good_end s h inside = absurd (omega arith)
  scan_loop-total (suc fuel) offset good_end s h inside =
      round-total fuel offset good_end s (λ total s' low high.
        scan_loop-total fuel (offset + total) (offset + total) s' (omega arith) high)

  -- The scan returns on every file, intact or not, and whatever the visitor answers.
  pub scan_records-total : (s : S) → (r : S × Result ℕ) × (scan_records z file visit s ≡ some r)
  unfolding scan_records
  scan_records-total s = scan_loop-total (suc file.size) 0 0 s (omega arith) (omega arith)
