-- ===== src/LogScan/Walk.antt =====
-- src/log_scan.cpp: the whole scan of a log with a torn end.
use native.Mathlib.Decide.{dec_lt}
use lsm_tree_storage_engine.Prelude.{
  ℕ, some, ◌≤◌, lt→ltb, Bool-cases, inl, suc, ◌≡◌, StatusCode, All, arith, inr, length-take, err,
  ◌∙◌, ltb-false, ◌∷◌, ◌++◌, take, Status, ltb, corruption, zero, ap, List, ◌+◌, [], ok,
  length-append, length, ◌<◌, append_assoc, sym,
}
use lsm_tree_storage_engine.Crc.{Zlib}
use lsm_tree_storage_engine.Record.{Record, header_size}
use lsm_tree_storage_engine.LogScan.{DataFile, file_of, read_record, scan_loop, scan_records}
use lsm_tree_storage_engine.LogScan.Torn.{
  Write, CanWrite, bytes_of, record_read, log_bytes, size-bytes_of, read_record-torn,
  read_record-whole,
}

-- The front of a record that was being appended; nothing of it, too.
pub record IsTorn (z : Zlib) (torn : List ℕ) : Type 0 where
  pub write : Write
  pub can : CanWrite write
  pub kept : ℕ
  pub less : kept < length (bytes_of z write)
  pub front : torn ≡ take kept (bytes_of z write)

module _ (z : Zlib) {S : Type 0} (visit : ℕ → Record → List ℕ → S → S × Status) where
  -- The visits of a log's records, from `offset` on.
  abbrev pub walk : ℕ → List Write → S → S
  walk offset [] s = s
  walk offset (w ∷ ws) s =
      walk (offset + length (bytes_of z w)) ws (visit offset (record_read z w) (bytes_of z w) s).0

  module _ (file : DataFile) (offset good_end : ℕ) (s : S) (fuel : ℕ) where
    loop_short :
        file.size < offset + header_size
        → scan_loop z file visit (suc fuel) offset good_end s ≡ some (s, ok good_end)
    unfolding scan_loop
    loop_short h = rw (lt→ltb _ _ h)

    loop_break :
        (e : StatusCode)
        → read_record z file offset ≡ err e
        → scan_loop z file visit (suc fuel) offset good_end s ≡ some (s, ok good_end)
    unfolding scan_loop
    loop_break e h = elim (Bool-cases (ltb file.size (offset + header_size))) [
      | inl short ↦ rw short
      | inr long ↦ rw (long, h)
    ]

    loop_record :
        (total : ℕ) (rec : Record) (bytes : List ℕ)
        → offset + header_size ≤ file.size
        → read_record z file offset ≡ ok (total, rec, bytes)
        → (visit offset rec bytes s).1 ≡ ok tt
        → scan_loop z file visit (suc fuel) offset good_end s
          ≡ scan_loop z file visit fuel
              (offset + total)
              (offset + total)
              (visit offset rec bytes s).0
    unfolding scan_loop
    loop_record total rec bytes long h v = rw (ltb-false _ _ long, h, v)

  module _
      (total_visit : (o : ℕ) (r : Record) (b : List ℕ) (s : S) → (visit o r b s).1 ≡ ok tt) where
    -- A torn end stops the scan where it begins.
    scan_torn :
        (front torn : List ℕ) (fuel : ℕ) (s : S)
        → IsTorn z torn
        → scan_loop z (file_of (front ++ torn)) visit (suc fuel) (length front) (length front) s
          ≡ some (s, ok (length front))
    scan_torn front torn fuel s t = elim (dec_lt t.kept header_size) [
      | yes short ↦ loop_short (file_of (front ++ torn)) (length front) (length front) s fuel (
          omega (
            arith,
            length-append front torn,
            ap length t.front,
            length-take t.kept (bytes_of z t.write),
          ))
      | no long ↦
          loop_break (file_of (front ++ torn)) (length front) (length front) s fuel corruption (
            ap (λ (b : List ℕ). read_record z (file_of (front ++ b)) (length front)) t.front
            ∙ read_record-torn z t.write t.can front t.kept (omega arith) t.less)
    ]

    scan_log :
        (ws : List Write) (front torn : List ℕ) (fuel : ℕ) (s : S)
        → All CanWrite ws
        → IsTorn z torn
        → length ws < fuel
        → scan_loop z
            (file_of (front ++ (log_bytes z ws ++ torn)))
            visit
            fuel
            (length front)
            (length front)
            s
          ≡ some (walk (length front) ws s, ok (length front + length (log_bytes z ws)))
    scan_log ws front torn zero s c t h = absurd (omega arith)
    scan_log [] front torn (suc fuel) s c t h =
        scan_torn front torn fuel s t ∙ ap (λ n. some (s, ok n)) (omega arith)
    scan_log (w ∷ ws) front torn (suc fuel) s c t h =
        let whole = bytes_of z w in
        let rest = log_bytes z ws ++ torn in
        let front' = front ++ whole in
        let s' = (visit (length front) (record_read z w) whole s).0 in
        let moved : length front + length whole ≡ length front' = sym (length-append front whole) in
        let joined : front ++ ((whole ++ log_bytes z ws) ++ torn) ≡ front ++ (whole ++ rest) =
          ap (λ (b : List ℕ). front ++ b) (append_assoc whole (log_bytes z ws) torn) in
        ap
          (λ (b : List ℕ). scan_loop z (file_of b) visit (suc fuel) (length front) (length front) s)
          joined
        ∙ loop_record (file_of (front ++ (whole ++ rest))) (length front) (length front) s fuel
            (length whole) (record_read z w) whole
            (omega (
              arith,
              length-append front (whole ++ rest),
              length-append whole rest,
              size-bytes_of z w c.0,
            ))
            (read_record-whole z w c.0 front rest) (total_visit _ _ _ s)
        ∙ ap
            (λ (b : List ℕ).
              scan_loop z (file_of b) visit fuel (length front + length whole)
                (length front + length whole) s')
            (sym (append_assoc front whole rest))
        ∙ ap (λ (n : ℕ). scan_loop z (file_of (front' ++ rest)) visit fuel n n s') moved
        ∙ scan_log ws front' torn fuel s' c.1 t (omega arith)
        ∙ ap (λ (n : ℕ). some (walk n ws s', ok (n + length (log_bytes z ws)))) (sym moved)
        ∙ ap (λ (n : ℕ). some (walk (length front + length whole) ws s', ok n))
            (omega (arith, length-append whole (log_bytes z ws)))

    log_shorter :
        (ws : List Write) (torn : List ℕ)
        → All CanWrite ws
        → length ws ≤ length (log_bytes z ws ++ torn)
    log_shorter [] torn c = omega arith
    log_shorter (w ∷ ws) torn c = omega (
      arith,
      log_shorter ws torn c.1,
      size-bytes_of z w c.0,
      length-append (bytes_of z w ++ log_bytes z ws) torn,
      length-append (bytes_of z w) (log_bytes z ws),
      length-append (log_bytes z ws) torn,
    )

    -- A scan of whole records and a torn end visits each record once, in the order of the log, and
    -- returns where the last of them ends.
    pub scan_records-log :
        (ws : List Write) (torn : List ℕ) (s : S)
        → All CanWrite ws
        → IsTorn z torn
        → scan_records z (file_of (log_bytes z ws ++ torn)) visit s
          ≡ some (walk 0 ws s, ok (length (log_bytes z ws)))
    unfolding scan_records
    scan_records-log ws torn s c t =
        scan_log ws [] torn (suc (length (log_bytes z ws ++ torn))) s c t
          (omega (arith, log_shorter ws torn c))
        ∙ ap (λ (n : ℕ). some (walk 0 ws s, ok n)) (omega arith)
