-- ===== src/LogScan/Torn.antt =====
-- A log of whole records with the front of one more behind it, as a crash in the middle of an
-- append leaves it: what the scan finds there.
use lsm_tree_storage_engine.Prelude.{
  ℕ, drop-append_eq, corruption, length-append, refl, [], ltb-false, err, ◌+◌, ◌<◌, ◌∷◌, length,
  Bool, ◌++◌, ◌≡◌, List, ap, ok, take, ◌≤◌, arith, ◌∙◌, bind-ok, lt→ltb, length-take, reject-stop,
  reject-pass, take-append_le, take-append_eq, take-take, append-nil, sym,
}
use lsm_tree_storage_engine.Crc.{Zlib}
use lsm_tree_storage_engine.Record.{Record, encode, header_size, decode_header, total_size, decode}
use lsm_tree_storage_engine.Record.Layout.{
  Fits, stored_of, encode-eq, length-record_bytes, flags_of,
}
use lsm_tree_storage_engine.LogScan.{file_of, read_record}
use lsm_tree_storage_engine.Encoding.{IsU64}
use lsm_tree_storage_engine.Record.RoundTrip.{decode_header-encode, decode-encode}

-- One append to the log.
pub record Write : Type 0 where
  pub key : List ℕ
  pub value : List ℕ
  pub timestamp : ℕ
  pub tombstone : Bool

-- What the engine checks before it writes, and the clock's range.
pub record CanWrite (w : Write) : Type 0 where
  pub has_key : 0 < length w.key
  pub time : IsU64 w.timestamp
  pub fits : Fits w.key (stored_of w.tombstone w.value)

abbrev pub bytes_of : Zlib → Write → List ℕ
bytes_of z w = encode z w.key w.value w.timestamp w.tombstone

abbrev pub record_read : Zlib → Write → Record
record_read z w = record {
  timestamp = w.timestamp;
  is_tombstone = w.tombstone;
  key = w.key;
  value = stored_of w.tombstone w.value;
  total_size = length (bytes_of z w);
}

abbrev pub log_bytes : Zlib → List Write → List ℕ
log_bytes z [] = []
log_bytes z (w ∷ ws) = bytes_of z w ++ log_bytes z ws

module _ (z : Zlib) (w : Write) (can : CanWrite w) where
  pub size-bytes_of : header_size < length (bytes_of z w)
  size-bytes_of = omega (
    arith,
    can.has_key,
    ap length (encode-eq z w.key w.value w.timestamp w.tombstone can.fits),
    length-record_bytes z w.key (stored_of w.tombstone w.value) w.timestamp (flags_of w.tombstone),
  )

  -- A read inside the file, from the end of `front` on.
  read_inside :
      (front back : List ℕ) (n : ℕ)
      → n ≤ length back
      → (file_of (front ++ back)).read_at (length front) n ≡ ok (take n back)
  read_inside front back n h =
      rw
        (ltb-false (length (front ++ back)) (length front + n)
          (omega (arith, length-append front back)))
        (ap (λ (t : List ℕ). ok (take n t)) (drop-append_eq (length front) front back refl))

  decode_whole : decode z (bytes_of z w) ≡ ok (record_read z w)
  decode_whole =
      ap (decode z) (sym (append-nil (bytes_of z w)))
      ∙ decode-encode z w.key w.value w.timestamp w.tombstone [] can.has_key can.time can.fits

  -- A whole record is read, whatever follows it.
  pub read_record-whole :
      (front rest : List ℕ)
      → read_record z (file_of (front ++ (bytes_of z w ++ rest))) (length front)
        ≡ ok (length (bytes_of z w), record_read z w, bytes_of z w)
  unfolding read_record
  read_record-whole front rest =
      let whole = bytes_of z w in
      let content = front ++ (whole ++ rest) in
      let long : header_size < length whole = size-bytes_of in
      let size : length content ≡ length front + (length whole + length rest) =
        omega (arith, length-append front (whole ++ rest), length-append whole rest) in
      let (head, decoded, total) =
        decode_header-encode z w.key w.value w.timestamp w.tombstone can.has_key can.time
          can.fits in
      let taken : take (total_size head) (whole ++ rest) ≡ whole =
        take-append_eq (total_size head) whole rest total in
      bind-ok _ _
        (read_inside front (whole ++ rest) header_size (omega (arith, length-append whole rest)))
        (bind-ok _ _
          (ap decode_header (take-append_le header_size whole rest (omega arith)) ∙ decoded)
          (reject-pass _ _ _
            (ltb-false (length content) (length front + total_size head) (omega arith))
            (bind-ok _ _
              (read_inside front (whole ++ rest) (total_size head)
                (omega (arith, length-append whole rest)))
              (bind-ok _ _ (ap (decode z) taken ∙ decode_whole)
                (λ i. ok (total i, record_read z w, taken i))))))

  -- A record whose header is whole and whose end is missing is refused.
  pub read_record-torn :
      (front : List ℕ) (n : ℕ)
      → header_size ≤ n
      → n < length (bytes_of z w)
      → read_record z (file_of (front ++ take n (bytes_of z w))) (length front) ≡ err corruption
  unfolding read_record
  read_record-torn front n h less =
      let part = take n (bytes_of z w) in
      let content = front ++ part in
      let size : length part ≡ n = omega (arith, length-take n (bytes_of z w)) in
      let (head, decoded, total) =
        decode_header-encode z w.key w.value w.timestamp w.tombstone can.has_key can.time
          can.fits in
      bind-ok _ _ (read_inside front part header_size (omega arith)) (
        bind-ok _ _ (ap decode_header (take-take header_size n (bytes_of z w) h) ∙ decoded) (
          reject-stop _ _ _ (
            lt→ltb (length content) (length front + total_size head)
              (omega (arith, length-append front part)))))
