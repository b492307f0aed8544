-- ===== src/Protocol.antt =====
-- include/kvstore/protocol.hpp and src/protocol.cpp: requests and responses, and the frames that a
-- connection cuts its byte stream into.
pub mod Messages
pub mod Stream
pub mod Frames
use lsm_tree_storage_engine.Prelude.{
  ℕ, Result, Bool, ◌%◌, leb, false, true, ◌^◌, err, [], length, Status, ◌∷◌, reject_if, List, drop,
  ◌==◌, not, take, max, ◌-◌, ◌++◌, StatusCode, ok, ltb, ◌&&◌, ◌+◌, if◌then◌else◌, ◌>>=◌, ◌>>◌,
  io_error, not_found, corruption, invalid_argument,
}
use lsm_tree_storage_engine.Wire.{append_u32, get_u32}
use lsm_tree_storage_engine.Encoding.{byte_at, subspan}

abbrev pub request_header_size : ℕ
request_header_size = 5

abbrev pub max_frame_size : ℕ
max_frame_size = 8388608

abbrev pub length_prefix_size : ℕ
length_prefix_size = 4

abbrev pub read_chunk : ℕ
read_chunk = 4096

pub data Op : Type 0 where
  get put delete : Op

abbrev pub op_byte : Op → ℕ
op_byte Op.get = 1
op_byte Op.put = 2
op_byte Op.delete = 3

pub record Request : Type 0 where
  pub op : Op
  pub key : List ℕ
  pub value : List ℕ

pub record Response : Type 0 where
  pub code : StatusCode
  pub body : List ℕ

unfoldable pub status_byte : StatusCode → ℕ
status_byte StatusCode.ok = 0
status_byte StatusCode.not_found = 1
status_byte StatusCode.io_error = 2
status_byte StatusCode.corruption = 3
status_byte StatusCode.invalid_argument = 4

unfoldable pub status_from_byte : ℕ → Result StatusCode
status_from_byte byte =
    if byte == 0
    then ok StatusCode.ok
    else if byte == 1
    then ok StatusCode.not_found
    else if byte == 2
    then ok StatusCode.io_error
    else if byte == 3
    then ok StatusCode.corruption
    else if byte == 4
    then ok StatusCode.invalid_argument
    else err StatusCode.invalid_argument

unfoldable pub to_status : Response → Status
to_status response = elim response.code [
  | StatusCode.ok ↦ ok tt
  | StatusCode.not_found ↦ err StatusCode.not_found
  | StatusCode.io_error ↦ err StatusCode.io_error
  | StatusCode.corruption ↦ err StatusCode.corruption
  | StatusCode.invalid_argument ↦ err StatusCode.invalid_argument
]

abbrev pub is_put : Op → Bool
is_put Op.get = false
is_put Op.put = true
is_put Op.delete = false

unfoldable pub encode_request : Request → List ℕ
encode_request request =
    let out = append_u32 (op_byte request.op ∷ []) (length request.key % 2 ^ 32) in
    let out = out ++ request.key in if is_put request.op then out ++ request.value else out

unfoldable pub encode_response : Response → List ℕ
unfolding status_byte
encode_response response = status_byte response.code ∷ response.body

unfoldable pub op_from_byte : ℕ → Result Op
op_from_byte byte =
    if byte == 1
    then ok Op.get
    else if byte == 2
    then ok Op.put
    else if byte == 3
    then ok Op.delete
    else err StatusCode.invalid_argument

unfoldable pub decode_request : List ℕ → Result Request
unfolding op_from_byte
decode_request payload = do
  reject_if (ltb (length payload) request_header_size) StatusCode.invalid_argument
  op ← op_from_byte (byte_at payload 0)
  let key_size = get_u32 payload 1
  let after_header = length payload - request_header_size
  reject_if (ltb after_header key_size) StatusCode.invalid_argument
  let key = subspan payload request_header_size key_size
  let rest = drop (request_header_size + key_size) payload
  reject_if (not (is_put op) && ltb 0 (length rest)) StatusCode.invalid_argument
  ok (record { op = op; key = key; value = if is_put op then rest else [] })

unfoldable pub decode_response : List ℕ → Result Response
unfolding status_from_byte
decode_response [] = err StatusCode.invalid_argument
decode_response (byte ∷ body) = do
  code ← status_from_byte byte
  ok (record { code = code; body = body })

-- `write_frame`, by the bytes it hands to `send_all`.
unfoldable pub write_frame : List ℕ → Result (List ℕ)
write_frame payload = do
  reject_if (ltb max_frame_size (length payload)) StatusCode.invalid_argument
  ok (append_u32 [] (length payload % 2 ^ 32) ++ payload)

-- What the socket does next: bytes come, a wait ends with none while the flag `cancelled` reads as
-- given, or a call fails. The peer has closed when nothing comes any more.
pub data Event : Type 0 where
  arrive : List ℕ → Event
  quiet : Bool → Event
  fail : StatusCode → Event

pub data Fill : Type 0 where
  filled closed stopped : Fill

pub data FrameStatus : Type 0 where
  complete peer_closed cancelled : FrameStatus

pub record FrameReader : Type 0 where
  pub events : List Event
  pub max_frame : ℕ
  -- `poll_timeout_ms > 0`.
  pub polls : Bool
  pub buf : List ℕ

-- `fill_to`, on the buffer and the events to come. `recv_some` gives what has come, up to the size
-- asked for; more than that leaves bytes to come and a buffer that is long enough.
unfoldable pub fill_loop : Bool → ℕ → List ℕ → List Event → (List ℕ × List Event) × Result Fill
fill_loop polls wanted buf [] = ((buf, []), ok (if ltb (length buf) wanted then closed else filled))
fill_loop polls wanted buf (arrive bytes ∷ events) =
    let ask = max (wanted - length buf) read_chunk in
    let rest = fill_loop polls wanted (buf ++ bytes) events in
    if ltb (length buf) wanted
    then (if length bytes == 0
        then ((buf, events), ok closed)
        else if leb (length bytes) ask
        then rest
        else ((buf ++ take ask bytes, arrive (drop ask bytes) ∷ events), ok filled))
    else ((buf, arrive bytes ∷ events), ok filled)
fill_loop polls wanted buf (quiet flag ∷ events) =
    let rest = fill_loop polls wanted buf events in
    if ltb (length buf) wanted
    then (if polls && flag then ((buf, events), ok stopped) else rest)
    else ((buf, quiet flag ∷ events), ok filled)
fill_loop polls wanted buf (fail code ∷ events) =
    if ltb (length buf) wanted
    then ((buf, events), err code)
    else ((buf, fail code ∷ events), ok filled)

unfoldable pub fill_to : FrameReader → ℕ → FrameReader × Result Fill
fill_to r wanted =
    let ((buf, events), got) = fill_loop r.polls wanted r.buf r.events in
    (record r { buf = buf; events = events }, got)

-- `read_frame` once the prefix is there, and once the payload is.
unfoldable pub take_payload :
    ℕ → FrameReader × Result Fill → FrameReader × Result (FrameStatus × List ℕ)
take_payload total (r, err code) = (r, err code)
take_payload total (r, ok stopped) = (r, ok (cancelled, []))
take_payload total (r, ok closed) = (r, err StatusCode.corruption)
take_payload total (r, ok filled) = (
  record r { buf = drop total r.buf },
  ok (complete, subspan r.buf length_prefix_size (total - length_prefix_size)),
)

unfoldable pub take_prefix : FrameReader × Result Fill → FrameReader × Result (FrameStatus × List ℕ)
take_prefix (r, err code) = (r, err code)
take_prefix (r, ok stopped) = (r, ok (cancelled, []))
take_prefix (r, ok closed) =
    if length r.buf == 0 then (r, ok (peer_closed, [])) else (r, err StatusCode.corruption)
take_prefix (r, ok filled) =
    let size = get_u32 r.buf 0 in
    let total = length_prefix_size + size in
    if ltb r.max_frame size
    then (r, err StatusCode.corruption)
    else take_payload total (fill_to r total)

unfoldable pub read_frame : FrameReader → FrameReader × Result (FrameStatus × List ℕ)
read_frame r = take_prefix (fill_to r length_prefix_size)
