-- ===== src/Tests/Network.antt =====
-- The protocol at concrete messages.
use lsm_tree_storage_engine.Prelude.{refl, arith, false, true, inl, ok, [], StatusCode, ◌≡◌, ◌∷◌}
use lsm_tree_storage_engine.Protocol.{
  arrive, quiet, Op, Response, FrameReader, encode_request, decode_request, encode_response,
  decode_response,
}
use lsm_tree_storage_engine.Protocol.Stream.{IsLive}
use lsm_tree_storage_engine.Tests.Fixtures.{key_ab, text_xyz}
use lsm_tree_storage_engine.Protocol.Messages.{
  decode_response-encode_response, decode_request-encode_request,
}
use lsm_tree_storage_engine.Protocol.Frames.{Cut, read_frame-frame}

decode_request-encode_request_example :
    decode_request (encode_request (record { op = Op.put; key = key_ab; value = text_xyz }))
    ≡ ok (record { op = Op.put; key = key_ab; value = text_xyz })
decode_request-encode_request_example =
    decode_request-encode_request Op.put key_ab text_xyz (omega arith) (inl refl)

abbrev refusal : Response
refusal = record { code = StatusCode.not_found; body = text_xyz }

decode_response-encode_response_example : decode_response (encode_response refusal) ≡ ok refusal
decode_response-encode_response_example = decode_response-encode_response refusal

-- A frame in three pieces, of which the last has the start of the next frame.
abbrev reader : FrameReader
reader = record {
  events =
      arrive (0 ∷ 0 ∷ [])
      ∷ quiet false
      ∷ arrive (0 ∷ [])
      ∷ arrive (3 ∷ 0x78 ∷ 0x79 ∷ 0x7a ∷ 0 ∷ [])
      ∷ [];
  max_frame = 8388608;
  polls = true;
  buf = [];
}

reader-IsLive : IsLive reader.events
reader-IsLive = (omega arith, (refl, (omega arith, (omega arith, tt))))

read_frame-frame_example : (r' : FrameReader) × Cut reader text_xyz (0 ∷ []) r'
read_frame-frame_example =
    read_frame-frame text_xyz (0 ∷ []) reader reader-IsLive (omega arith) (omega arith) refl
