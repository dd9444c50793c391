-- ===== src/Xcp/Master.antt =====
-- subProj 9 XCP Calibration/xcp_master.py: the tool that builds commands and reads answers.
use automotive_testing_frame.Prelude.{
  ℕ, false, [], ◌∷◌, if◌then◌else◌, ◌==◌, length, drop, Result, ok, err, or_raise, ◌>>=◌,
}
use automotive_testing_frame.Prelude.Int.{ℤ, pos}
use automotive_testing_frame.Prelude.Bytes.{Bytes, pack_be32}
use automotive_testing_frame.Xcp.Frames.{
  XcpFault, struct_error, Message, byte_at, as_byte, frame_of,
}

pub record XcpMaster : Type 0 where
  pub target_node_id : ℤ

unfoldable pub build_cro : Bytes → XcpMaster → Message
build_cro bytes m = record {
  arbitration_id = m.target_node_id;
  data_bytes = bytes;
  is_extended_id = false;
}

unfoldable pub create_connect_cro : XcpMaster → Message
create_connect_cro = build_cro (0xff ∷ 0 ∷ 0 ∷ 0 ∷ 0 ∷ 0 ∷ 0 ∷ 0 ∷ [])

unfoldable pub create_disconnect_cro : XcpMaster → Message
create_disconnect_cro = build_cro (0xfe ∷ 0 ∷ 0 ∷ 0 ∷ 0 ∷ 0 ∷ 0 ∷ 0 ∷ [])

unfoldable pub create_set_mta_cro : ℤ → XcpMaster → Result XcpFault Message
create_set_mta_cro address m = do
  addr_bytes ← or_raise struct_error (pack_be32 address)
  ok (build_cro (0xf6 ∷ 0 ∷ 0 ∷ 0 ∷ addr_bytes) m)

unfoldable pub create_get_seed_cro : ℤ → XcpMaster → Result XcpFault Message
create_get_seed_cro mode m = do
  mode_byte ← as_byte mode
  ok (build_cro (0xf8 ∷ mode_byte ∷ 0 ∷ 0 ∷ 0 ∷ 0 ∷ 0 ∷ 0 ∷ []) m)

-- A command with a length byte and a payload, padded and cut to eight bytes.
with_payload : ℕ → Bytes → XcpMaster → Result XcpFault Message
with_payload pid bytes m = do
  length_byte ← as_byte (pos (length bytes))
  ok (build_cro (frame_of (pid ∷ length_byte ∷ bytes)) m)

unfoldable pub create_unlock_cro : Bytes → XcpMaster → Result XcpFault Message
unfolding with_payload
create_unlock_cro key_bytes = with_payload 0xf7 key_bytes

unfoldable pub create_upload_cro : ℤ → XcpMaster → Result XcpFault Message
create_upload_cro num_bytes m = do
  num_byte ← as_byte num_bytes
  ok (build_cro (0xf5 ∷ num_byte ∷ 0 ∷ 0 ∷ 0 ∷ 0 ∷ 0 ∷ 0 ∷ []) m)

unfoldable pub create_download_cro : Bytes → XcpMaster → Result XcpFault Message
unfolding with_payload
create_download_cro data_bytes = with_payload 0xf0 data_bytes

unfoldable pub create_short_upload_cro : ℤ → ℤ → XcpMaster → Result XcpFault Message
create_short_upload_cro num_bytes address m = do
  addr_bytes ← or_raise struct_error (pack_be32 address)
  num_byte ← as_byte num_bytes
  ok (build_cro (0xf4 ∷ num_byte ∷ 0 ∷ 0 ∷ addr_bytes) m)

-- The dictionary that `parse_dto_response` returns.
pub data Response : Type 0 where
  res : Bytes → Response
  error : ℕ → Response
  unknown_pid : Response

parse_error : Result XcpFault ℕ → Result XcpFault Response
parse_error (err x) = err x
parse_error (ok code) = ok (error code)

parse_pid : Result XcpFault ℕ → Bytes → Result XcpFault Response
unfolding parse_error
parse_pid (err x) bytes = err x
parse_pid (ok pid) bytes =
    if pid == 0xff
    then ok (res (drop 1 bytes))
    else if pid == 0xfe
    then parse_error (byte_at bytes 1)
    else ok unknown_pid

unfoldable pub parse_dto_response : Message → Result XcpFault Response
unfolding parse_pid
parse_dto_response message = parse_pid (byte_at message.data_bytes 0) message.data_bytes
