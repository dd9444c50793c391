-- ===== src/Xcp/Slave.antt =====
-- subProj 9 XCP Calibration/xcp_ecu.py: the slave node with its memory.
pub mod Replies
pub mod Protection
use Prim.Native.Nat.{bit_xor}
use automotive_testing_frame.Prelude.{
  ℕ, Bool, true, false, not, ◌&&◌, ◌||◌, Option, none, some, List, [], ◌∷◌, if◌then◌else◌, ◌==◌,
  take, drop, Result, ok, err, or_raise,
}
use automotive_testing_frame.Prelude.Int.{ℤ, pos, ◌+ℤ◌}
use automotive_testing_frame.Prelude.Bytes.{Bytes, be32, unpack_be32}
use automotive_testing_frame.Prelude.Dict.{Dict, lookup, insert, contains}
use automotive_testing_frame.Xcp.Frames.{XcpFault, struct_error, Message, byte_at, frame_of}

abbrev pub err_cmd_ignored : ℕ
err_cmd_ignored = 0x22

abbrev pub err_access_denied : ℕ
err_access_denied = 0x24

abbrev pub err_out_of_range : ℕ
err_out_of_range = 0x23

pub record XcpSlaveNode : Type 0 where
  pub node_id : ℤ
  pub memory : Dict Bytes
  pub is_connected : Bool
  pub is_unlocked : Bool
  pub mta : ℕ
  pub current_seed : ℕ

-- `struct.pack("<I", n)` for 120, 850 and 5000
abbrev initial_memory : Dict Bytes
initial_memory =
    (0x1000, 120 ∷ 0 ∷ 0 ∷ 0 ∷ [])
    ∷ (0x1004, 0x52 ∷ 3 ∷ 0 ∷ 0 ∷ [])
    ∷ (0x1008, 0x88 ∷ 0x13 ∷ 0 ∷ 0 ∷ [])
    ∷ []

-- `__init__`
unfoldable pub init : ℤ → XcpSlaveNode
init node_id = record {
  node_id = node_id;
  memory = initial_memory;
  is_connected = false;
  is_unlocked = false;
  mta = 0;
  current_seed = 0;
}

unfoldable pub build_dto : ℕ → Bytes → XcpSlaveNode → Message
build_dto pid payload n = record {
  arbitration_id = n.node_id +ℤ pos 1;
  data_bytes = frame_of (pid ∷ payload);
  is_extended_id = false;
}

-- What a command comes to: the answer, and the node afterwards.
abbrev pub Reply : Type 0
Reply = Result XcpFault Message × XcpSlaveNode

positive : Bytes → XcpSlaveNode → Reply
positive payload n = (ok (build_dto 0xff payload n), n)

refuse : ℕ → XcpSlaveNode → Reply
refuse code n = (ok (build_dto 0xfe (code ∷ []) n), n)

-- A big-endian number of four bytes from `first` on.
abbrev pub word_at : Bytes → ℕ → Result XcpFault ℕ
word_at bytes first = or_raise struct_error (unpack_be32 (take 4 (drop first bytes)))

abbrev pub dummy_seed : ℕ
dummy_seed = 0x12345678

-- 0xF8
get_seed : XcpSlaveNode → Reply
get_seed n = positive (0x04 ∷ be32 dummy_seed) (record n { current_seed = dummy_seed })

abbrev pub expected_key : ℕ → ℕ
expected_key seed = bit_xor seed 0xdeadbeef

-- 0xF7
unlock : Result XcpFault ℕ → XcpSlaveNode → Reply
unlock (err x) n = (err x, n)
unlock (ok received_key) n =
    if received_key == expected_key n.current_seed
    then positive (0x00 ∷ []) (record n { is_unlocked = true })
    else refuse err_access_denied n

-- 0xF6: the pointer is moved before the range is checked.
set_mta : Result XcpFault ℕ → XcpSlaveNode → Reply
set_mta (err x) n = (err x, n)
set_mta (ok address) n =
    if not (contains address n.memory)
    then refuse err_out_of_range (record n { mta = address })
    else positive (0x00 ∷ []) (record n { mta = address })

read_cell : Option Bytes → XcpSlaveNode → Reply
read_cell none n = refuse err_out_of_range n
read_cell (some cell) n = positive cell n

-- 0xF5; `num_elements` is read, and not used.
upload : Result XcpFault ℕ → XcpSlaveNode → Reply
unfolding read_cell
upload (err x) n = (err x, n)
upload (ok num_elements) n = read_cell (lookup n.mta n.memory) n

-- 0xF4: the pointer is moved after the range is checked.
short_upload : Result XcpFault ℕ → Result XcpFault ℕ → XcpSlaveNode → Reply
unfolding read_cell
short_upload (err x) address n = (err x, n)
short_upload (ok num_elements) (err x) n = (err x, n)
short_upload (ok num_elements) (ok short_mta) n =
    if not (contains short_mta n.memory)
    then refuse err_out_of_range n
    else read_cell (lookup short_mta n.memory) (record n { mta = short_mta })

-- `x in [0x1004, 0x1008]`
abbrev pub is_protected : ℕ → Bool
is_protected x = x == 0x1004 || x == 0x1008

-- 0xF0
download : Result XcpFault ℕ → Bytes → XcpSlaveNode → Reply
download (err x) bytes n = (err x, n)
download (ok num_elements) bytes n =
    if not (contains n.mta n.memory)
    then refuse err_out_of_range n
    else if is_protected n.mta && not n.is_unlocked
    then refuse err_access_denied n
    else positive (0x00 ∷ [])
        (record n { memory = insert n.mta (take num_elements (drop 2 bytes)) n.memory })

-- The commands of a connected node.
connected_command : ℕ → Bytes → XcpSlaveNode → Reply
unfolding get_seed unlock set_mta upload short_upload download
connected_command pid bytes n =
    if pid == 0xfe
    then positive (0x00 ∷ []) (record n { is_connected = false; is_unlocked = false })
    else if pid == 0xf8
    then get_seed n
    else if pid == 0xf7
    then unlock (word_at bytes 2) n
    else if pid == 0xf6
    then set_mta (word_at bytes 4) n
    else if pid == 0xf5
    then upload (byte_at bytes 1) n
    else if pid == 0xf4
    then short_upload (byte_at bytes 1) (word_at bytes 4) n
    else if pid == 0xf0
    then download (byte_at bytes 1) bytes n
    else refuse err_cmd_ignored n

command : Result XcpFault ℕ → Bytes → XcpSlaveNode → Reply
unfolding connected_command
command (err x) bytes n = (err x, n)
command (ok pid) bytes n =
    if pid == 0xff
    then positive (0x00 ∷ []) (record n { is_connected = true })
    else if not n.is_connected
    then refuse err_cmd_ignored n
    else connected_command pid bytes n

unfoldable pub process_cro : Message → XcpSlaveNode → Reply
unfolding command positive refuse
process_cro message n = command (byte_at message.data_bytes 0) message.data_bytes n

-- A node that goes on after an exception.
unfoldable pub process_all : List Message → XcpSlaveNode → XcpSlaveNode
process_all [] n = n
process_all (m ∷ ms) n = process_all ms (process_cro m n).1
