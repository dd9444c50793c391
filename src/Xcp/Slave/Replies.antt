-- ===== src/Xcp/Slave/Replies.antt =====
-- Every answer of the slave is a frame that the master can read.
use automotive_testing_frame.Prelude.{
  if◌then◌else◌, drop, ℕ, ◌≡◌, ◌⊎◌, inl, inr, refl, ap, Bool, true, false, Option, none, some, [],
  ◌∷◌, length, Result, ok, err,
}
use automotive_testing_frame.Prelude.Int.{ℤ, pos, ◌+ℤ◌}
use automotive_testing_frame.Prelude.Bytes.{Bytes}
use automotive_testing_frame.Prelude.Dict.{lookup}
use automotive_testing_frame.Xcp.Frames.{
  XcpFault, Message, byte_at, pad, frame_of, length-frame_of, frame_of-head,
}
use automotive_testing_frame.Xcp.Slave.{
  refuse, upload, command, unlock, short_upload, set_mta, connected_command, positive, get_seed,
  download, read_cell, XcpSlaveNode, Reply, build_dto, process_cro,
}
use automotive_testing_frame.Xcp.Master.{res, error, parse_dto_response}

-- An answer of the node with the identifier `k`, positive or negative, or an exception.
data IsReply (k : ℤ) : Reply → Type 0 where
  raised : (x : XcpFault) (n : XcpSlaveNode) → IsReply k (err x, n)
  answered : (payload : Bytes) (n : XcpSlaveNode) → n.node_id ≡ k → IsReply k (positive payload n)
  refused : (code : ℕ) (n : XcpSlaveNode) → n.node_id ≡ k → IsReply k (refuse code n)

module _ {k : ℤ} where
  if-IsReply : (b : Bool) (p q : Reply) → IsReply k p → IsReply k q → IsReply k (if b then p else q)
  if-IsReply true p q hp hq = hp
  if-IsReply false p q hp hq = hq

  ruleset replies = (raised, answered, refused, if-IsReply, refl)

  get_seed-IsReply : (n : XcpSlaveNode) → n.node_id ≡ k → IsReply k (get_seed n)
  unfolding get_seed
  get_seed-IsReply n e = search replies

  unlock-IsReply :
      (key : Result XcpFault ℕ) (n : XcpSlaveNode) → n.node_id ≡ k → IsReply k (unlock key n)
  unfolding unlock
  unlock-IsReply (err x) n e = search replies
  unlock-IsReply (ok key) n e = search replies

  set_mta-IsReply :
      (address : Result XcpFault ℕ) (n : XcpSlaveNode)
      → n.node_id ≡ k
      → IsReply k (set_mta address n)
  unfolding set_mta
  set_mta-IsReply (err x) n e = search replies
  set_mta-IsReply (ok address) n e = search replies

  read_cell-IsReply :
      (cell : Option Bytes) (n : XcpSlaveNode) → n.node_id ≡ k → IsReply k (read_cell cell n)
  unfolding read_cell
  read_cell-IsReply none n e = search replies
  read_cell-IsReply (some cell) n e = search replies

  upload-IsReply :
      (count : Result XcpFault ℕ) (n : XcpSlaveNode) → n.node_id ≡ k → IsReply k (upload count n)
  unfolding upload
  upload-IsReply (err x) n e = search replies
  upload-IsReply (ok count) n e = read_cell-IsReply (lookup n.mta n.memory) n e

  short_upload-IsReply :
      (count address : Result XcpFault ℕ) (n : XcpSlaveNode)
      → n.node_id ≡ k
      → IsReply k (short_upload count address n)
  unfolding short_upload
  short_upload-IsReply (err x) address n e = search replies
  short_upload-IsReply (ok count) (err x) n e = search replies
  short_upload-IsReply (ok count) (ok address) n e = search (replies, read_cell-IsReply)

  download-IsReply :
      (count : Result XcpFault ℕ) (bytes : Bytes) (n : XcpSlaveNode)
      → n.node_id ≡ k
      → IsReply k (download count bytes n)
  unfolding download
  download-IsReply (err x) bytes n e = search replies
  download-IsReply (ok count) bytes n e = search replies

  ruleset handlers = (
    get_seed-IsReply, unlock-IsReply, set_mta-IsReply, upload-IsReply, short_upload-IsReply,
    download-IsReply,
  )

  connected-IsReply :
      (pid : ℕ) (bytes : Bytes) (n : XcpSlaveNode)
      → n.node_id ≡ k
      → IsReply k (connected_command pid bytes n)
  unfolding connected_command
  connected-IsReply pid bytes n e = search (replies, handlers) depth 12

  command-IsReply :
      (pid : Result XcpFault ℕ) (bytes : Bytes) (n : XcpSlaveNode)
      → n.node_id ≡ k
      → IsReply k (command pid bytes n)
  unfolding command
  command-IsReply (err x) bytes n e = search replies
  command-IsReply (ok pid) bytes n e = search (replies, connected-IsReply)

-- A frame of eight bytes from `k`, which the master reads as a result or as an error.
abbrev pub IsReadable : ℤ → Result XcpFault Message → Type 0
IsReadable k (err x) = Unit
IsReadable k (ok r) =
    (length r.data_bytes ≡ 8)
    × (r.arbitration_id ≡ k +ℤ pos 1)
    × (((payload : Bytes) × (parse_dto_response r ≡ ok (res payload)))
        ⊎ ((code : ℕ) × (parse_dto_response r ≡ ok (error code))))

IsReply-IsReadable : {k : ℤ} {p : Reply} → IsReply k p → IsReadable k p.0
unfolding positive refuse build_dto parse_dto_response pad
IsReply-IsReadable (raised x n) = tt
IsReply-IsReadable (answered payload n e) = (
  length-frame_of (0xff ∷ payload),
  ap (λ i. i +ℤ pos 1) e,
  inl (drop 1 (frame_of (0xff ∷ payload)), rw (frame_of-head 0xff payload)),
)
IsReply-IsReadable (refused code n e) =
    (length-frame_of (0xfe ∷ code ∷ []), ap (λ i. i +ℤ pos 1) e, inr (code, refl))

-- Every answer of a slave, to whatever message in whatever state, is a frame of eight bytes with the
-- identifier after the node's own, and the master reads it as a result or as an error.
process_cro-IsReadable : (m : Message) (n : XcpSlaveNode) → IsReadable n.node_id (process_cro m n).0
unfolding process_cro
process_cro-IsReadable m n =
    IsReply-IsReadable (command-IsReply (byte_at m.data_bytes 0) m.data_bytes n refl)
