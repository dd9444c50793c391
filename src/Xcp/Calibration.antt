-- ===== src/Xcp/Calibration.antt =====
-- The master and the slave together: commands built by the one have their effect in the other.
use automotive_testing_frame.Prelude.{
  ◌++◌, ◌>>=◌, ◌↔◌, ◌∙◌, ap, ◌⊎◌, some, false, Result, ℕ, ◌≤◌, ◌<◌, ◌^◌, ◌≡◌, refl, true, [], ◌∷◌,
  arith, length, ok, take, drop,
}
use automotive_testing_frame.Prelude.Int.{pos}
use automotive_testing_frame.Prelude.Bytes.{pack_be32, Bytes, be32, unpack-pack_be32}
use automotive_testing_frame.Prelude.Dict.{lookup-insert, insert, lookup, contains}
use automotive_testing_frame.Xcp.Frames.{
  XcpFault, Message, as_byte, frame_of, pad, frame_of-head, frame_of_second,
}
use automotive_testing_frame.Xcp.Slave.{
  expected_key, Reply, build_dto, is_protected, XcpSlaveNode, process_cro,
}
use automotive_testing_frame.Xcp.Master.{
  create_unlock_cro, res, create_upload_cro, parse_dto_response, create_set_mta_cro, XcpMaster,
  build_cro, create_download_cro,
}

set_mta_works :
    (a : ℕ) (m : XcpMaster) (n : XcpSlaveNode)
    → a < 2 ^ 32
    → n.is_connected ≡ true
    → contains a n.memory ≡ true
    → (process_cro (build_cro (0xf6 ∷ 0 ∷ 0 ∷ 0 ∷ be32 a) m) n).1 ≡ record n { mta = a }
unfolding process_cro build_cro
set_mta_works a m n h c known = ground (arith, unpack-pack_be32 a h)

-- The command that writes the bytes: a length, the bytes, and padding.
write_frame :
    (bytes : Bytes) (m : XcpMaster)
    → length bytes ≤ 6
    → create_download_cro bytes m ≡ ok (build_cro (frame_of (0xf0 ∷ length bytes ∷ bytes)) m)
unfolding create_download_cro as_byte
write_frame bytes m h = ground arith

written :
    (bytes : Bytes)
    → length bytes ≤ 6
    → take (length bytes) (drop 2 (frame_of (0xf0 ∷ length bytes ∷ bytes))) ≡ bytes
unfolding pad
written [] h = refl
written (a ∷ []) h = refl
written (a ∷ b ∷ []) h = refl
written (a ∷ b ∷ c ∷ []) h = refl
written (a ∷ b ∷ c ∷ d ∷ []) h = refl
written (a ∷ b ∷ c ∷ d ∷ e ∷ []) h = refl
written (a ∷ b ∷ c ∷ d ∷ e ∷ f ∷ []) h = refl
written (a ∷ b ∷ c ∷ d ∷ e ∷ f ∷ g ∷ rest) h = absurd (omega arith)

download_works :
    (a : ℕ) (bytes : Bytes) (m : XcpMaster) (n : XcpSlaveNode)
    → length bytes ≤ 6
    → n.is_connected ≡ true
    → n.mta ≡ a
    → contains a n.memory ≡ true
    → (is_protected a ≡ false) ⊎ (n.is_unlocked ≡ true)
    → (process_cro (build_cro (frame_of (0xf0 ∷ length bytes ∷ bytes)) m) n).1
      ≡ record n { memory = insert a bytes n.memory }
unfolding process_cro build_cro
download_works a bytes m n h c at_a known may = ground (
  arith,
  frame_of-head 0xf0 (length bytes ∷ bytes),
  frame_of_second 0xf0 (length bytes) bytes,
  written bytes h,
)

-- What the master reads of an answer that holds at most six bytes.
read_back :
    (cell : Bytes) (n : XcpSlaveNode)
    → length cell ≤ 6
    → (payload : Bytes) × (parse_dto_response (build_dto 0xff cell n) ≡ ok (res payload))
      × (take (length cell) payload ≡ cell)
unfolding build_dto parse_dto_response pad
read_back [] n h = (_, refl, refl)
read_back (a ∷ []) n h = (_, refl, refl)
read_back (a ∷ b ∷ []) n h = (_, refl, refl)
read_back (a ∷ b ∷ c ∷ []) n h = (_, refl, refl)
read_back (a ∷ b ∷ c ∷ d ∷ []) n h = (_, refl, refl)
read_back (a ∷ b ∷ c ∷ d ∷ e ∷ []) n h = (_, refl, refl)
read_back (a ∷ b ∷ c ∷ d ∷ e ∷ f ∷ []) n h = (_, refl, refl)
read_back (a ∷ b ∷ c ∷ d ∷ e ∷ f ∷ g ∷ rest) n h = absurd (omega arith)

upload_works :
    (a count : ℕ) (cell : Bytes) (m : XcpMaster) (n : XcpSlaveNode)
    → n.is_connected ≡ true
    → n.mta ≡ a
    → lookup a n.memory ≡ some cell
    → process_cro (build_cro (0xf5 ∷ count ∷ 0 ∷ 0 ∷ 0 ∷ 0 ∷ 0 ∷ 0 ∷ []) m) n
      ≡ (ok (build_dto 0xff cell n), n)
unfolding process_cro build_cro
upload_works a count cell m n c at_a found = ground arith

-- The commands of a calibration: move the pointer, write, and read.
abbrev pub Commands : Type 0
Commands = Message × Message × Message

abbrev pub calibration : ℕ → Bytes → ℕ → XcpMaster → Result XcpFault Commands
calibration a bytes count m = do
  move ← create_set_mta_cro (pos a) m
  write ← create_download_cro bytes m
  read ← create_upload_cro (pos count) m
  ok (move, write, read)

abbrev pub after_write : Commands → XcpSlaveNode → XcpSlaveNode
after_write (move, write, read) n = (process_cro write (process_cro move n).1).1

calibration_commands :
    (a : ℕ) (bytes : Bytes) (count : ℕ) (m : XcpMaster)
    → a < 2 ^ 32
    → length bytes ≤ 6
    → count < 256
    → calibration a bytes count m
      ≡ ok (
        build_cro (0xf6 ∷ 0 ∷ 0 ∷ 0 ∷ be32 a) m,
        build_cro (frame_of (0xf0 ∷ length bytes ∷ bytes)) m,
        build_cro (0xf5 ∷ count ∷ 0 ∷ 0 ∷ 0 ∷ 0 ∷ 0 ∷ 0 ∷ []) m,
      )
unfolding create_set_mta_cro create_upload_cro pack_be32 as_byte
calibration_commands a bytes count m h short few = ground (arith, write_frame bytes m short)

-- A calibration works end to end: on a connected node, at an address that it has and that is not
-- protected or a node that is unlocked, the commands which the master builds for a value of at most
-- six bytes write that value, leave every other address alone, and read the value back.
pub calibrate_round_trip :
    (a : ℕ) (bytes : Bytes) (count : ℕ) (m : XcpMaster) (n : XcpSlaveNode)
    → a < 2 ^ 32
    → length bytes ≤ 6
    → count < 256
    → n.is_connected ≡ true
    → contains a n.memory ≡ true
    → (is_protected a ≡ false) ⊎ (n.is_unlocked ≡ true)
    → (c : Commands) × (reply : Message) × (payload : Bytes) × (calibration a bytes count m ≡ ok c)
      × (after_write c n ≡ record n { mta = a; memory = insert a bytes n.memory })
      × ((process_cro c.2 (after_write c n)).0 ≡ ok reply)
      × (parse_dto_response reply ≡ ok (res payload))
      × (take (length bytes) payload ≡ bytes)
calibrate_round_trip a bytes count m n h short few c known may =
    let moved_node = record n { mta = a } in
    let written_node = record n { mta = a; memory = insert a bytes n.memory } in
    let moved = set_mta_works a m n h c known in
    let done = download_works a bytes m moved_node short c refl known may in
    let found : lookup a written_node.memory ≡ some bytes =
      ground (arith, lookup-insert a a bytes n.memory) in
    let (payload, parsed, same) = read_back bytes written_node short in
    let wrote =
      ap
        (λ (k : XcpSlaveNode).
          (process_cro (build_cro (frame_of (0xf0 ∷ length bytes ∷ bytes)) m) k).1)
        moved
      ∙ done in
    let asked = upload_works a count bytes m written_node c refl found in
    (
      _,
      build_dto 0xff bytes written_node,
      payload,
      calibration_commands a bytes count m h short few,
      wrote,
      ap
            (λ (k : XcpSlaveNode).
              (process_cro (build_cro (0xf5 ∷ count ∷ 0 ∷ 0 ∷ 0 ∷ 0 ∷ 0 ∷ 0 ∷ []) m) k).0)
            wrote
          ∙ ap (λ (r : Reply). r.0) asked,
      parsed,
      same,
    )

unlock_command :
    (k : ℕ) (m : XcpMaster)
    → create_unlock_cro (be32 k) m ≡ ok (build_cro (0xf7 ∷ 4 ∷ be32 k ++ 0 ∷ 0 ∷ []) m)
unfolding create_unlock_cro as_byte pad
unlock_command k m = refl

-- Exactly one key unlocks a connected node that is locked: the one for its current seed.
unlock_exact :
    (k : ℕ) (m : XcpMaster) (n : XcpSlaveNode)
    → k < 2 ^ 32
    → n.is_connected ≡ true
    → n.is_unlocked ≡ false
    → (c : Message) × (create_unlock_cro (be32 k) m ≡ ok c)
      × (((process_cro c n).1.is_unlocked ≡ true) ↔ (k ≡ expected_key n.current_seed))
unfolding process_cro build_cro
unlock_exact k m n h c locked = (
  build_cro (0xf7 ∷ 4 ∷ be32 k ++ 0 ∷ 0 ∷ []) m,
  unlock_command k m,
  ((λ u. ground (arith, unpack-pack_be32 k h)), (λ e. ground (arith, unpack-pack_be32 k h))),
)
