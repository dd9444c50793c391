-- ===== src/Xcp/Tests.antt =====
-- A calibration session at concrete inputs.
use automotive_testing_frame.Prelude.{◌≡◌, inl, refl, true, false, [], ◌∷◌, arith, length, ok, take}
use automotive_testing_frame.Prelude.Int.{pos}
use automotive_testing_frame.Prelude.Bytes.{Bytes, unpack_be32}
use automotive_testing_frame.Prelude.Dict.{lookup, insert}
use automotive_testing_frame.Xcp.Frames.{Message}
use automotive_testing_frame.Xcp.Slave.{XcpSlaveNode, init, process_cro, process_all}
use automotive_testing_frame.Xcp.Slave.Protection.{protected_without_key}
use automotive_testing_frame.Xcp.Master.{XcpMaster, res, parse_dto_response}
use automotive_testing_frame.Xcp.Calibration.{
  Commands, calibration, after_write, calibrate_round_trip,
}

abbrev master : XcpMaster
master = record { target_node_id = pos 0x600 }

abbrev slave : XcpSlaveNode
slave = init (pos 0x600)

abbrev online : XcpSlaveNode
online = record slave { is_connected = true }

abbrev upload_frame : Message
upload_frame = record {
  arbitration_id = pos 0x600;
  data_bytes = 0xf5 ∷ 4 ∷ [];
  is_extended_id = false;
}

abbrev key_frame : Message
key_frame = record upload_frame { data_bytes = 0xf7 ∷ 4 ∷ 0xde ∷ 0xad ∷ 0xbe ∷ 0xef ∷ [] }

abbrev connect_frame : Message
connect_frame = record upload_frame { data_bytes = 0xff ∷ [] }

protected_without_key_example :
    lookup 0x1004 (process_all (connect_frame ∷ upload_frame ∷ []) slave).memory
    ≡ lookup 0x1004 slave.memory
unfolding init
protected_without_key_example =
    protected_without_key 0x1004 (connect_frame ∷ upload_frame ∷ []) slave refl refl (inl refl)
      ((λ k. ground (arith, k.0)), ((λ k. ground (arith, k.0)), tt))

abbrev limit : Bytes
limit = 130 ∷ 0 ∷ 0 ∷ 0 ∷ []

calibrate_round_trip_example :
    (c : Commands) × (reply : Message) × (payload : Bytes) × (calibration 0x1000 limit 4 master
      ≡ ok c)
    × (after_write c online
        ≡ record online { mta = 0x1000; memory = insert 0x1000 limit online.memory })
    × ((process_cro c.2 (after_write c online)).0 ≡ ok reply)
    × (parse_dto_response reply ≡ ok (res payload))
    × (take (length limit) payload ≡ limit)
unfolding init lookup
calibrate_round_trip_example =
    calibrate_round_trip 0x1000 limit 4 master online (omega arith) (omega arith) (omega arith) refl
      refl (inl refl)

-- A node that has given out no seed takes the key for the seed 0.
unseeded_unlock :
    (process_all (connect_frame ∷ key_frame ∷ []) (init (pos 0x600))).is_unlocked ≡ true
unfolding init process_all process_cro unpack_be32
unseeded_unlock = refl
