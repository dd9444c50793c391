-- ===== src/SecOc/Tests.antt =====
-- Secured frames at concrete inputs, with a small stand-in for the digest.
use automotive_testing_frame.Prelude.{
  ◌+◌, ◌%◌, ◌≡◌, ◌↔◌, refl, true, none, some, [], ◌∷◌, ◌++◌, arith, sum, map, ok, err,
}
use automotive_testing_frame.Prelude.Int.{pos, ◌+ℤ◌}
use automotive_testing_frame.Prelude.Bytes.{Bytes, bytes_eq, pack_be16, pack_be32}
use automotive_testing_frame.SecOc.Crypto.{
  SecOcError, replay_attack_error, value_error, new, data_to_sign, generate_mac, verify_mac,
}
use automotive_testing_frame.SecOc.Nodes.{
  SecuredPdu, TransmitterEcu, ReceiverEcu, receive_secure_frame, receive_all, secure_transmit,
}
use automotive_testing_frame.SecOc.Acceptance.{Accepts}
use automotive_testing_frame.SecOc.Senders.{IsSendable, Accepts-IsSendable}
use automotive_testing_frame.SecOc.Replay.{
  replay_refused, accepted, received_in_order, IsRisingFrom,
}
use automotive_testing_frame.SecOc.Forgery.{unsigned_frame, unsigned_accepted, transmit_receive}

abbrev zeros : Bytes
zeros = 0 ∷ 0 ∷ 0 ∷ 0 ∷ 0 ∷ 0 ∷ 0 ∷ 0 ∷ 0 ∷ 0 ∷ 0 ∷ 0 ∷ 0 ∷ 0 ∷ 0 ∷ []

-- 32 bytes that depend on the key and the message.
abbrev digest : Bytes → Bytes → Bytes
digest key message = (sum key + sum message) % 256 ∷ 0 ∷ zeros ++ zeros

abbrev key : Bytes
key = 1 ∷ zeros

abbrev transmitter : TransmitterEcu
transmitter = record { crypto = record { secret_key = key; current_fv = pos 4 } }

abbrev receiver : ReceiverEcu
receiver = record {
  crypto = record { secret_key = key; current_fv = pos 2 };
  received_messages = [];
}

new_short_key : new zeros ≡ err value_error
unfolding new
new_short_key = refl

-- A frame with the code 1 + 0x01 + 0x23 + 7 + 3.
abbrev frame : SecuredPdu
frame = record {
  message_id = some (pos 0x123);
  payload = some (7 ∷ []);
  freshness_value = some (pos 3);
  mac = some (47 ∷ 0 ∷ 0 ∷ 0 ∷ []);
  mac_length = none;
}

frame_accepted : Accepts digest frame receiver
unfolding receive_secure_frame verify_mac generate_mac data_to_sign pack_be16 pack_be32 bytes_eq
frame_accepted = refl

transmit_receive_example :
    let (sending, t') = secure_transmit digest (pos 0x123) (7 ∷ []) (pos 4) transmitter in
    (f : SecuredPdu) × (sending ≡ ok f)
    × (receive_secure_frame digest f receiver ≡ (
      ok (some true),
      record {
        crypto = t'.crypto;
        received_messages = receiver.received_messages ++ some (7 ∷ []) ∷ [];
      },
    ))
unfolding ◌+ℤ◌
transmit_receive_example =
    transmit_receive digest (λ k m. refl) 0x123 (7 ∷ []) 4 5 transmitter receiver (omega arith) refl
      (omega arith) (omega arith) refl (omega arith)

Accepts-IsSendable_example : Accepts digest frame receiver ↔ IsSendable digest frame receiver
Accepts-IsSendable_example = Accepts-IsSendable digest (λ k m. refl) frame receiver

-- The frame with another payload.
abbrev tampered : SecuredPdu
tampered = record frame { payload = some (8 ∷ []) }

tampered_refused :
    (receive_secure_frame digest tampered receiver).0 ≡ err SecOcError.mac_validation_error
unfolding receive_secure_frame verify_mac generate_mac data_to_sign pack_be16 pack_be32 bytes_eq
tampered_refused = refl

not_accepted : ¬ (Accepts digest tampered receiver)
not_accepted e = cc tampered_refused

replay_refused_example :
    let later = receive_all digest (frame ∷ tampered ∷ []) receiver in
    receive_secure_frame digest frame later ≡ (err replay_attack_error, later)
replay_refused_example = replay_refused digest frame (tampered ∷ []) receiver frame_accepted

received_in_order_example :
    ((receive_all digest (frame ∷ tampered ∷ frame ∷ []) receiver).received_messages
      ≡ receiver.received_messages
        ++ map (λ f. f.payload) (accepted digest (frame ∷ tampered ∷ frame ∷ []) receiver))
    × IsRisingFrom digest receiver.crypto.current_fv
        (accepted digest (frame ∷ tampered ∷ frame ∷ []) receiver)
received_in_order_example = received_in_order digest (frame ∷ tampered ∷ frame ∷ []) receiver

unsigned_accepted_example :
    receive_secure_frame digest (unsigned_frame 0x7ff (255 ∷ []) 9) receiver ≡ (
      ok (some true),
      record {
        crypto = record receiver.crypto { current_fv = pos 9 };
        received_messages = receiver.received_messages ++ some (255 ∷ []) ∷ [];
      },
    )
unsigned_accepted_example =
    unsigned_accepted digest 0x7ff (255 ∷ []) 9 receiver (omega arith) (omega arith) (omega arith)

abbrev last_receiver : ReceiverEcu
last_receiver = record receiver { crypto = record receiver.crypto { current_fv = pos 0xffff_ffff } }
