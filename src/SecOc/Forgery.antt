-- ===== src/SecOc/Forgery.antt =====
-- What an attacker who does not know the key can do, and what the transmitter's frames meet.
use automotive_testing_frame.Prelude.{
  zero, suc, length-take, true, ℕ, ◌<◌, ◌≤◌, ◌^◌, ◌≡◌, refl, ◌∙◌, ap, some, [], ◌∷◌, ◌++◌, arith,
  length, take, ok,
}
use automotive_testing_frame.Prelude.Int.{+ℤ_parts, pos, ◌+ℤ◌, ◌≤ℤ◌, ◌<ℤ◌}
use automotive_testing_frame.Prelude.Bytes.{Bytes, be16, be32}
use automotive_testing_frame.SecOc.Crypto.{generate_mac, get_freshness_value, increment_freshness}
use automotive_testing_frame.SecOc.Encoding.{data_to_sign-ok}
use automotive_testing_frame.SecOc.Nodes.{
  SecuredPdu, TransmitterEcu, ReceiverEcu, receive_secure_frame, secure_transmit,
}
use automotive_testing_frame.SecOc.Acceptance.{IsAdmissible, admissible_advances}

-- A frame with an empty code.
abbrev pub unsigned_frame : ℕ → Bytes → ℕ → SecuredPdu
unsigned_frame i payload n = record {
  message_id = some (pos i);
  payload = some payload;
  freshness_value = some (pos n);
  mac = some [];
  mac_length = some (pos 0);
}

module _ (hmac_sha256 : Bytes → Bytes → Bytes) where
  unsigned-IsAdmissible :
      (i : ℕ) (payload : Bytes) (n : ℕ) (r : ReceiverEcu)
      → i < 2 ^ 16
      → n < 2 ^ 32
      → r.crypto.current_fv <ℤ pos n
      → IsAdmissible hmac_sha256 (unsigned_frame i payload n) r
  unsigned-IsAdmissible i payload n r hi hn up = record {
    code = [];
    fv = pos n;
    signed = (be16 i ++ payload) ++ be32 n;
    code_eq = refl;
    length_stated = refl;
    fv_eq = refl;
    fresh = up;
    signed_eq = data_to_sign-ok i payload n hi hn;
    code_matches = refl;
  }

  -- The length of the code is taken from the frame: a frame that states the length 0 and has an
  -- empty code is accepted with any payload, any identifier and any later freshness value, whatever
  -- the key is.
  pub unsigned_accepted :
      (i : ℕ) (payload : Bytes) (n : ℕ) (r : ReceiverEcu)
      → i < 2 ^ 16
      → n < 2 ^ 32
      → r.crypto.current_fv <ℤ pos n
      → receive_secure_frame hmac_sha256 (unsigned_frame i payload n) r ≡ (
        ok (some true),
        record {
          crypto = record r.crypto { current_fv = pos n };
          received_messages = r.received_messages ++ some payload ∷ [];
        },
      )
  unfolding unsigned-IsAdmissible
  unsigned_accepted i payload n r hi hn up =
      admissible_advances hmac_sha256 (unsigned_frame i payload n) r
        (unsigned-IsAdmissible i payload n r hi hn up)

  abbrev pub frame_of : ℕ → Bytes → ℕ → ℕ → Bytes → SecuredPdu
  frame_of i payload k n key = record {
    message_id = some (pos i);
    payload = some payload;
    freshness_value = some (pos n);
    mac = some (take k (hmac_sha256 key ((be16 i ++ payload) ++ be32 n)));
    mac_length = some (pos k);
  }

  -- What a transmitter sends.
  pub sent :
      (i : ℕ) (payload : Bytes) (k n : ℕ) (t : TransmitterEcu)
      → i < 2 ^ 16
      → t.crypto.current_fv +ℤ pos 1 ≡ pos n
      → n < 2 ^ 32
      → secure_transmit hmac_sha256 (pos i) payload (pos k) t ≡ (
        ok (frame_of i payload k n t.crypto.secret_key),
        record { crypto = record t.crypto { current_fv = pos n } },
      )
  unfolding secure_transmit generate_mac get_freshness_value increment_freshness
  sent i payload k n t hi e hn = rw e (rw (data_to_sign-ok i payload n hi hn))

  pub take-take : (k : ℕ) (bs : Bytes) → take (length (take k bs)) bs ≡ take k bs
  take-take zero bs = refl
  take-take (suc k) [] = refl
  take-take (suc k) (b ∷ bs) = ap (λ r. b ∷ r) (take-take k bs)

  sent-IsAdmissible :
      (i : ℕ) (payload : Bytes) (k n : ℕ) (key : Bytes) (r : ReceiverEcu)
      → length (hmac_sha256 key ((be16 i ++ payload) ++ be32 n)) ≡ 32
      → i < 2 ^ 16
      → n < 2 ^ 32
      → k ≤ 32
      → r.crypto.secret_key ≡ key
      → r.crypto.current_fv <ℤ pos n
      → IsAdmissible hmac_sha256 (frame_of i payload k n key) r
  sent-IsAdmissible i payload k n key r size hi hn hk same up = record {
    code = take k (hmac_sha256 key ((be16 i ++ payload) ++ be32 n));
    fv = pos n;
    signed = (be16 i ++ payload) ++ be32 n;
    code_eq = refl;
    length_stated =
        ap (λ m. pos m)
          (omega (arith, length-take k (hmac_sha256 key ((be16 i ++ payload) ++ be32 n))));
    fv_eq = refl;
    fresh = up;
    signed_eq = data_to_sign-ok i payload n hi hn;
    code_matches = rw same (take-take k (hmac_sha256 key ((be16 i ++ payload) ++ be32 n)));
  }

  -- A frame from a transmitter reaches a receiver with the same key: for an identifier of 16 bits, a
  -- freshness value of 32 bits that the receiver has not passed, and a code of at most the 32 bytes
  -- of the digest, the receiver takes the payload and both ends agree on the freshness value.
  pub transmit_receive :
      ((key message : Bytes) → length (hmac_sha256 key message) ≡ 32)
      → (i : ℕ) (payload : Bytes) (k n : ℕ) (t : TransmitterEcu) (r : ReceiverEcu) → i < 2 ^ 16
      → t.crypto.current_fv +ℤ pos 1 ≡ pos n
      → n < 2 ^ 32
      → k ≤ 32
      → r.crypto.secret_key ≡ t.crypto.secret_key
      → r.crypto.current_fv ≤ℤ t.crypto.current_fv
      → let (sending, t') = secure_transmit hmac_sha256 (pos i) payload (pos k) t in
        (f : SecuredPdu) × (sending ≡ ok f)
        × (receive_secure_frame hmac_sha256 f r ≡ (
          ok (some true),
          record {
            crypto = t'.crypto;
            received_messages = r.received_messages ++ some payload ∷ [];
          },
        ))
  unfolding sent-IsAdmissible
  transmit_receive size i payload k n t r hi e hn hk same old =
      let s = sent i payload k n t hi e hn in
      let up : r.crypto.current_fv <ℤ pos n =
        ground (arith, +ℤ_parts t.crypto.current_fv (pos 1)) in
      let a = sent-IsAdmissible i payload k n t.crypto.secret_key r (size _ _) hi hn hk same up in
      let f = frame_of i payload k n t.crypto.secret_key in
      rw s (f, refl, admissible_advances hmac_sha256 f r a ∙ rw same)
