-- ===== src/SecOc/Senders.antt =====
-- The frames that a receiver accepts, by the transmitters that send them.
use automotive_testing_frame.Prelude.{
  Option, Result, zero, suc, ◌∙◌, sym, inl, inr, ℕ, ◌≤◌, ◌≡◌, refl, ap, ◌↔◌, some, arith, length,
  take, length-take, Result-cases, ok, err,
}
use automotive_testing_frame.Prelude.Int.{ℤ, pos, negsuc, ◌+ℤ◌, ◌≤ℤ◌, +ℤ_parts, eq_of_parts}
use automotive_testing_frame.Prelude.Bytes.{Bytes}
use automotive_testing_frame.SecOc.Crypto.{
  SecOcError, SecOcEngine, data_to_sign, generate_mac, get_freshness_value, increment_freshness,
}
use automotive_testing_frame.SecOc.Encoding.{data_to_sign-inv}
use automotive_testing_frame.SecOc.Nodes.{
  SecuredPdu, TransmitterEcu, ReceiverEcu, expected_length, secure_transmit,
}
use automotive_testing_frame.SecOc.Acceptance.{
  Accepts, IsAdmissible, Accepts-IsAdmissible, generate_mac-inv,
}

-- A transmitter with the key of a receiver and a counter of its own.
abbrev pub sharing : ReceiverEcu → ℤ → TransmitterEcu
sharing r fv = record { crypto = record { secret_key = r.crypto.secret_key; current_fv = fv } }

previous : (n : ℕ) → (v : ℤ) × (v +ℤ pos 1 ≡ pos n)
unfolding ◌+ℤ◌
previous zero = (negsuc 0, refl)
previous (suc n) =
    (pos n, ground (arith, +ℤ_parts (pos n) (pos 1), eq_of_parts (pos n +ℤ pos 1) (pos (suc n))))

-- A frame is what its entries are.
frame_by_parts :
    (f : SecuredPdu) (k : Option ℤ) {m v : Option ℤ} {p c : Option Bytes}
    → f.message_id ≡ m
    → f.payload ≡ p
    → f.freshness_value ≡ v
    → f.mac ≡ c
    → Path SecuredPdu
        (record { message_id = m; payload = p; freshness_value = v; mac = c; mac_length = k })
        (record f { mac_length = k })
frame_by_parts f k hm hp hv hc = rw (← hm, ← hp, ← hv, ← hc) refl

module _ (hmac_sha256 : Bytes → Bytes → Bytes) where
  -- Such a transmitter, whose counter is not below the receiver's, sends the frame when it is asked
  -- for a code of the length that the frame states, which may be any from 0 to 32.
  pub record IsSendable (f : SecuredPdu) (r : ReceiverEcu) : Type 0 where
    pub message_id : ℤ
    pub payload : Bytes
    pub mac_length : ℕ
    pub counter : ℤ
    pub not_below : r.crypto.current_fv ≤ℤ counter
    pub fits : mac_length ≤ 32
    pub stated : pos mac_length ≡ expected_length f.mac_length
    pub sends :
        (secure_transmit hmac_sha256 message_id payload (pos mac_length) (sharing r counter)).0
        ≡ ok (record f { mac_length = some (pos mac_length) })

  -- The frame that a transmitter sends with a code.
  transmits :
      (i : ℤ) (p : Bytes) (k v : ℤ) (r : ReceiverEcu) {mac : Bytes}
      → generate_mac hmac_sha256 (some i) (some p) (v +ℤ pos 1) k (sharing r (v +ℤ pos 1)).crypto
        ≡ ok mac
      → (secure_transmit hmac_sha256 i p k (sharing r v)).0
        ≡ ok (record {
          message_id = some i;
          payload = some p;
          freshness_value = some (v +ℤ pos 1);
          mac = some mac;
          mac_length = some k;
        })
  unfolding secure_transmit get_freshness_value increment_freshness
  transmits i p k v r g = rw g refl

  fails_to_transmit :
      (i : ℤ) (p : Bytes) (k v : ℤ) (r : ReceiverEcu) {x : SecOcError}
      → generate_mac hmac_sha256 (some i) (some p) (v +ℤ pos 1) k (sharing r (v +ℤ pos 1)).crypto
        ≡ err x
      → (secure_transmit hmac_sha256 i p k (sharing r v)).0 ≡ err x
  unfolding secure_transmit get_freshness_value increment_freshness
  fails_to_transmit i p k v r g = rw g refl

  generates :
      (m : Option ℤ) (p : Option Bytes) (v : ℤ) (n : ℕ) (c : SecOcEngine) {signed mac : Bytes}
      → data_to_sign m p v ≡ ok signed
      → take n (hmac_sha256 c.secret_key signed) ≡ mac
      → generate_mac hmac_sha256 m p v (pos n) c ≡ ok mac
  unfolding generate_mac
  generates m p v n c d t = rw d (ap ok t)

  admissible_IsSendable :
      ((key message : Bytes) → length (hmac_sha256 key message) ≡ 32)
      → (f : SecuredPdu) (r : ReceiverEcu) → IsAdmissible hmac_sha256 f r
      → IsSendable f r
  admissible_IsSendable size f r a =
      let (i, p, n, s) = data_to_sign-inv f.message_id f.payload a.fv a.signed_eq in
      let (v, e) = previous n in
      let fv_eq : a.fv ≡ v +ℤ pos 1 = s.fv_eq ∙ sym e in
      let signs : data_to_sign (some (pos i)) (some p) (v +ℤ pos 1) ≡ ok a.signed = cc in
      let made =
        generates (some (pos i)) (some p) (v +ℤ pos 1) (length a.code)
          (sharing r (v +ℤ pos 1)).crypto signs a.code_matches in
      record {
        message_id = pos i;
        payload = p;
        mac_length = length a.code;
        counter = v;
        not_below = ground (arith, a.fresh, fv_eq, +ℤ_parts v (pos 1));
        fits = omega (
          arith,
          ap length a.code_matches,
          length-take (length a.code) (hmac_sha256 r.crypto.secret_key a.signed),
          size r.crypto.secret_key a.signed,
        );
        stated = a.length_stated;
        sends =
            transmits (pos i) p (pos (length a.code)) v r made
            ∙ ap ok (frame_by_parts f _ s.id_eq s.payload_eq (a.fv_eq ∙ ap some fv_eq) a.code_eq);
      }

  sendable_IsAdmissible :
      ((key message : Bytes) → length (hmac_sha256 key message) ≡ 32)
      → (f : SecuredPdu) (r : ReceiverEcu) → IsSendable f r
      → IsAdmissible hmac_sha256 f r
  sendable_IsAdmissible size f r a =
      let fv : ℤ = a.counter +ℤ pos 1 in
      let c : SecOcEngine = (sharing r fv).crypto in
      elim (Result-cases
        (generate_mac hmac_sha256 (some a.message_id) (some a.payload) fv (pos a.mac_length) c)) [
          | inl (mac, g) ↦
              let (signed, d, t) =
                generate_mac-inv hmac_sha256 (some a.message_id) (some a.payload) fv a.mac_length c
                  g in
              let made =
                sym (transmits a.message_id a.payload (pos a.mac_length) a.counter r g) ∙ a.sends in
              let same =
                ap (λ (x : Result SecOcError SecuredPdu). elim x [ ok g ↦ g | err e ↦ f ]) made in
              let id_eq : f.message_id ≡ some a.message_id = sym (ap (λ g. g.message_id) same) in
              let payload_eq : f.payload ≡ some a.payload = sym (ap (λ g. g.payload) same) in
              let size_eq : length mac ≡ a.mac_length = omega (
                arith,
                ap length t,
                length-take a.mac_length (hmac_sha256 c.secret_key signed),
                size c.secret_key signed,
                a.fits,
              ) in
              record {
                code = mac;
                fv = fv;
                signed = signed;
                code_eq = sym (ap (λ g. g.mac) same);
                length_stated = ap (λ n. pos n) size_eq ∙ a.stated;
                fv_eq = sym (ap (λ g. g.freshness_value) same);
                fresh = ground (arith, a.not_below, +ℤ_parts a.counter (pos 1));
                signed_eq = rw (id_eq, payload_eq) d;
                code_matches = rw size_eq t;
              }
          | inr (x, g) ↦ absurd (
              cc (
                fails_to_transmit a.message_id a.payload (pos a.mac_length) a.counter r g,
                a.sends,
              ))
        ]

  -- When the digests have 32 bytes, a receiver accepts exactly the frames that a transmitter with its
  -- key, whose counter is not below the receiver's, sends next when it is asked for a code of as many
  -- bytes as the frame states, or four when it states none. That may be any number up to 32: the
  -- receiver asks for no length of its own, so that a code of no bytes will do.
  pub Accepts-IsSendable :
      ((key message : Bytes) → length (hmac_sha256 key message) ≡ 32)
      → (f : SecuredPdu) (r : ReceiverEcu) → Accepts hmac_sha256 f r ↔ IsSendable f r
  Accepts-IsSendable size f r = (
    λ e. admissible_IsSendable size f r ((Accepts-IsAdmissible hmac_sha256 f r).0 e),
    λ a. (Accepts-IsAdmissible hmac_sha256 f r).1 (sendable_IsAdmissible size f r a),
  )
