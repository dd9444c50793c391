-- ===== src/SecOc/Acceptance.antt =====
-- Which frames a receiver accepts, and what a refusal changes.
use automotive_testing_frame.Prelude.{
  Bool-cases, ap, ◌⊎◌, ◌∙◌, inr, inl, Result-cases, Option-cases, ℕ, ◌≡◌, ◌↔◌, Bool, true, Option,
  some, [], ◌∷◌, ◌++◌, arith, length, take, Result, ok, err,
}
use automotive_testing_frame.Prelude.Int.{leb_ℤ, ◌==ℤ◌, ℤ, pos, ◌<ℤ◌, eq_of_parts}
use automotive_testing_frame.Prelude.Bytes.{Bytes, bytes_eq, bytes_eq_sound, bytes_eq_refl}
use automotive_testing_frame.SecOc.Crypto.{
  mac_validation_error, replay_attack_error, type_error, SecOcError, SecOcEngine, data_to_sign,
  generate_mac, verify_mac,
}
use automotive_testing_frame.SecOc.Nodes.{
  SecuredPdu, ReceiverEcu, expected_length, receive_secure_frame,
}

module _ (hmac_sha256 : Bytes → Bytes → Bytes) where
  abbrev pub Accepts : SecuredPdu → ReceiverEcu → Type 0
  Accepts f r = (receive_secure_frame hmac_sha256 f r).0 ≡ ok (some true)

  -- What the receiver asks of a frame: a code of the stated length, a freshness value that it has
  -- not passed, and that the code is the start of the digest of what the frame says.
  pub record IsAdmissible (f : SecuredPdu) (r : ReceiverEcu) : Type 0 where
    pub code : Bytes
    pub fv : ℤ
    pub signed : Bytes
    pub code_eq : f.mac ≡ some code
    pub length_stated : pos (length code) ≡ expected_length f.mac_length
    pub fv_eq : f.freshness_value ≡ some fv
    pub fresh : r.crypto.current_fv <ℤ fv
    pub signed_eq : data_to_sign f.message_id f.payload fv ≡ ok signed
    pub code_matches : take (length code) (hmac_sha256 r.crypto.secret_key signed) ≡ code

  -- What the receiver is after a frame that it accepted.
  abbrev pub advanced : SecuredPdu → ℤ → ReceiverEcu → ReceiverEcu
  advanced f fv r = record {
    crypto = record r.crypto { current_fv = fv };
    received_messages = r.received_messages ++ f.payload ∷ [];
  }

  pub generate_mac-inv :
      (m : Option ℤ) (p : Option Bytes) (v : ℤ) (n : ℕ) (c : SecOcEngine) {mac : Bytes}
      → generate_mac hmac_sha256 m p v (pos n) c ≡ ok mac
      → (signed : Bytes) × (data_to_sign m p v ≡ ok signed)
        × (take n (hmac_sha256 c.secret_key signed) ≡ mac)
  unfolding generate_mac
  generate_mac-inv m p v n c e = elim (Result-cases (data_to_sign m p v)) [
    | inl (signed, h) ↦ (signed, h, ground arith)
    | inr (x, h) ↦ absurd (ground arith)
  ]

  verify_mac-inv :
      (f : SecuredPdu) (code : Bytes) (c : SecOcEngine)
      → (verify_mac hmac_sha256 f.message_id f.payload f.freshness_value code c).0 ≡ ok true
      → (fv : ℤ) × (signed : Bytes) × (f.freshness_value ≡ some fv)
        × (c.current_fv <ℤ fv)
        × (data_to_sign f.message_id f.payload fv ≡ ok signed)
        × (take (length code) (hmac_sha256 c.secret_key signed) ≡ code)
  unfolding verify_mac
  verify_mac-inv f code c e = elim (Option-cases f.freshness_value) [
    | inl absent ↦ absurd (ground arith)
    | inr (fv, h) ↦
        elim (Result-cases
          (generate_mac hmac_sha256 f.message_id f.payload fv (pos (length code)) c)) [
            | inl (mac, g) ↦
                let (signed, d, t) = generate_mac-inv f.message_id f.payload fv (length code) c g in
                (fv, signed, h, ground arith, d, t ∙ bytes_eq_sound mac code (ground arith))
            | inr (x, g) ↦ absurd (ground arith)
          ]
  ]

  stored_true :
      (f : SecuredPdu) (code : Bytes) (r : ReceiverEcu)
      → f.mac ≡ some code
      → Accepts f r
      → (pos (length code) ≡ expected_length f.mac_length)
        × ((verify_mac hmac_sha256 f.message_id f.payload f.freshness_value code r.crypto).0
            ≡ ok true)
  unfolding receive_secure_frame
  stored_true f code r m e =
      ground (arith, eq_of_parts (pos (length code)) (expected_length f.mac_length))

  accepted_IsAdmissible : (f : SecuredPdu) (r : ReceiverEcu) → Accepts f r → IsAdmissible f r
  unfolding receive_secure_frame
  accepted_IsAdmissible f r e = elim (Option-cases f.mac) [
    | inl absent ↦ absurd (ground arith)
    | inr (code, m) ↦
        let (l, t) = stored_true f code r m e in
        let (fv, signed, h, up, d, k) = verify_mac-inv f code r.crypto t in
        record {
          code = code;
          fv = fv;
          signed = signed;
          code_eq = m;
          length_stated = l;
          fv_eq = h;
          fresh = up;
          signed_eq = d;
          code_matches = k;
        }
  ]

  -- an admissible frame is accepted: its payload is kept and its freshness value taken over.
  pub admissible_advances :
      (f : SecuredPdu) (r : ReceiverEcu) (a : IsAdmissible f r)
      → receive_secure_frame hmac_sha256 f r ≡ (ok (some true), advanced f a.fv r)
  unfolding receive_secure_frame verify_mac generate_mac
  admissible_advances f r a = ground (
    arith,
    a.code_eq,
    a.length_stated,
    a.fv_eq,
    a.fresh,
    a.signed_eq,
    a.code_matches,
    bytes_eq_refl a.code,
  )

  -- A receiver accepts exactly the admissible frames.
  pub Accepts-IsAdmissible : (f : SecuredPdu) (r : ReceiverEcu) → Accepts f r ↔ IsAdmissible f r
  Accepts-IsAdmissible f r = (
    accepted_IsAdmissible f r,
    λ a.
        ap (λ (p : Result SecOcError (Option Bool) × ReceiverEcu). p.0) (admissible_advances f r a),
  )

  verify_mac-outcomes :
      (f : SecuredPdu) (code : Bytes) (c : SecOcEngine)
      → let out = verify_mac hmac_sha256 f.message_id f.payload f.freshness_value code c in
        (out.0 ≡ ok true) ⊎ ((x : SecOcError) × (out ≡ (err x, c)))
  unfolding verify_mac
  verify_mac-outcomes f code c = elim (Option-cases f.freshness_value) [
    | inl absent ↦ inr (type_error, ground arith)
    | inr (fv, h) ↦ elim (Bool-cases (leb_ℤ fv c.current_fv)) [
      | inl old ↦ inr (replay_attack_error, ground arith)
      | inr new ↦
          elim (Result-cases
            (generate_mac hmac_sha256 f.message_id f.payload fv (pos (length code)) c)) [
              | inr (x, g) ↦ inr (x, ground arith)
              | inl (mac, g) ↦ elim (Bool-cases (bytes_eq mac code)) [
                | inl same ↦ inl (ground arith)
                | inr other ↦ inr (mac_validation_error, ground arith)
              ]
            ]
    ]
  ]

  pub receive-cases :
      (f : SecuredPdu) (r : ReceiverEcu)
      → Accepts f r ⊎ ((x : SecOcError) × (receive_secure_frame hmac_sha256 f r ≡ (err x, r)))
  unfolding receive_secure_frame
  receive-cases f r = elim (Option-cases f.mac) [
    | inl absent ↦ inr (type_error, ground arith)
    | inr (code, m) ↦ elim (Bool-cases (pos (length code) ==ℤ expected_length f.mac_length)) [
      | inr wrong ↦ inr (mac_validation_error, ground arith)
      | inl stated ↦ elim (verify_mac-outcomes f code r.crypto) [
        | inl fine ↦ inl (ground arith)
        | inr (x, out) ↦ inr (x, ground arith)
      ]
    ]
  ]

  -- A frame that is not admissible raises, and leaves the receiver as it was.
  refused_unchanged :
      (f : SecuredPdu) (r : ReceiverEcu)
      → ¬ (IsAdmissible f r)
      → (x : SecOcError) × (receive_secure_frame hmac_sha256 f r ≡ (err x, r))
  refused_unchanged f r forged = elim (receive-cases f r) [
    | inl fine ↦ absurd (forged (accepted_IsAdmissible f r fine))
    | inr refused ↦ refused
  ]
