-- ===== src/SecOc/Replay.antt =====
-- The freshness value of a receiver only rises, so nothing is accepted twice.
use mathlib.Core.Path.{subst₂}
use mathlib.Core.List.{append-nil, append_assoc}
use automotive_testing_frame.Prelude.{
  map, length, ◌≡◌, Bool, Option, some, List, [], ◌∷◌, ◌++◌, arith, Result, ok, err, ap, sym, ◌∙◌,
  inl, inr, ◌⊎◌,
}
use automotive_testing_frame.Prelude.Int.{ℤ, pos, ◌≤ℤ◌, ◌<ℤ◌}
use automotive_testing_frame.Prelude.Bytes.{Bytes}
use automotive_testing_frame.SecOc.Crypto.{replay_attack_error, SecOcError, SecOcEngine, verify_mac}
use automotive_testing_frame.SecOc.Nodes.{
  SecuredPdu, ReceiverEcu, expected_length, receive_secure_frame, receive_all,
}
use automotive_testing_frame.SecOc.Acceptance.{
  receive-cases, Accepts, IsAdmissible, advanced, admissible_advances, Accepts-IsAdmissible,
}

module _ (hmac_sha256 : Bytes → Bytes → Bytes) where
  receive-outcome :
      (f : SecuredPdu) (r : ReceiverEcu)
      → (IsAdmissible hmac_sha256 f r)
        ⊎ ((x : SecOcError) × (receive_secure_frame hmac_sha256 f r ≡ (err x, r)))
  receive-outcome f r = elim (receive-cases hmac_sha256 f r) [
    | inl e ↦ inl ((Accepts-IsAdmissible hmac_sha256 f r).0 e)
    | inr x ↦ inr x
  ]

  receive-rises :
      (f : SecuredPdu) (r : ReceiverEcu)
      → r.crypto.current_fv ≤ℤ (receive_secure_frame hmac_sha256 f r).1.crypto.current_fv
  receive-rises f r = elim (receive-outcome f r) [
    | inl a ↦ rw (admissible_advances hmac_sha256 f r a) (omega (arith, a.fresh))
    | inr (x, same) ↦ rw same (omega arith)
  ]

  pub receive_all-rises :
      (fs : List SecuredPdu) (r : ReceiverEcu)
      → r.crypto.current_fv ≤ℤ (receive_all hmac_sha256 fs r).crypto.current_fv
  unfolding receive_all
  receive_all-rises [] r = omega arith
  receive_all-rises (f ∷ fs) r =
      omega
        (arith, receive-rises f r, receive_all-rises fs (receive_secure_frame hmac_sha256 f r).1)

  verify_passed :
      (f : SecuredPdu) (code : Bytes) (fv : ℤ) (c : SecOcEngine)
      → f.freshness_value ≡ some fv
      → fv ≤ℤ c.current_fv
      → verify_mac hmac_sha256 f.message_id f.payload f.freshness_value code c
        ≡ (err replay_attack_error, c)
  unfolding verify_mac
  verify_passed f code fv c h old = rw h (ground arith)

  passed_refused :
      (f : SecuredPdu) (r : ReceiverEcu) (code : Bytes) (fv : ℤ)
      → f.mac ≡ some code
      → pos (length code) ≡ expected_length f.mac_length
      → f.freshness_value ≡ some fv
      → fv ≤ℤ r.crypto.current_fv
      → receive_secure_frame hmac_sha256 f r ≡ (err replay_attack_error, r)
  unfolding receive_secure_frame
  passed_refused f r code fv m l h old = ground (arith, verify_passed f code fv r.crypto h old)

  -- A frame that was accepted once is refused as a replay ever after, whatever was received in
  -- between, and the refusal changes nothing.
  pub replay_refused :
      (f : SecuredPdu) (fs : List SecuredPdu) (r : ReceiverEcu)
      → Accepts hmac_sha256 f r
      → let later = receive_all hmac_sha256 (f ∷ fs) r in
        receive_secure_frame hmac_sha256 f later ≡ (err replay_attack_error, later)
  unfolding receive_all
  replay_refused f fs r e =
      let a = (Accepts-IsAdmissible hmac_sha256 f r).0 e in
      let after = (receive_secure_frame hmac_sha256 f r).1 in
      let reached : a.fv ≤ℤ after.crypto.current_fv =
        rw (admissible_advances hmac_sha256 f r a) (omega arith) in
      passed_refused f (receive_all hmac_sha256 fs after) a.code a.fv a.code_eq a.length_stated
        a.fv_eq (omega (arith, receive_all-rises fs after, reached))

  abbrev pub keep : SecuredPdu → Result SecOcError (Option Bool) → List SecuredPdu → List SecuredPdu
  keep f (ok b) rest = f ∷ rest
  keep f (err x) rest = rest

  -- The frames of a sequence that a receiver accepts.
  pub accepted : List SecuredPdu → ReceiverEcu → List SecuredPdu
  accepted [] r = []
  accepted (f ∷ fs) r =
      let (result, r') = receive_secure_frame hmac_sha256 f r in keep f result (accepted fs r')

  abbrev pub IsRisingFrom : ℤ → List SecuredPdu → Type 0
  IsRisingFrom v [] = Unit
  IsRisingFrom v (f ∷ fs) = (w : ℤ) × (f.freshness_value ≡ some w) × (v <ℤ w) × IsRisingFrom w fs

  receive_all-next :
      (f : SecuredPdu) (fs : List SecuredPdu) (r : ReceiverEcu)
      {out : Result SecOcError (Option Bool) × ReceiverEcu}
      → receive_secure_frame hmac_sha256 f r ≡ out
      → receive_all hmac_sha256 (f ∷ fs) r ≡ receive_all hmac_sha256 fs out.1
  unfolding receive_all
  receive_all-next f fs r e =
      ap (λ (p : Result SecOcError (Option Bool) × ReceiverEcu). receive_all hmac_sha256 fs p.1) e

  accepted-next :
      (f : SecuredPdu) (fs : List SecuredPdu) (r : ReceiverEcu)
      {out : Result SecOcError (Option Bool) × ReceiverEcu}
      → receive_secure_frame hmac_sha256 f r ≡ out
      → accepted (f ∷ fs) r ≡ keep f out.0 (accepted fs out.1)
  unfolding accepted
  accepted-next f fs r e =
      ap (λ (p : Result SecOcError (Option Bool) × ReceiverEcu). keep f p.0 (accepted fs p.1)) e

  -- The messages `ms` and the freshness value `v` of a receiver, and what it is and has accepted later.
  abbrev IsInOrder : List (Option Bytes) → ℤ → ReceiverEcu → List SecuredPdu → Type 0
  IsInOrder ms v later acc =
      (later.received_messages ≡ ms ++ map (λ f. f.payload) acc) × IsRisingFrom v acc

  IsInOrder-all :
      (fs : List SecuredPdu) (r : ReceiverEcu)
      → IsInOrder r.received_messages r.crypto.current_fv
          (receive_all hmac_sha256 fs r)
          (accepted fs r)
  unfolding receive_all accepted
  IsInOrder-all [] r = (sym (append-nil r.received_messages), tt)
  IsInOrder-all (f ∷ fs) r = elim (receive-outcome f r) [
    | inl a ↦
        let e = admissible_advances hmac_sha256 f r a in
        let ih = IsInOrder-all fs (advanced hmac_sha256 f a.fv r) in
        subst₂ (λ later acc. IsInOrder r.received_messages r.crypto.current_fv later acc)
          (sym (receive_all-next f fs r e)) (sym (accepted-next f fs r e))
          (
            ih.0 ∙ append_assoc r.received_messages (f.payload ∷ []) _,
            (a.fv, a.fv_eq, a.fresh, ih.1),
          )
    | inr (x, e) ↦
        subst₂ (λ later acc. IsInOrder r.received_messages r.crypto.current_fv later acc)
          (sym (receive_all-next f fs r e)) (sym (accepted-next f fs r e)) (IsInOrder-all fs r)
  ]

  -- The receiver keeps the payloads of the frames that it accepts, in order and each once, and
  -- their freshness values rise strictly from the one that it started with.
  pub received_in_order :
      (fs : List SecuredPdu) (r : ReceiverEcu)
      → ((receive_all hmac_sha256 fs r).received_messages
          ≡ r.received_messages ++ map (λ f. f.payload) (accepted fs r))
        × IsRisingFrom r.crypto.current_fv (accepted fs r)
  received_in_order fs r = IsInOrder-all fs r
