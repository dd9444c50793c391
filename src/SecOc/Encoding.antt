-- ===== src/SecOc/Encoding.antt =====
-- The bytes that an authentication code signs determine the message.
use automotive_testing_frame.Prelude.{
  ◌∙◌, sym, ℕ, ◌<◌, ◌^◌, ◌≡◌, refl, ap, Option, none, some, [], ◌∷◌, ◌++◌, arith, length,
  length-append, ok,
}
use automotive_testing_frame.Prelude.Int.{ℤ, pos, negsuc}
use automotive_testing_frame.Prelude.Bytes.{
  Bytes, be16, be32, pack_be16, pack_be32, be16_injective, be32_injective,
}
use automotive_testing_frame.SecOc.Crypto.{data_to_sign}

append_injective :
    (xs xs' ys ys' : Bytes)
    → length ys ≡ length ys'
    → xs ++ ys ≡ xs' ++ ys'
    → (xs ≡ xs') × (ys ≡ ys')
append_injective [] [] ys ys' l e = (refl, e)
append_injective [] (x ∷ xs') ys ys' l e =
    absurd (omega (arith, ap length e, length-append xs' ys'))
append_injective (x ∷ xs) [] ys ys' l e = absurd (omega (arith, ap length e, length-append xs ys))
append_injective (x ∷ xs) (x' ∷ xs') ys ys' l e = grind (arith, append_injective xs xs' ys ys' l)

-- What can be signed: an identifier of 16 bits, a payload, and a freshness value of 32 bits.
pub record IsSignable (message_id : Option ℤ) (payload : Option Bytes) (fv : ℤ) (i : ℕ) (p : Bytes)
    (n : ℕ) (signed : Bytes) : Type 0 where
  pub id_eq : message_id ≡ some (pos i)
  pub id_fits : i < 2 ^ 16
  pub payload_eq : payload ≡ some p
  pub fv_eq : fv ≡ pos n
  pub fv_fits : n < 2 ^ 32
  pub signed_eq : signed ≡ (be16 i ++ p) ++ be32 n

pub data_to_sign-inv :
    (message_id : Option ℤ) (payload : Option Bytes) (fv : ℤ) {signed : Bytes}
    → data_to_sign message_id payload fv ≡ ok signed
    → (i : ℕ) × (p : Bytes) × (n : ℕ) × IsSignable message_id payload fv i p n signed
unfolding data_to_sign pack_be16 pack_be32
data_to_sign-inv none payload fv e = absurd (ground arith)
data_to_sign-inv (some (negsuc i)) payload fv e = absurd (ground arith)
data_to_sign-inv (some (pos i)) payload (negsuc n) e = absurd (ground arith)
data_to_sign-inv (some (pos i)) none (pos n) e = absurd (ground arith)
data_to_sign-inv (some (pos i)) (some p) (pos n) e = (i, p, n, ground arith)

pub data_to_sign-ok :
    (i : ℕ) (p : Bytes) (n : ℕ)
    → i < 2 ^ 16
    → n < 2 ^ 32
    → data_to_sign (some (pos i)) (some p) (pos n) ≡ ok ((be16 i ++ p) ++ be32 n)
unfolding data_to_sign pack_be16 pack_be32
data_to_sign-ok i p n hi hn = ground arith

encoding_injective :
    (i i' : ℕ) (p p' : Bytes) (n n' : ℕ)
    → i < 2 ^ 16
    → i' < 2 ^ 16
    → n < 2 ^ 32
    → n' < 2 ^ 32
    → (be16 i ++ p) ++ be32 n ≡ (be16 i' ++ p') ++ be32 n'
    → (i ≡ i') × (p ≡ p') × (n ≡ n')
encoding_injective i i' p p' n n' hi hi' hn hn' e =
    let (front, back) = append_injective (be16 i ++ p) (be16 i' ++ p') (be32 n) (be32 n') refl e in
    let same_length : length p ≡ length p' = omega (arith, ap length front) in
    let (ids, payloads) = append_injective (be16 i) (be16 i') p p' same_length front in
    (be16_injective i i' hi hi' ids, payloads, be32_injective n n' hn hn' back)

-- No two messages sign the same bytes: the identifier, the payload and the freshness value are all
-- determined by what is signed.
data_to_sign-injective :
    (m m' : Option ℤ) (p p' : Option Bytes) (v v' : ℤ) {signed : Bytes}
    → data_to_sign m p v ≡ ok signed
    → data_to_sign m' p' v' ≡ ok signed
    → (m ≡ m') × (p ≡ p') × (v ≡ v')
data_to_sign-injective m m' p p' v v' e e' =
    let (i, q, n, s) = data_to_sign-inv m p v e in
    let (i', q', n', s') = data_to_sign-inv m' p' v' e' in
    let same =
      encoding_injective i i' q q' n n' s.id_fits s'.id_fits s.fv_fits s'.fv_fits
        (sym s.signed_eq ∙ s'.signed_eq) in
    (
      s.id_eq ∙ ap (λ k. some (pos k)) same.0 ∙ sym s'.id_eq,
      s.payload_eq ∙ ap (λ k. some k) same.1 ∙ sym s'.payload_eq,
      s.fv_eq ∙ ap (λ k. pos k) same.2 ∙ sym s'.fv_eq,
    )
