-- ===== src/Uds/Security.antt =====
-- The seed and key protocol of the diagnostic ECU, over whole sequences of requests.
use automotive_testing_frame.Prelude.{
  ◌≡◌, ◌≢◌, ◌⊎◌, inl, inr, refl, true, false, List, [], ◌∷◌, arith, length, Bool-cases, All,
}
use automotive_testing_frame.Prelude.Bytes.{Bytes, bytes_eq_sound}
use automotive_testing_frame.Uds.{
  MockUdsEcu, init, process_request, negative, access_denied, sequence_error, security_access,
  serve, expected_key,
}

abbrev pub seed_request : Bytes
seed_request = 0x27 ∷ 0x01 ∷ []

abbrev pub key_request : Bytes → Bytes
key_request key = 0x27 ∷ 0x02 ∷ key

security_access-unlocks :
    (rest : Bytes) (e : MockUdsEcu)
    → (security_access (0x27 ∷ rest) e).1.security_unlocked ≡ true
    → (e.security_unlocked ≡ true) ⊎ ((e.seed_requested ≡ true) × (rest ≡ 0x02 ∷ expected_key))
unfolding security_access
security_access-unlocks [] e h = ground arith
security_access-unlocks (b ∷ rest) e h = ground (arith, bytes_eq_sound rest expected_key)

security_access-seed :
    (rest : Bytes) (e : MockUdsEcu)
    → (security_access (0x27 ∷ rest) e).1.seed_requested ≡ true
    → (e.seed_requested ≡ true) ⊎ (rest ≡ 0x01 ∷ [])
unfolding security_access
security_access-seed [] e h = ground arith
security_access-seed (b ∷ []) e h = ground arith
security_access-seed (b ∷ c ∷ rest) e h = ground arith

request-unlocks :
    (p : Bytes) (e : MockUdsEcu)
    → (process_request p e).1.security_unlocked ≡ true
    → (e.security_unlocked ≡ true) ⊎ ((e.seed_requested ≡ true) × (p ≡ key_request expected_key))
unfolding process_request
request-unlocks [] e h = inl h
request-unlocks (sid ∷ rest) e h = ground (arith, security_access-unlocks rest e)

request-seed :
    (p : Bytes) (e : MockUdsEcu)
    → (process_request p e).1.seed_requested ≡ true
    → (e.seed_requested ≡ true) ⊎ (p ≡ seed_request)
unfolding process_request
request-seed [] e h = inl h
request-seed (sid ∷ rest) e h = ground (arith, security_access-seed rest e)

-- The right key comes somewhere in the sequence.
abbrev pub HasKey : List Bytes → Type 0
HasKey [] = ⊥
HasKey (p ∷ ps) = (p ≡ key_request expected_key) ⊎ HasKey ps

-- A request for the seed comes somewhere in the sequence, and the right key somewhere behind it.
abbrev pub HasSeedThenKey : List Bytes → Type 0
HasSeedThenKey [] = ⊥
HasSeedThenKey (p ∷ ps) = ((p ≡ seed_request) × HasKey ps) ⊎ HasSeedThenKey ps

serve_unlock_seeded :
    (ps : List Bytes) (e : MockUdsEcu)
    → e.security_unlocked ≡ false
    → (serve ps e).1.security_unlocked ≡ true
    → HasKey ps
unfolding serve
serve_unlock_seeded [] e l u = cc
serve_unlock_seeded (p ∷ ps) e l u = elim (Bool-cases (process_request p e).1.security_unlocked) [
  | inl now ↦ elim (request-unlocks p e now) [ inl was ↦ cc | inr seeded ↦ inl seeded.1 ]
  | inr still ↦ inr (serve_unlock_seeded ps (process_request p e).1 still u)
]

serve_unlock_locked :
    (ps : List Bytes) (e : MockUdsEcu)
    → e.security_unlocked ≡ false
    → e.seed_requested ≡ false
    → (serve ps e).1.security_unlocked ≡ true
    → HasSeedThenKey ps
unfolding serve
serve_unlock_locked [] e l s u = cc
serve_unlock_locked (p ∷ ps) e l s u = elim (Bool-cases (process_request p e).1.security_unlocked) [
  | inl now ↦ elim (request-unlocks p e now) [ inl was ↦ cc | inr seeded ↦ cc (seeded.0) ]
  | inr still ↦ elim (Bool-cases (process_request p e).1.seed_requested) [
    | inl asked ↦ elim (request-seed p e asked) [
      | inl was ↦ cc
      | inr seed ↦ inl (seed, serve_unlock_seeded ps (process_request p e).1 still u)
    ]
    | inr silent ↦ inr (serve_unlock_locked ps (process_request p e).1 still silent u)
  ]
]

-- A new ECU is unlocked only by a sequence of requests in which the seed is requested and the right
-- key is sent later.
pub unlock_needs_seed_and_key :
    (ps : List Bytes) → (serve ps init).1.security_unlocked ≡ true → HasSeedThenKey ps
unfolding init
unlock_needs_seed_and_key ps u = serve_unlock_locked ps init refl refl u

unseeded_stays :
    (ps : List Bytes) (e : MockUdsEcu)
    → e.seed_requested ≡ false
    → All (λ p. p ≢ seed_request) ps
    → (serve ps e).1.seed_requested ≡ false
unfolding serve
unseeded_stays [] e s h = s
unseeded_stays (p ∷ ps) e s h = elim (Bool-cases (process_request p e).1.seed_requested) [
  | inl asked ↦ elim (request-seed p e asked) [ inl was ↦ cc | inr seed ↦ absurd (h.0 seed) ]
  | inr silent ↦ unseeded_stays ps (process_request p e).1 silent h.1
]

wrong_key :
    (key : Bytes) (e : MockUdsEcu)
    → e.seed_requested ≡ true
    → length key ≡ 4
    → key ≢ expected_key
    → process_request (key_request key) e
      ≡ (negative 0x27 access_denied, record e { seed_requested = false })
unfolding process_request
wrong_key key e s l wrong = ground (arith, bytes_eq_sound key expected_key)

unseeded_key :
    (key : Bytes) (e : MockUdsEcu)
    → e.seed_requested ≡ false
    → (process_request (key_request key) e).0 ≡ negative 0x27 sequence_error
unfolding process_request
unseeded_key key e s = ground arith

-- One guess for each seed: a wrong key of four bytes is denied, and until the seed is requested
-- again every key, the right one too, is answered by a sequence error.
one_guess_per_seed :
    (guess : Bytes) (ps : List Bytes) (next : Bytes) (e : MockUdsEcu)
    → e.seed_requested ≡ true
    → length guess ≡ 4
    → guess ≢ expected_key
    → All (λ p. p ≢ seed_request) ps
    → let (response, e') = process_request (key_request guess) e in
      (response ≡ negative 0x27 access_denied)
      × ((process_request (key_request next) (serve ps e').1).0 ≡ negative 0x27 sequence_error)
one_guess_per_seed guess ps next e s l wrong h = rw (wrong_key guess e s l wrong) (
  refl,
  unseeded_key next (serve ps (record e { seed_requested = false })).1
      (unseeded_stays ps (record e { seed_requested = false }) refl h),
)
