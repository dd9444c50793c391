-- ===== src/Uds/Sessions.antt =====
-- What requests change of the lock.
use automotive_testing_frame.Prelude.{◌≡◌, true, List, [], ◌∷◌, arith}
use automotive_testing_frame.Prelude.Bytes.{Bytes}
use automotive_testing_frame.Uds.{MockUdsEcu, process_request, serve}

request-unlocked :
    (p : Bytes) (e : MockUdsEcu)
    → e.security_unlocked ≡ true
    → (process_request p e).1.security_unlocked ≡ true
unfolding process_request
request-unlocked [] e h = h
request-unlocked (sid ∷ rest) e h = ground arith

-- Nothing locks the ECU again: once unlocked it stays so through every sequence of requests, those
-- for a reset or another session included.
unlocked_forever :
    (ps : List Bytes) (e : MockUdsEcu)
    → e.security_unlocked ≡ true
    → (serve ps e).1.security_unlocked ≡ true
unfolding serve
unlocked_forever [] e h = h
unlocked_forever (p ∷ ps) e h = unlocked_forever ps (process_request p e).1 (request-unlocked p e h)
