-- ===== src/SomeIp/Subscribers.antt =====
-- The subscribers of the server as a set of addresses.
use automotive_testing_frame.Prelude.{◌≡◌, refl, true, false, not, ◌&&◌, ◌||◌, [], ◌∷◌, arith}
use automotive_testing_frame.SomeIp.Server.{
  Address, same_address, Subscribers, contains, add, remove,
}

-- No address twice.
abbrev pub IsDistinct : Subscribers → Type 0
IsDistinct [] = Unit
IsDistinct (b ∷ bs) = (contains b bs ≡ false) × IsDistinct bs

pub same_address_sound : (a b : Address) → same_address a b ≡ true → a ≡ b
same_address_sound a b h = ground arith

pub same_address_refl : (a : Address) → same_address a a ≡ true
same_address_refl a = ground arith

pub contains-add :
    (a b : Address) (s : Subscribers) → contains a (add b s) ≡ same_address a b || contains a s
unfolding contains add
contains-add a b s = ground (arith, same_address_sound a b)

pub contains-remove :
    (a b : Address) (s : Subscribers)
    → IsDistinct s
    → contains a (remove b s) ≡ not (same_address a b) && contains a s
unfolding contains remove
contains-remove a b [] d = ground arith
contains-remove a b (c ∷ s) d = ground (
  arith,
  contains-remove a b s,
  same_address_sound a b,
  same_address_sound a c,
  same_address_sound b c,
)

remove-fresh :
    (a b : Address) (s : Subscribers) → contains a s ≡ false → contains a (remove b s) ≡ false
unfolding contains remove
remove-fresh a b [] h = refl
remove-fresh a b (c ∷ s) h = ground (arith, remove-fresh a b s)

pub add-IsDistinct : (b : Address) (s : Subscribers) → IsDistinct s → IsDistinct (add b s)
unfolding add
add-IsDistinct b s d = ground arith

pub remove-IsDistinct : (b : Address) (s : Subscribers) → IsDistinct s → IsDistinct (remove b s)
unfolding remove
remove-IsDistinct b [] d = d
remove-IsDistinct b (c ∷ s) d = ground (arith, remove-IsDistinct b s, remove-fresh c b s)
