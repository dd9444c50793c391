-- ===== src/SomeIp/Membership.antt =====
-- Who is a subscriber, told from the bytes that the server received.
use automotive_testing_frame.Prelude.{
  ℕ, zero, suc, ◌+◌, ◌*◌, ◌/◌, ◌^◌, ◌≤◌, ◌<◌, ◌≡◌, refl, ap, ◌∙◌, inl, inr, Bool, not, ◌&&◌, ◌||◌,
  none, some, List, [], ◌∷◌, arith, leb, ◌==◌, if◌then◌else◌, length, drop, All, Option-cases,
  get_or,
}
use automotive_testing_frame.Prelude.Bytes.{Bytes, unpack_be16}
use automotive_testing_frame.Prelude.Bits.{bit_and_65535}
use automotive_testing_frame.SomeIp.Header.{Header, read_header, unpack_header}
use automotive_testing_frame.SomeIp.Server.{
  Address, same_address, Subscribers, contains, listen, handle, call_method, subscribe,
  stop_subscribe, service_id, names_eventgroup, service_of, method_of,
}
use automotive_testing_frame.SomeIp.Subscribers.{
  same_address_sound, contains-add, contains-remove, add-IsDistinct, remove-IsDistinct, IsDistinct,
}

abbrev pub byte : ℕ → Bytes → ℕ
byte k packet = get_or packet k 0

-- A header read from a packet has these bytes.
module _ (packet : Bytes) where
  abbrev IsHeaderOf : Header → Type 0
  IsHeaderOf h =
      (h.msg_id
        ≡ byte 0 packet * 2 ^ 24 + byte 1 packet * 2 ^ 16 + byte 2 packet * 2 ^ 8 + byte 3 packet)
      × (h.protocol_version ≡ byte 12 packet)
      × (h.msg_type ≡ byte 14 packet)

read_header-IsHeaderOf :
    (packet : Bytes) (head : Header)
    → read_header packet ≡ some head
    → (16 ≤ length packet) × IsHeaderOf packet head
unfolding read_header unpack_header
read_header-IsHeaderOf (a ∷ b ∷ c ∷ d ∷ e ∷ f ∷ g ∷ h ∷ i ∷ j ∷ k ∷ l ∷ m ∷ n ∷ o ∷ p ∷ rest) head
      read =
    ground arith
read_header-IsHeaderOf _ head read = absurd (ground arith)

read_header-none : (packet : Bytes) → read_header packet ≡ none → length packet < 16
unfolding read_header unpack_header
read_header-none (a ∷ b ∷ c ∷ d ∷ e ∷ f ∷ g ∷ h ∷ i ∷ j ∷ k ∷ l ∷ m ∷ n ∷ o ∷ p ∷ rest) read =
    absurd (ground arith)
read_header-none _ read = omega arith

byte-lt : (k : ℕ) (packet : Bytes) → All (λ b. b < 256) packet → byte k packet < 256
byte-lt k [] bytes = omega arith
byte-lt zero (b ∷ packet) bytes = bytes.0
byte-lt (suc k) (b ∷ packet) bytes = byte-lt k packet bytes.1

-- What a packet asks for, by its bytes: service 0x1234, protocol version 1, a request; method 1 with
-- event group 1, or method 2.
pub data Intent : Type 0 where
  subscribes stops neither : Intent

abbrev pub to_server : Bytes → Bool
to_server packet =
    leb 16 (length packet)
    && (byte 0 packet == 0x12 && byte 1 packet == 0x34)
    && byte 12 packet == 1
    && byte 14 packet == 0

abbrev pub names_group : Bytes → Bool
names_group payload = leb 2 (length payload) && byte 0 payload == 0 && byte 1 payload == 1

unfoldable pub intent : Bytes → Intent
intent packet =
    if to_server packet && byte 2 packet == 0
    then if byte 3 packet == 1 && names_group (drop 16 packet)
      then subscribes
      else if byte 3 packet == 2
      then stops
      else neither
    else neither

names_eventgroup-names_group : (payload : Bytes) → names_eventgroup payload ≡ names_group payload
unfolding unpack_be16
names_eventgroup-names_group payload = ground arith

-- Whether an address is a subscriber after a packet from another one, or from itself.
abbrev pub subscribed_by : Intent → Bool → Bool → Bool
subscribed_by subscribes own now = own || now
subscribed_by stops own now = not own && now
subscribed_by neither own now = now

header-fields :
    (packet : Bytes) (h : Header)
    → All (λ b. b < 256) packet
    → IsHeaderOf packet h
    → ((service_of h.msg_id == service_id) ≡ (byte 0 packet == 0x12 && byte 1 packet == 0x34))
      × ((method_of h.msg_id == 1) ≡ (byte 2 packet == 0 && byte 3 packet == 1))
      × ((method_of h.msg_id == 2) ≡ (byte 2 packet == 0 && byte 3 packet == 2))
header-fields packet h bytes fields =
    let high = byte-lt 0 packet bytes in
    let next = byte-lt 1 packet bytes in
    let third = byte-lt 2 packet bytes in
    let low = byte-lt 3 packet bytes in
    rw (fields.0, bit_and_65535 (_ / 2 ^ 16), bit_and_65535)
      (ground arith, ground arith, ground arith)

-- One packet: the address that sent it becomes a subscriber, or ceases to be one, as it asks.
pub listen-intent :
    (a addr : Address) (packet : Bytes) (s : Subscribers)
    → IsDistinct s
    → All (λ b. b < 256) packet
    → contains a (listen addr packet s).0
      ≡ subscribed_by (intent packet) (same_address a addr) (contains a s)
unfolding listen intent handle call_method subscribe stop_subscribe
listen-intent a addr packet s distinct bytes = elim (Option-cases (read_header packet)) [
  | inl none_eq ↦ rw (listen, none_eq) (ground (arith, read_header-none packet none_eq))
  | inr (h, reads) ↦
      let fields = read_header-IsHeaderOf packet h reads in
      let (is_service, is_subscribe, is_stop) = header-fields packet h bytes fields.1 in
      rw (listen, reads)
        (ground (
          arith,
          fields,
          is_service,
          is_subscribe,
          is_stop,
          names_eventgroup-names_group (drop 16 packet),
          contains-add a addr s,
          contains-remove a addr s distinct,
          same_address_sound a addr,
        ))
]

pub listen-IsDistinct :
    (addr : Address) (packet : Bytes) (s : Subscribers)
    → IsDistinct s
    → IsDistinct (listen addr packet s).0
unfolding listen handle call_method subscribe stop_subscribe
listen-IsDistinct addr packet s distinct =
    ground (arith, add-IsDistinct addr s, remove-IsDistinct addr s)

-- A sequence of received packets with their senders.
unfoldable pub listen_all : List (Address × Bytes) → Subscribers → Subscribers
listen_all [] s = s
listen_all ((addr, packet) ∷ received) s = listen_all received (listen addr packet s).0

-- The same for one address, without the list of subscribers.
unfoldable pub subscribed : Address → List (Address × Bytes) → Bool → Bool
subscribed a [] now = now
subscribed a ((addr, packet) ∷ received) now =
    subscribed a received (subscribed_by (intent packet) (same_address a addr) now)

abbrev pub IsBytes : List (Address × Bytes) → Type 0
IsBytes received = All (λ r. All (λ b. b < 256) r.1) received

-- After any sequence of packets of bytes, an address is a subscriber exactly if the last packet
-- with which it asked for a subscription or for its end asked for a subscription; an address that
-- asked for neither is what it was before. The subscribers before hold no address twice.
pub listen_all-subscribed :
    (a : Address) (received : List (Address × Bytes)) (s : Subscribers)
    → IsDistinct s
    → IsBytes received
    → contains a (listen_all received s) ≡ subscribed a received (contains a s)
unfolding listen_all subscribed
listen_all-subscribed a [] s distinct bytes = refl
listen_all-subscribed a ((addr, packet) ∷ received) s distinct bytes =
    let rest =
      listen_all-subscribed a received (listen addr packet s).0
        (listen-IsDistinct addr packet s distinct) bytes.1 in
    rest ∙ ap (subscribed a received) (listen-intent a addr packet s distinct bytes.0)

pub listen_all-IsDistinct :
    (received : List (Address × Bytes)) (s : Subscribers)
    → IsDistinct s
    → IsDistinct (listen_all received s)
unfolding listen_all
listen_all-IsDistinct [] s distinct = distinct
listen_all-IsDistinct ((addr, packet) ∷ received) s distinct =
    listen_all-IsDistinct received (listen addr packet s).0
      (listen-IsDistinct addr packet s distinct)
