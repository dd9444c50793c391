-- ===== src/SomeIp/Header.antt =====
-- The header that someip_server.py and someip_client.py pack and unpack with `"!IIIBBBB"`, and the
-- constants that both files declare.
use automotive_testing_frame.Prelude.{
  ℕ, ◌+◌, ◌*◌, ◌/◌, ◌%◌, ◌^◌, ◌<◌, ◌≡◌, refl, Bool, ◌&&◌, Option, none, some, [], ◌∷◌, ◌++◌, arith,
  ltb, leb, if◌then◌else◌, length, take, drop,
}
use automotive_testing_frame.Prelude.Bytes.{Bytes, be32}

pub record Header : Type 0 where
  pub msg_id : ℕ
  pub length_field : ℕ
  pub request_id : ℕ
  pub protocol_version : ℕ
  pub interface_version : ℕ
  pub msg_type : ℕ
  pub return_code : ℕ

-- PROTOCOL_VERSION and its companions
abbrev pub version : ℕ
version = 1

abbrev pub interface : ℕ
interface = 1

abbrev pub request_type : ℕ
request_type = 0x00

abbrev pub response_type : ℕ
response_type = 0x80

abbrev pub notification_type : ℕ
notification_type = 0x02

-- The sizes that struct.pack accepts.
abbrev pub is_packable : Header → Bool
is_packable h =
    ltb h.msg_id (2 ^ 32)
    && ltb h.length_field (2 ^ 32)
    && ltb h.request_id (2 ^ 32)
    && ltb h.protocol_version 256
    && ltb h.interface_version 256
    && ltb h.msg_type 256
    && ltb h.return_code 256

abbrev pub header_bytes : Header → Bytes
header_bytes h =
    be32 h.msg_id
    ++ be32 h.length_field
    ++ be32 h.request_id
    ++ (h.protocol_version ∷ h.interface_version ∷ h.msg_type ∷ h.return_code ∷ [])

-- `struct.pack("!IIIBBBB", ...)`: `none` is a `struct.error`.
unfoldable pub pack_header : Header → Option Bytes
pack_header h = if is_packable h then some (header_bytes h) else none

-- `struct.unpack("!IIIBBBB", data)`, which wants sixteen bytes.
unfoldable pub unpack_header : Bytes → Option Header
unpack_header (a ∷ b ∷ c ∷ d ∷ e ∷ f ∷ g ∷ h ∷ i ∷ j ∷ k ∷ l ∷ m ∷ n ∷ o ∷ p ∷ []) = some record {
  msg_id = a * 2 ^ 24 + b * 2 ^ 16 + c * 2 ^ 8 + d;
  length_field = e * 2 ^ 24 + f * 2 ^ 16 + g * 2 ^ 8 + h;
  request_id = i * 2 ^ 24 + j * 2 ^ 16 + k * 2 ^ 8 + l;
  protocol_version = m;
  interface_version = n;
  msg_type = o;
  return_code = p;
}
unpack_header _ = none

-- The test that precedes each unpacking: what has fewer than sixteen bytes is passed over.
unfoldable pub read_header : Bytes → Option Header
read_header packet = if leb 16 (length packet) then unpack_header (take 16 packet) else none

-- A number of four bytes, put together again.
word :
    (n : ℕ)
    → n < 2 ^ 32
    → n / 2 ^ 24 % 256 * 2 ^ 24 + n / 2 ^ 16 % 256 * 2 ^ 16 + n / 2 ^ 8 % 256 * 2 ^ 8 + n % 256 ≡ n
word n h = omega arith

read_header_bytes :
    (h : Header) (rest : Bytes)
    → h.msg_id < 2 ^ 32
    → h.length_field < 2 ^ 32
    → h.request_id < 2 ^ 32
    → read_header (header_bytes h ++ rest) ≡ some h
unfolding unpack_header read_header
read_header_bytes h rest hi hl hr =
    rw (word h.msg_id hi) (rw (word h.length_field hl) (rw (word h.request_id hr) (ground arith)))

pub pack_header-parts :
    (h : Header) (packet : Bytes)
    → pack_header h ≡ some packet
    → (packet ≡ header_bytes h)
      × (h.msg_id < 2 ^ 32)
      × (h.length_field < 2 ^ 32)
      × (h.request_id < 2 ^ 32)
unfolding pack_header
pack_header-parts h packet packed = ground arith

-- What pack_header makes of a header reads as that header, whatever follows it.
pub unpack_header-pack_header :
    (h : Header) (packet rest : Bytes)
    → pack_header h ≡ some packet
    → (read_header (packet ++ rest) ≡ some h) × (drop 16 (packet ++ rest) ≡ rest)
unpack_header-pack_header h packet rest packed =
    let parts = pack_header-parts h packet packed in
    rw parts.0 (read_header_bytes h rest parts.1 parts.2 parts.3, refl)
