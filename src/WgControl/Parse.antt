-- ===== src/WgControl/Parse.antt =====
-- The parser of rustlib/src/wg_control_message_header.rs against the layout of WireGuard's messages.
use obscuravpn_client.Prelude.{ℕ, ◌/◌, ◌%◌, ◌<◌, ◌^◌, ◌≡◌, refl, ap, some, List, ◌∷◌, length, arith}
use obscuravpn_client.WgControl.{
  WgControlMessageHeader, handshake_initiation, handshake_response, cookie_reply, keepalive,
  from_le_bytes, parse,
}

-- A 32-bit number in little-endian order, before other bytes.
abbrev pub put_u32 : ℕ → List ℕ → List ℕ
put_u32 n rest = n % 256 ∷ n / 256 % 256 ∷ n / 65536 % 256 ∷ n / 16777216 ∷ rest

-- The start of each control message: its type, three reserved bytes, and its indices.
pub write : WgControlMessageHeader → List ℕ → List ℕ
write (handshake_initiation s) rest = put_u32 1 (put_u32 s rest)
write (handshake_response s r) rest = put_u32 2 (put_u32 s (put_u32 r rest))
write (cookie_reply r) rest = put_u32 3 (put_u32 r rest)
write (keepalive r) rest = put_u32 4 (put_u32 r rest)

abbrev pub AreU32 : WgControlMessageHeader → Type 0
AreU32 (handshake_initiation s) = s < 2 ^ 32
AreU32 (handshake_response s r) = (s < 2 ^ 32) × (r < 2 ^ 32)
AreU32 (cookie_reply r) = r < 2 ^ 32
AreU32 (keepalive r) = r < 2 ^ 32

-- A keepalive is a data message without data: a counter and a tag follow its index.
abbrev pub IsBody : WgControlMessageHeader → List ℕ → Type 0
IsBody (keepalive r) rest = length rest ≡ 24
IsBody _ rest = Unit

le_bytes :
    (n : ℕ)
    → from_le_bytes
        (record { b0 = n % 256; b1 = n / 256 % 256; b2 = n / 65536 % 256; b3 = n / 16777216 })
      ≡ n
le_bytes n = omega arith

-- A control message that is laid out by the protocol, with whatever follows its header, is
-- recognised with its indices.
pub parse-write :
    (h : WgControlMessageHeader) (rest : List ℕ)
    → AreU32 h
    → IsBody h rest
    → parse (write h rest) ≡ some h
unfolding parse write
parse-write (handshake_initiation s) rest small body =
    ap (λ n. some (handshake_initiation n)) (le_bytes s)
parse-write (handshake_response s r) rest small body = rw (le_bytes s, le_bytes r) refl
parse-write (cookie_reply r) rest small body = ap (λ n. some (cookie_reply n)) (le_bytes r)
parse-write (keepalive r) rest small body = rw (body, le_bytes r) refl
