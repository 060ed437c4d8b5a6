-- ===== src/Relay.antt =====
-- rustlib/src/quicwg.rs: connections to relays. What the crate obscuravpn_api says of the relay
-- protocol is a parameter: the codes of messages and the layout of their headers. Bytes are numbers.
mod Messages
mod Skipping
mod Framing
mod Progress
mod Handshake
mod Responses
mod Rtt
mod Outbox
mod InOrder
mod Drains
mod Written
mod Conn
mod Receive
mod Connecting
mod Acknowledged
mod Sending
mod Idle
mod Traffic
mod GivingUp
mod Rounds
mod Connect
mod Tests
mod ConnTests
use obscuravpn_client.Prelude.{
  ℕ, zero, suc, ◌≤◌, ◌<◌, ◌≡◌, Option, none, some, List, [], ◌∷◌, ◌++◌, length, drop,
}
use obscuravpn_client.NetworkConfig.{Result, ok, err}

-- The operations that the source tells apart, and the others by number.
pub data RelayOpCode : Type 0 where
  ping token stop wire_guard : RelayOpCode
  other_op : ℕ → RelayOpCode

-- An error has a code that is not 0.
pub data RelayResponseCode : Type 0 where
  ok_response : RelayResponseCode
  error_response : ℕ → RelayResponseCode

pub data MessageCode : Type 0 where
  op : RelayOpCode → MessageCode
  response : RelayResponseCode → MessageCode

-- `PROTOCOL_IDENTIFIER` as its 16 bytes, `MessageContext::MIN_CLIENT_INITIATED`, the bytes of a
-- `MessageHeader` from its context and payload length, and back, the bytes of a `MessageCode`, and
-- `MessageCode::from_bytes` at a client.
pub record RelayProtocol : Type 0 where
  pub protocol_identifier : List ℕ
  pub min_client_initiated : ℕ
  pub header_bytes : ℕ → ℕ → List ℕ
  pub header_from : List ℕ → ℕ × ℕ
  pub code_to_bytes : MessageCode → List ℕ
  pub code_from_bytes : List ℕ → ℕ → Option MessageCode

-- What the protocol documents: the sizes, and that a header is read as it was written.
pub record Layout (p : RelayProtocol) : Type 0 where
  pub identifier_size : length p.protocol_identifier ≡ 16
  pub header_size : (context len : ℕ) → length (p.header_bytes context len) ≡ 8
  pub header_read :
      (context len : ℕ)
      → context < 0x100000000
      → len < 0x100000000
      → p.header_from (p.header_bytes context len) ≡ (context, len)
  pub code_size : (code : MessageCode) → length (p.code_to_bytes code) ≡ 4

-- The `io::Error`s that the source tells apart; `stuck` is none of them: the loop ran out of fuel.
pub data IoError : Type 0 where
  unexpected_eof write_failed payload_too_long stuck : IoError
  relay_error : ℕ → List ℕ → IoError
  unexpected_op_code : RelayOpCode → IoError

pub record Message : Type 0 where
  pub code : MessageCode
  pub context : ℕ
  pub arg : List ℕ

abbrev pub take : ℕ → List ℕ → List ℕ
take zero xs = []
take (suc n) [] = []
take (suc n) (x ∷ xs) = x ∷ take n xs

infixl 5 ◌>>=◌
abbrev pub ◌>>=◌ : {E A B : Type 0} → Result E A → (A → Result E B) → Result E B
ok a >>= f = f a
err e >>= f = err e
