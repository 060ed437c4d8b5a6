-- ===== src/WgControl.antt =====
-- rustlib/src/wg_control_message_header.rs: which WireGuard messages are control messages. A
-- message is the list of its bytes.
mod Parse
mod Tests
use obscuravpn_client.Prelude.{
  ℕ, ◌+◌, ◌*◌, Bool, true, false, Option, none, some, List, [], ◌∷◌, length, ◌==◌, if◌then◌else◌,
}

pub data WgControlMessageHeader : Type 0 where
  handshake_initiation : ℕ → WgControlMessageHeader
  -- The sender's and the receiver's index.
  handshake_response : ℕ → ℕ → WgControlMessageHeader
  cookie_reply keepalive : ℕ → WgControlMessageHeader

pub record Chunk : Type 0 where
  pub b0 : ℕ
  pub b1 : ℕ
  pub b2 : ℕ
  pub b3 : ℕ

-- `as_chunks::<4>().0`
abbrev pub as_chunks : List ℕ → List Chunk
as_chunks (a ∷ b ∷ c ∷ d ∷ rest) = record { b0 = a; b1 = b; b2 = c; b3 = d } ∷ as_chunks rest
as_chunks _ = []

abbrev pub from_le_bytes : Chunk → ℕ
from_le_bytes c = c.b0 + 256 * (c.b1 + 256 * (c.b2 + 256 * c.b3))

abbrev pub one_index : (ℕ → WgControlMessageHeader) → List Chunk → Option WgControlMessageHeader
one_index f [] = none
one_index f (c ∷ rest) = some (f (from_le_bytes c))

abbrev pub two_indices : List Chunk → Option WgControlMessageHeader
two_indices (c ∷ d ∷ rest) = some (handshake_response (from_le_bytes c) (from_le_bytes d))
two_indices _ = none

abbrev pub header : ℕ → List Chunk → Option WgControlMessageHeader
header len [] = none
header len (c ∷ rest) =
    if c.b0 == 1
    then one_index handshake_initiation rest
    else if c.b0 == 2
    then two_indices rest
    else if c.b0 == 3
    then one_index cookie_reply rest
    else if c.b0 == 4
    then if len == 32 then one_index keepalive rest else none
    else none

unfoldable pub parse : List ℕ → Option WgControlMessageHeader
parse wg_message = header (length wg_message) (as_chunks wg_message)
