-- ===== src/Relay/Messages.antt =====
-- Messages of the relay protocol on a byte stream, in rustlib/src/quicwg.rs. The reading end of a
-- transport is the bytes that arrive until it fails or ends.
use obscuravpn_client.Prelude.{
  ℕ, zero, suc, ◌+◌, ◌-◌, Bool, true, false, ◌||◌, Option, none, some, List, ◌++◌, length, ltb, leb,
  if◌then◌else◌, drop,
}
use obscuravpn_client.NetworkConfig.{Result, ok, err}
use obscuravpn_client.Relay.{
  RelayProtocol, MessageCode, Message, IoError, unexpected_eof, write_failed, payload_too_long,
  stuck, take, ◌>>=◌,
}

-- The writing end: what was written, how many bytes it still takes before it breaks, and whether it
-- can be flushed.
pub record Writer : Type 0 where
  pub written : List ℕ
  pub room : ℕ
  pub flushes : Bool

-- `write_all` writes what it can before it fails.
unfoldable pub write_all : List ℕ → Writer → Writer × Result IoError Unit
write_all bytes w =
    if leb (length bytes) w.room
    then (record w { written = w.written ++ bytes; room = w.room - length bytes }, ok tt)
    else (record w { written = w.written ++ take w.room bytes; room = 0 }, err write_failed)

unfoldable pub flush : Writer → Writer × Result IoError Unit
flush w = (w, if w.flushes then ok tt else err write_failed)

-- What is next, unless it failed.
abbrev pub then_write :
    Writer × Result IoError Unit
    → (Writer → Writer × Result IoError Unit)
    → Writer × Result IoError Unit
then_write (w, ok u) next = next w
then_write (w, err e) next = (w, err e)

-- `send_message`.
unfoldable pub send_message :
    RelayProtocol → MessageCode → ℕ → List ℕ → Writer → Writer × Result IoError Unit
send_message p code context_id arg w =
    if leb (4 + length arg) 0xffffffff
    then then_write (write_all (p.header_bytes context_id (4 + length arg)) w) (λ w1.
      then_write (write_all (p.code_to_bytes code) w1)
        (λ w2. then_write (write_all arg w2) (λ w3. flush w3)))
    else (w, err payload_too_long)

-- The bytes, and what comes after them.
unfoldable pub read_exact : ℕ → List ℕ → Result IoError (List ℕ × List ℕ)
read_exact n input =
    if leb n (length input) then ok (take n input, drop n input) else err unexpected_eof

-- The size of the buffer, `u16::MAX`.
abbrev pub skip_buffer : ℕ
skip_buffer = 0xffff

-- The loop of `recv_skip`: the bytes that remain to be skipped, and the input after it.
unfoldable pub recv_skip_loop : ℕ → ℕ → List ℕ → Result IoError (ℕ × List ℕ)
recv_skip_loop zero n input = err stuck
recv_skip_loop (suc fuel) n input = elim (leb skip_buffer n) [
  | true ↦ read_exact skip_buffer input >>= λ (_, rest). recv_skip_loop fuel (n - skip_buffer) rest
  | false ↦ ok (n, input)
]

-- The number of bytes falls in each round.
unfoldable pub recv_skip : ℕ → List ℕ → Result IoError (List ℕ)
recv_skip n input = recv_skip_loop (suc n) n input >>= λ (left, rest).
    if ltb 0 left then (read_exact left rest >>= λ (_, after). ok after) else ok rest

-- `len < 4 || len > usize::from(u16::MAX) + 4`.
abbrev pub bad_length : ℕ → Bool
bad_length len = ltb len 4 || ltb 0x10003 len

-- A payload with the code that its first four bytes are, unless it is to be ignored.
unfoldable pub with_code :
    (List ℕ → Result IoError (Message × List ℕ))
    → ℕ
    → List ℕ
    → List ℕ
    → Option MessageCode
    → Result IoError (Message × List ℕ)
with_code again context payload after none = again after
with_code again context payload after (some code) =
    ok (record { code = code; context = context; arg = drop 4 payload }, after)

-- The rest of a round, from the header on.
unfoldable pub after_header :
    (List ℕ → Result IoError (Message × List ℕ))
    → RelayProtocol
    → ℕ × ℕ
    → List ℕ
    → Result IoError (Message × List ℕ)
after_header again p (context, len) rest =
    if bad_length len
    then (recv_skip len rest >>= again)
    else (read_exact len rest >>= λ (payload, after).
        with_code again context payload after (p.code_from_bytes (take 4 payload) context))

-- `recv_message`: the first message that can be read, and the input after it.
unfoldable pub recv_message : ℕ → RelayProtocol → List ℕ → Result IoError (Message × List ℕ)
recv_message zero p input = err stuck
recv_message (suc fuel) p input = read_exact 8 input >>= λ (header, rest).
    after_header (λ after. recv_message fuel p after) p (p.header_from header) rest

-- Each round takes the bytes of a header.
unfoldable pub recv : RelayProtocol → List ℕ → Result IoError (Message × List ℕ)
recv p input = recv_message (suc (length input)) p input
