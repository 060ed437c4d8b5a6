-- ===== src/Relay/Progress.antt =====
-- Reading a message, in rustlib/src/quicwg.rs, comes to an end.
use obscuravpn_client.Prelude.{
  ℕ, zero, suc, ◌≤◌, ◌<◌, ◌≡◌, ◌⊎◌, inl, inr, refl, Option, none, some, List, length, drop,
  Bool-cases, arith,
}
use obscuravpn_client.NetworkConfig.{Result, ok, err}
use obscuravpn_client.Relay.{RelayProtocol, MessageCode, Message, IoError, unexpected_eof, take}
use obscuravpn_client.Relay.Messages.{bad_length, recv_message, recv, after_header, with_code}
use obscuravpn_client.Relay.Skipping.{length-drop, read_exact-cases, recv_skip-Skipped}

-- A message and fewer bytes than n, or the end of the input.
abbrev pub Received : ℕ → Result IoError (Message × List ℕ) → Type 0
Received n r =
    ((m : Message) × (rest : List ℕ) × (r ≡ ok (m, rest)) × (length rest < n))
    ⊎ (r ≡ err unexpected_eof)

Received-le :
    (m n : ℕ) (r : Result IoError (Message × List ℕ)) → m ≤ n → Received m r → Received n r
Received-le m n r h (inl (x, rest, e, g)) = inl (x, rest, e, omega (arith, g, h))
Received-le m n r h (inr e) = inr e

with_code-Received :
    (n : ℕ) (again : List ℕ → Result IoError (Message × List ℕ)) (context : ℕ)
    (payload after : List ℕ) (code : Option MessageCode)
    → length after < n
    → Received n (again after)
    → Received n (with_code again context payload after code)
unfolding with_code
with_code-Received n again context payload after none h more = more
with_code-Received n again context payload after (some code) h more =
    inl (record { code = code; context = context; arg = drop 4 payload }, after, refl, h)

after_header-Received :
    (n : ℕ) (p : RelayProtocol) (again : List ℕ → Result IoError (Message × List ℕ)) (h : ℕ × ℕ)
    (rest : List ℕ)
    → length rest < n
    → ((after : List ℕ) → length after ≤ length rest → Received n (again after))
    → Received n (after_header again p h rest)
unfolding after_header
after_header-Received n p again (context, len) rest less more = elim (Bool-cases (bad_length len)) [
  | inl bad ↦ elim (recv_skip-Skipped len rest) [
    | inl (fits, done) ↦ rw (bad, done) (more (drop len rest) (omega (arith, length-drop len rest)))
    | inr (short, failed) ↦ rw (bad, failed) (inr refl)
  ]
  | inr good ↦ elim (read_exact-cases len rest) [
    | inr (short, failed) ↦ rw (good, failed) (inr refl)
    | inl (fits, done) ↦
        rw (good, done)
          (with_code-Received n again context (take len rest) (drop len rest)
            (p.code_from_bytes (take 4 (take len rest)) context)
            (omega (arith, less, length-drop len rest))
            (more (drop len rest) (omega (arith, length-drop len rest))))
  ]
]

recv_message-Received :
    (fuel : ℕ) (p : RelayProtocol) (input : List ℕ)
    → length input < fuel
    → Received (length input) (recv_message fuel p input)
unfolding recv_message
recv_message-Received zero p input h = absurd (omega (arith, h))
recv_message-Received (suc fuel) p input h = elim (read_exact-cases 8 input) [
  | inr (short, failed) ↦ rw failed (inr refl)
  | inl (fits, done) ↦ rw done (
      after_header-Received (length input) p (λ after. recv_message fuel p after)
        (p.header_from (take 8 input)) (drop 8 input) (omega (arith, fits, length-drop 8 input))
        (λ after shorter.
          Received-le (length after) (length input) (recv_message fuel p after)
            (omega (arith, shorter, length-drop 8 input))
            (recv_message-Received fuel p after
              (omega (arith, h, shorter, fits, length-drop 8 input)))))
]

-- Receiving ends: whatever bytes arrive before the transport fails, and however the protocol reads
-- them, `recv_message` returns a message and leaves fewer bytes, or fails at the end of the input.
pub recv-Received : (p : RelayProtocol) (input : List ℕ) → Received (length input) (recv p input)
unfolding recv
recv-Received p input = recv_message-Received (suc (length input)) p input (omega arith)
