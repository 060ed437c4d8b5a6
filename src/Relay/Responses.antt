-- ===== src/Relay/Responses.antt =====
-- What the handshake of rustlib/src/quicwg.rs makes of the messages of a relay.
use mathlib.Core.List.{append_assoc}
use obscuravpn_client.Prelude.{
  ℕ, zero, suc, ◌≤◌, ◌<◌, ◌≡◌, ◌≢◌, ◌⊎◌, inl, inr, refl, ap, ◌∙◌, List, [], ◌∷◌, ◌++◌, length,
  length-append, All, ◌==◌, Bool-cases, arith,
}
use obscuravpn_client.NetworkConfig.{Result, ok, err}
use obscuravpn_client.Relay.{
  RelayProtocol, Layout, RelayOpCode, RelayResponseCode, ok_response, error_response, MessageCode,
  op, response, Message,
}
use obscuravpn_client.Relay.Messages.{recv}
use obscuravpn_client.Relay.Framing.{
  Frame, wire, wires, frame, Ignored, Readable, length-wires, recv_message-wires,
}
use obscuravpn_client.Relay.Progress.{recv-Received}
use obscuravpn_client.Relay.Handshake.{
  QuicWgRelayHandshakeError, received_error_response, out_of_fuel, on_message, recv_ok_resp_loop,
  recv_ok_resp_no_timeout,
}

-- A message, and the frames before it that are ignored.
pub record Block : Type 0 where
  pub noise : List Frame
  pub message : Message

module _ (p : RelayProtocol) where
  abbrev pub block : Block → List ℕ
  block b = wires p b.noise ++ wire p (frame p b.message)

  abbrev pub blocks : List Block → List ℕ
  blocks [] = []
  blocks (b ∷ bs) = block b ++ blocks bs

  abbrev pub Arrives : Block → Type 0
  Arrives b = All (Ignored p) b.noise × Readable p b.message

  -- An operation that the relay starts, or a response to something else.
  abbrev pub Unrelated : Message → Type 0
  Unrelated m = ((code : RelayOpCode) × (m.code ≡ op code)) ⊎ (m.context ≢ p.min_client_initiated)

  abbrev pub Passed : Block → Type 0
  Passed b = Arrives b × Unrelated b.message

  -- What the client makes of the relay's answer.
  abbrev pub answer :
      RelayResponseCode → List ℕ → List ℕ → Result QuicWgRelayHandshakeError (List ℕ)
  answer ok_response arg rest = ok rest
  answer (error_response code) arg rest = err (received_error_response code arg)

  on_message-Unrelated :
      (again : List ℕ → Result QuicWgRelayHandshakeError (List ℕ)) (m : Message) (rest : List ℕ)
      → Unrelated m
      → on_message p again m.context m.arg rest m.code ≡ again rest
  unfolding on_message
  on_message-Unrelated again m rest (inl (code, e)) = rw e refl
  on_message-Unrelated again m rest (inr other) =
      other_context again m.context m.arg rest m.code other
    where
      other_context :
          (again : List ℕ → Result QuicWgRelayHandshakeError (List ℕ)) (context : ℕ)
          (arg rest : List ℕ) (code : MessageCode)
          → context ≢ p.min_client_initiated
          → on_message p again context arg rest code ≡ again rest
      other_context again context arg rest (op code) h = refl
      other_context again context arg rest (response ok_response) h = ground arith
      other_context again context arg rest (response (error_response code)) h = ground arith

  on_message-answer :
      (again : List ℕ → Result QuicWgRelayHandshakeError (List ℕ)) (r : RelayResponseCode)
      (context : ℕ) (arg rest : List ℕ)
      → context ≡ p.min_client_initiated
      → on_message p again context arg rest (response r) ≡ answer r arg rest
  unfolding on_message
  on_message-answer again ok_response context arg rest h = ground arith
  on_message-answer again (error_response code) context arg rest h = ground arith

  module _ (layout : Layout p) where
    pub recv-block :
        (b : Block) (rest : List ℕ) → Arrives b → recv p (block b ++ rest) ≡ ok (b.message, rest)
    unfolding recv
    recv-block b rest (ignored, readable) =
        let input = wires p b.noise ++ (wire p (frame p b.message) ++ rest) in
        ap (recv p) (append_assoc (wires p b.noise) (wire p (frame p b.message)) rest)
        ∙ recv_message-wires p layout (suc (length input)) b.noise b.message rest
            (omega (
              arith,
              length-wires p layout b.noise,
              length-append {0} (wires p b.noise) (wire p (frame p b.message) ++ rest),
            ))
            ignored readable

    recv_ok_resp_loop-blocks :
        (fuel : ℕ) (bs : List Block) (b : Block) (r : RelayResponseCode) (rest : List ℕ)
        → length bs < fuel
        → All Passed bs
        → Arrives b
        → b.message.context ≡ p.min_client_initiated
        → b.message.code ≡ response r
        → recv_ok_resp_loop fuel p (blocks bs ++ (block b ++ rest)) ≡ answer r b.message.arg rest
    unfolding recv_ok_resp_loop
    recv_ok_resp_loop-blocks zero bs b r rest h passed arrives context code =
        absurd (omega (arith, h))
    recv_ok_resp_loop-blocks (suc fuel) [] b r rest h passed arrives context code =
        rw (recv-block b rest arrives, code)
          (on_message-answer (λ after. recv_ok_resp_loop fuel p after) r b.message.context
            b.message.arg rest context)
    recv_ok_resp_loop-blocks (suc fuel) (q ∷ bs) b r rest h ((first, unrelated), others) arrives
          context code =
        rw
          (
            append_assoc (block q) (blocks bs) (block b ++ rest),
            recv-block q (blocks bs ++ (block b ++ rest)) first,
          )
          (on_message-Unrelated (λ after. recv_ok_resp_loop fuel p after) q.message
              (blocks bs ++ (block b ++ rest)) unrelated
            ∙ recv_ok_resp_loop-blocks fuel bs b r rest (omega (arith, h)) others arrives context
                code)

    pub length-blocks : (bs : List Block) → length bs ≤ length (blocks bs)
    length-blocks [] = omega arith
    length-blocks (b ∷ bs) =
        let f = frame p b.message in
        omega (
          arith,
          length-blocks bs,
          length-append {0} (block b) (blocks bs),
          length-append {0} (wires p b.noise) (wire p f),
          length-append {0} (p.header_bytes f.context (length f.payload)) f.payload,
          layout.header_size f.context (length f.payload),
        )

    -- The relay's answer to an operation is the first response with the context of the client's
    -- operations that can be read: operations that the relay starts, responses to another context, and
    -- frames that are to be ignored are passed over, however many there are. The answer is a success, after
    -- which the bytes behind it are left, or the error that the relay sent.
    pub recv_ok_resp-answer :
        (bs : List Block) (b : Block) (r : RelayResponseCode) (rest : List ℕ)
        → All Passed bs
        → Arrives b
        → b.message.context ≡ p.min_client_initiated
        → b.message.code ≡ response r
        → recv_ok_resp_no_timeout p (blocks bs ++ (block b ++ rest)) ≡ answer r b.message.arg rest
    unfolding recv_ok_resp_no_timeout
    recv_ok_resp-answer bs b r rest passed arrives context code =
        let input = blocks bs ++ (block b ++ rest) in
        recv_ok_resp_loop-blocks (suc (length input)) bs b r rest
          (omega (arith, length-blocks bs, length-append {0} (blocks bs) (block b ++ rest))) passed
          arrives context code

on_message-ends :
    (p : RelayProtocol) (again : List ℕ → Result QuicWgRelayHandshakeError (List ℕ)) (context : ℕ)
    (arg rest : List ℕ) (code : MessageCode)
    → again rest ≢ err out_of_fuel
    → on_message p again context arg rest code ≢ err out_of_fuel
unfolding on_message
on_message-ends p again context arg rest (op code) h = h
on_message-ends p again context arg rest (response ok_response) h =
    elim (Bool-cases (context == p.min_client_initiated)) [
      | inl e ↦ rw e (λ g. ground arith)
      | inr e ↦ rw e h
    ]
on_message-ends p again context arg rest (response (error_response code)) h =
    elim (Bool-cases (context == p.min_client_initiated)) [
      | inl e ↦ rw e (λ g. ground arith)
      | inr e ↦ rw e h
    ]

recv_ok_resp_loop-ends :
    (fuel : ℕ) (p : RelayProtocol) (input : List ℕ)
    → length input < fuel
    → recv_ok_resp_loop fuel p input ≢ err out_of_fuel
unfolding recv_ok_resp_loop
recv_ok_resp_loop-ends zero p input h = absurd (omega (arith, h))
recv_ok_resp_loop-ends (suc fuel) p input h = elim (recv-Received p input) [
  | inl (m, rest, e, shorter) ↦ rw e (
      on_message-ends p (λ after. recv_ok_resp_loop fuel p after) m.context m.arg rest m.code
        (recv_ok_resp_loop-ends fuel p rest (omega (arith, h, shorter))))
  | inr e ↦ rw e (λ g. ground arith)
]

-- Waiting for an answer ends with what arrives, whatever the relay sends.
pub recv_ok_resp-ends :
    (p : RelayProtocol) (input : List ℕ) → recv_ok_resp_no_timeout p input ≢ err out_of_fuel
unfolding recv_ok_resp_no_timeout
recv_ok_resp-ends p input = recv_ok_resp_loop-ends (suc (length input)) p input (omega arith)
