-- ===== src/Relay/Framing.antt =====
-- How `recv_message` of rustlib/src/quicwg.rs splits a byte stream into messages.
use mathlib.Core.List.{append_assoc}
use obscuravpn_client.Prelude.{
  ℕ, zero, suc, ◌+◌, ◌-◌, ◌≤◌, ◌<◌, ◌≡◌, ◌⊎◌, inl, inr, refl, ap, ◌∙◌, true, false, none, some,
  List, [], ◌∷◌, ◌++◌, length, length-append, le→leb, drop, All, arith,
}
use obscuravpn_client.NetworkConfig.{ok}
use obscuravpn_client.Relay.{RelayProtocol, Layout, MessageCode, Message, take, ◌>>=◌}
use obscuravpn_client.Relay.Messages.{
  Writer, write_all, flush, send_message, read_exact, recv_skip, bad_length, recv_message, recv,
  after_header, with_code,
}
use obscuravpn_client.Relay.Skipping.{
  take-append, drop-append, read_exact-append, recv_skip-Skipped,
}

-- A header and what it announces.
pub record Frame : Type 0 where
  pub context : ℕ
  pub payload : List ℕ

good_length : (n : ℕ) → 4 ≤ n → n ≤ 0x10003 → bad_length n ≡ false
good_length n low high = ground arith

pub write_all-fits :
    (bytes : List ℕ) (w : Writer)
    → length bytes ≤ w.room
    → write_all bytes w
      ≡ (record w { written = w.written ++ bytes; room = w.room - length bytes }, ok tt)
unfolding write_all
write_all-fits bytes w h = rw (le→leb (length bytes) w.room h) refl

-- A message is written whole.
pub send_message-fits :
    (p : RelayProtocol) (code : MessageCode) (context : ℕ) (arg : List ℕ) (w : Writer)
    → let header = p.header_bytes context (4 + length arg) in
      length arg ≤ 0xffff
      → length header + (length (p.code_to_bytes code) + length arg) ≤ w.room
      → w.flushes ≡ true
      → ((send_message p code context arg w).1 ≡ ok tt)
        × ((send_message p code context arg w).0.written
            ≡ w.written ++ (header ++ (p.code_to_bytes code ++ arg)))
unfolding send_message flush
send_message-fits p code context arg w fits room flushes =
    let header = p.header_bytes context (4 + length arg) in
    let bytes = p.code_to_bytes code in
    let w1 : Writer = record w { written = w.written ++ header; room = w.room - length header } in
    let w2 : Writer = record w1 { written = w1.written ++ bytes; room = w1.room - length bytes } in
    rw
      (
        le→leb (4 + length arg) 0xffffffff (omega (arith, fits)),
        write_all-fits header w (omega (arith, room)),
        write_all-fits bytes w1 (omega (arith, room)),
        write_all-fits arg w2 (omega (arith, room)),
        flushes,
      )
      (
        refl,
        append_assoc (w.written ++ header) bytes arg ∙ append_assoc w.written header (bytes ++ arg),
      )

module _ (p : RelayProtocol) where
  abbrev pub wire : Frame → List ℕ
  wire f = p.header_bytes f.context (length f.payload) ++ f.payload

  abbrev pub wires : List Frame → List ℕ
  wires [] = []
  wires (f ∷ fs) = wire f ++ wires fs

  -- The frame of a message.
  abbrev pub frame : Message → Frame
  frame m = record { context = m.context; payload = p.code_to_bytes m.code ++ m.arg }

  -- A payload that is too small or too large, or has a code that is not known.
  abbrev pub Ignored : Frame → Type 0
  Ignored f =
      (f.context < 0x100000000)
      × (length f.payload < 0x100000000)
      × ((bad_length (length f.payload) ≡ true)
          ⊎ ((bad_length (length f.payload) ≡ false)
              × (p.code_from_bytes (take 4 f.payload) f.context ≡ none)))

  -- A message that a client can read.
  abbrev pub Readable : Message → Type 0
  Readable m =
      (m.context < 0x100000000)
      × (length m.arg ≤ 0xffff)
      × (p.code_from_bytes (p.code_to_bytes m.code) m.context ≡ some m.code)

  recv_skip-append : (xs ys : List ℕ) → recv_skip (length xs) (xs ++ ys) ≡ ok ys
  recv_skip-append xs ys = elim (recv_skip-Skipped (length xs) (xs ++ ys)) [
    | inl (fits, done) ↦ done ∙ ap (λ zs. ok zs) (drop-append xs ys)
    | inr (short, failed) ↦ absurd (omega (arith, short, length-append {0} xs ys))
  ]

  module _ (layout : Layout p) where
    -- The header of a frame is read first.
    with_header :
        (f : Frame) (rest : List ℕ)
        → length f.payload < 0x100000000
        → read_exact 8 (wire f ++ rest)
          ≡ ok (p.header_bytes f.context (length f.payload), f.payload ++ rest)
    with_header f rest h =
        ap (read_exact 8)
          (append_assoc (p.header_bytes f.context (length f.payload)) f.payload rest)
        ∙ read_exact-append 8 (p.header_bytes f.context (length f.payload)) (f.payload ++ rest)
            (layout.header_size f.context (length f.payload))

    recv_message-wire :
        (fuel : ℕ) (f : Frame) (rest : List ℕ)
        → f.context < 0x100000000
        → length f.payload < 0x100000000
        → recv_message (suc fuel) p (wire f ++ rest)
          ≡ after_header
              (λ after. recv_message fuel p after)
              p
              (f.context, length f.payload)
              (f.payload ++ rest)
    unfolding recv_message
    recv_message-wire fuel f rest named small =
        ap
          (λ r. r >>= λ (header, rest).
            after_header (λ after. recv_message fuel p after) p (p.header_from header) rest)
          (with_header f rest small)
        ∙ ap (λ h. after_header (λ after. recv_message fuel p after) p h (f.payload ++ rest))
            (layout.header_read f.context (length f.payload) named small)

    recv_message-Ignored :
        (fuel : ℕ) (f : Frame) (rest : List ℕ)
        → Ignored f
        → recv_message (suc fuel) p (wire f ++ rest) ≡ recv_message fuel p rest
    unfolding after_header with_code
    recv_message-Ignored fuel f rest (named, small, inl bad) =
        recv_message-wire fuel f rest named small ∙ rw (bad, recv_skip-append f.payload rest) refl
    recv_message-Ignored fuel f rest (named, small, inr (good, unknown)) =
        recv_message-wire fuel f rest named small
        ∙ rw (good, read_exact-append (length f.payload) f.payload rest refl, unknown) refl

    recv_message-Readable :
        (fuel : ℕ) (m : Message) (rest : List ℕ)
        → Readable m
        → recv_message (suc fuel) p (wire (frame m) ++ rest) ≡ ok (m, rest)
    unfolding after_header with_code
    recv_message-Readable fuel m rest (named, fits, known) =
        let code = p.code_to_bytes m.code in
        let four = layout.code_size m.code in
        let size = length-append {0} code m.arg in
        let good : bad_length (length (code ++ m.arg)) ≡ false =
          good_length (length (code ++ m.arg)) (omega (arith, four, size))
            (omega (arith, four, size, fits)) in
        let first : take 4 (code ++ m.arg) ≡ code = rw (← four) (take-append code m.arg) in
        let last : drop 4 (code ++ m.arg) ≡ m.arg = rw (← four) (drop-append code m.arg) in
        recv_message-wire fuel (frame m) rest named (omega (arith, four, size, fits))
        ∙ rw
            (
              good,
              read_exact-append (length (code ++ m.arg)) (code ++ m.arg) rest refl,
              first,
              known,
              last,
            )
            refl

    pub length-wires : (fs : List Frame) → length fs ≤ length (wires fs)
    length-wires [] = omega arith
    length-wires (f ∷ fs) =
        let header = p.header_bytes f.context (length f.payload) in
        omega (
          arith,
          length-wires fs,
          layout.header_size f.context (length f.payload),
          length-append {0} header f.payload,
          length-append {0} (wire f) (wires fs),
        )

    pub recv_message-wires :
        (fuel : ℕ) (fs : List Frame) (m : Message) (rest : List ℕ)
        → length fs < fuel
        → All Ignored fs
        → Readable m
        → recv_message fuel p (wires fs ++ (wire (frame m) ++ rest)) ≡ ok (m, rest)
    recv_message-wires zero fs m rest h ignored readable = absurd (omega (arith, h))
    recv_message-wires (suc fuel) [] m rest h ignored readable =
        recv_message-Readable fuel m rest readable
    recv_message-wires (suc fuel) (f ∷ fs) m rest h (first, others) readable =
        ap (recv_message (suc fuel) p) (append_assoc (wire f) (wires fs) (wire (frame m) ++ rest))
        ∙ recv_message-Ignored fuel f (wires fs ++ (wire (frame m) ++ rest)) first
        ∙ recv_message-wires fuel fs m rest (omega (arith, h)) others readable

    -- A message with an argument of at most 65535 bytes, a context below 2^32 and a code that the
    -- receiver reads as it was written is sent whole on a transport that has room for it and can be
    -- flushed; and it is received with its code, its context and its argument, whatever comes after it
    -- in the stream, and whatever frames come before it that have a payload too small or too large or a
    -- code that is not known.
    pub recv-send_message :
        (fs : List Frame) (m : Message) (w : Writer) (rest : List ℕ)
        → All Ignored fs
        → Readable m
        → w.written ≡ wires fs
        → length (wire (frame m)) ≤ w.room
        → w.flushes ≡ true
        → let (after, result) = send_message p m.code m.context m.arg w in
          (result ≡ ok tt) × (recv p (after.written ++ rest) ≡ ok (m, rest))
    unfolding recv
    recv-send_message fs m w rest ignored readable before room flushes =
        let size = length-append {0} (p.code_to_bytes m.code) m.arg in
        let whole =
          length-append {0} (p.header_bytes m.context (length (frame m).payload))
            (frame m).payload in
        let announced : length (frame m).payload ≡ 4 + length m.arg =
          omega (arith, size, layout.code_size m.code) in
        let (sent, written) =
          send_message-fits p m.code m.context m.arg w readable.1
            (omega (
              arith,
              room,
              whole,
              size,
              layout.header_size m.context (4 + length m.arg),
              layout.header_size m.context (length (frame m).payload),
            ))
            flushes in
        let all : (send_message p m.code m.context m.arg w).0.written ≡ wires fs ++ wire (frame m) =
          rw (announced, ← before) written in
        let input = wires fs ++ (wire (frame m) ++ rest) in
        (
          sent,
          ap (λ xs. recv p (xs ++ rest)) all
              ∙ ap (recv p) (append_assoc (wires fs) (wire (frame m)) rest)
              ∙ recv_message-wires (suc (length input)) fs m rest
                  (omega
                    (arith, length-wires fs, length-append {0} (wires fs) (wire (frame m) ++ rest)))
                  ignored readable,
        )
