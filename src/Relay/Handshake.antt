-- ===== src/Relay/Handshake.antt =====
-- `QuicWgConnHandshaking` of rustlib/src/quicwg.rs: the steps with a relay before WireGuard starts.
-- Whether a step's time is up before it is done is an argument of the step. A step that failed
-- leaves nothing behind: its connection is not used again.
use obscuravpn_client.Prelude.{
  ℕ, zero, suc, ◌-◌, min, String, Bool, List, [], ◌∷◌, length, ◌==◌, ltb, if◌then◌else◌,
}
use obscuravpn_client.NetworkConfig.{Result, ok, err}
use obscuravpn_client.Backoff.{duration_max}
use obscuravpn_client.Liveness.{bytes_eq}
use obscuravpn_client.Relay.{
  RelayProtocol, RelayOpCode, ping, token, stop, ok_response, error_response, MessageCode, op,
  response, IoError, ◌>>=◌,
}
use obscuravpn_client.Relay.Messages.{
  Writer, write_all, flush, then_write, send_message, read_exact, recv,
}

pub data TransportKind : Type 0 where
  quic tcp_tls : TransportKind

-- What a transport receives until it fails, and its writing end.
pub record Transport : Type 0 where
  pub kind : TransportKind
  pub reading : List ℕ
  pub writing : Writer

pub record QuicWgConnHandshaking : Type 0 where
  pub relay_id : String
  pub port : ℕ
  pub transport : Transport

pub data QuicWgRelayHandshakeError : Type 0 where
  control_stream_init_error : QuicWgRelayHandshakeError
  control_stream_message_receive_error protocol_identifier_receive_failed
        control_stream_write_error :
      IoError → QuicWgRelayHandshakeError
  timeout : String → QuicWgRelayHandshakeError
  unexpected_protocol_identifier_received : List ℕ → QuicWgRelayHandshakeError
  received_error_response : ℕ → List ℕ → QuicWgRelayHandshakeError
  out_of_fuel : QuicWgRelayHandshakeError

abbrev pub map_err : {A E F : Type 0} → (E → F) → Result E A → Result F A
map_err f (ok a) = ok a
map_err f (err e) = err (f e)

-- `tokio::time::timeout` around a step.
unfoldable pub with_timeout :
    {A : Type 0}
    → Bool
    → String
    → Result QuicWgRelayHandshakeError A
    → Result QuicWgRelayHandshakeError A
with_timeout expired what r = if expired then err (timeout what) else r

-- The transport after something was written.
unfoldable pub wrote :
    Transport → Writer × Result IoError Unit → Result QuicWgRelayHandshakeError Transport
wrote t (w, r) = map_err control_stream_write_error r >>= λ u. ok (record t { writing = w })

-- `send_op`.
unfoldable pub send_op :
    RelayProtocol
    → Bool
    → RelayOpCode
    → List ℕ
    → Transport
    → Result QuicWgRelayHandshakeError Transport
send_op p expired code arg t =
    with_timeout expired "sending op"
      (wrote t (send_message p (op code) p.min_client_initiated arg t.writing))

-- What `recv_ok_resp` makes of a message: `again` goes on with the input after it.
unfoldable pub on_message :
    RelayProtocol
    → (List ℕ → Result QuicWgRelayHandshakeError (List ℕ))
    → ℕ
    → List ℕ
    → List ℕ
    → MessageCode
    → Result QuicWgRelayHandshakeError (List ℕ)
on_message p again context arg rest (op code) = again rest
on_message p again context arg rest (response ok_response) =
    if context == p.min_client_initiated then ok rest else again rest
on_message p again context arg rest (response (error_response code)) =
    if context == p.min_client_initiated then err (received_error_response code arg) else again rest

-- The loop of `recv_ok_resp_no_timeout`.
unfoldable pub recv_ok_resp_loop :
    ℕ → RelayProtocol → List ℕ → Result QuicWgRelayHandshakeError (List ℕ)
recv_ok_resp_loop zero p input = err out_of_fuel
recv_ok_resp_loop (suc fuel) p input =
    map_err control_stream_message_receive_error (recv p input) >>= λ (m, rest).
    on_message p (λ after. recv_ok_resp_loop fuel p after) m.context m.arg rest m.code

-- Each message takes bytes.
unfoldable pub recv_ok_resp_no_timeout :
    RelayProtocol → List ℕ → Result QuicWgRelayHandshakeError (List ℕ)
recv_ok_resp_no_timeout p input = recv_ok_resp_loop (suc (length input)) p input

unfoldable pub recv_ok_resp :
    RelayProtocol → Bool → Transport → Result QuicWgRelayHandshakeError Transport
recv_ok_resp p expired t =
    with_timeout expired "awaiting op response" (recv_ok_resp_no_timeout p t.reading) >>= λ rest.
    ok (record t { reading = rest })

-- The identifier is written, and flushed over TLS.
unfoldable pub write_identifier :
    RelayProtocol → Transport → TransportKind → Writer × Result IoError Unit
write_identifier p t quic = write_all p.protocol_identifier t.writing
write_identifier p t tcp_tls = then_write (write_all p.protocol_identifier t.writing) (λ w. flush w)

-- `exchange_protocol_identifiers`.
unfoldable pub exchange_protocol_identifiers :
    RelayProtocol → Bool → Transport → Result QuicWgRelayHandshakeError Transport
exchange_protocol_identifiers p expired t = with_timeout expired "exchanging protocol identifiers" (
    wrote t (write_identifier p t t.kind) >>= λ t1.
    map_err protocol_identifier_receive_failed (read_exact 16 t1.reading) >>= λ (buffer, rest).
    if bytes_eq buffer p.protocol_identifier
    then ok (record t1 { reading = rest })
    else err (unexpected_protocol_identifier_received buffer))

-- An operation that the relay has to confirm.
unfoldable pub confirmed_op :
    RelayProtocol
    → Bool
    → Bool
    → RelayOpCode
    → List ℕ
    → Transport
    → Result QuicWgRelayHandshakeError Transport
confirmed_op p send_expired recv_expired code arg t =
    send_op p send_expired code arg t >>= λ t1. recv_ok_resp p recv_expired t1

-- A round of `measure_rtt`: which of its steps are out of time, and the clock at its end.
pub record RttRound : Type 0 where
  pub send_expired : Bool
  pub recv_expired : Bool
  pub end_time : ℕ

-- `min_rtt.min(last_rtt)`, where the clock did not go backwards.
unfoldable pub min_with_last : ℕ → ℕ → ℕ → ℕ
min_with_last start_time end_time min_rtt =
    if ltb end_time start_time then min_rtt else min min_rtt (end_time - start_time)

unfoldable pub measure_rounds :
    RelayProtocol
    → List RttRound
    → ℕ
    → ℕ
    → Transport
    → Result QuicWgRelayHandshakeError (ℕ × Transport)
measure_rounds p [] start_time min_rtt t = ok (min_rtt, t)
measure_rounds p (r ∷ rounds) start_time min_rtt t =
    confirmed_op p r.send_expired r.recv_expired ping [] t >>= λ t1.
    measure_rounds p rounds r.end_time (min_with_last start_time r.end_time min_rtt) t1

-- `measure_rtt`, with the clock at the start.
unfoldable pub measure_rtt :
    RelayProtocol
    → RttRound
    → RttRound
    → RttRound
    → ℕ
    → Transport
    → Result QuicWgRelayHandshakeError (ℕ × Transport)
measure_rtt p r1 r2 r3 start_time t = measure_rounds p (r1 ∷ r2 ∷ r3 ∷ []) start_time duration_max t

-- `authenticate`, with the 16 bytes of a token.
unfoldable pub authenticate :
    RelayProtocol
    → Bool
    → Bool
    → List ℕ
    → QuicWgConnHandshaking
    → Result QuicWgRelayHandshakeError Transport
authenticate p send_expired recv_expired uuid h =
    confirmed_op p send_expired recv_expired token uuid h.transport

-- `stop`, which `abandon` calls before it closes the connection.
unfoldable pub stop_relay :
    RelayProtocol → Bool → Bool → QuicWgConnHandshaking → Result QuicWgRelayHandshakeError Transport
stop_relay p send_expired recv_expired h =
    confirmed_op p send_expired recv_expired stop [] h.transport
