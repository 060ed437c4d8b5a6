-- ===== src/RelayRace/Racing.antt =====
-- rustlib/src/relay_selection.rs: which handshakes a race starts, and which it delivers. The crate's
-- relays are given with their ports, and what comes of the tasks in the order in which they end.
use obscuravpn_client.Prelude.{
  ℕ, zero, suc, ◌+◌, ◌*◌, ◌≤◌, ◌≡◌, ◌⊎◌, inl, inr, refl, sym, ap, Bool, true, false, if◌then◌else◌,
  Option, none, some, List, [], ◌∷◌, ◌++◌, length, length-append, Among, All, subst, arith,
}
use obscuravpn_client.ExitSelection.{OneRelay}
use obscuravpn_client.NetworkConfig.{Result, ok, err}
use obscuravpn_client.Errors.{RelaySelectionError, quic_setup, udp_setup}

abbrev pub max_relays : ℕ
max_relays = 100

abbrev pub max_ports_per_relay : ℕ
max_ports_per_relay = 5

-- `Iterator::take`.
abbrev pub first_of : {A : Type 0} → ℕ → List A → List A
first_of zero xs = []
first_of (suc n) [] = []
first_of (suc n) (x ∷ xs) = x ∷ first_of n xs

-- A relay with its ports.
pub record RelayPorts : Type 0 where
  pub relay : OneRelay
  pub ports : List ℕ

unfoldable pub tasks_of : OneRelay → List ℕ → List (OneRelay × ℕ)
tasks_of relay [] = []
tasks_of relay (port ∷ ports) = (relay, port) ∷ tasks_of relay ports

unfoldable pub tasks_of_all : List RelayPorts → List (OneRelay × ℕ)
tasks_of_all [] = []
tasks_of_all (r ∷ relays) =
    tasks_of r.relay (first_of max_ports_per_relay r.ports) ++ tasks_of_all relays

-- The tasks that `race_relay_handshakes` spawns.
unfoldable pub spawned : List RelayPorts → List (OneRelay × ℕ)
spawned relays = tasks_of_all (first_of max_relays relays)

-- `race_relay_handshakes`, with whether its UDP socket and its QUIC endpoint can be made.
unfoldable pub race_relay_handshakes :
    Bool → Bool → List RelayPorts → Result RelaySelectionError (List (OneRelay × ℕ))
race_relay_handshakes udp_ok quic_ok relays =
    if udp_ok then if quic_ok then ok (spawned relays) else err quic_setup else err udp_setup

-- What comes of a task. A handshake is its number.
pub data TaskResult : Type 0 where
  join_cancelled join_panicked connect_failed : TaskResult
  handshake_started : OneRelay → ℕ → ℕ → ℕ → TaskResult

-- `next`: the first handshake that was started, and the tasks after it.
unfoldable pub next : List TaskResult → Option ((OneRelay × ℕ × ℕ × ℕ) × List TaskResult)
next [] = none
next (join_cancelled ∷ rest) = next rest
next (join_panicked ∷ rest) = next rest
next (connect_failed ∷ rest) = next rest
next (handshake_started relay port rtt handshaking ∷ rest) =
    some ((relay, port, rtt, handshaking), rest)

-- What `abandon` counts, and the handshakes that it stops.
pub record Abandoned : Type 0 where
  pub aborted : ℕ
  pub failed : ℕ
  pub stopping : List ℕ

unfoldable pub abandon : List TaskResult → Abandoned
abandon [] = record { aborted = 0; failed = 0; stopping = [] }
abandon (join_cancelled ∷ rest) = let r = abandon rest in record r { aborted = r.aborted + 1 }
abandon (join_panicked ∷ rest) = abandon rest
abandon (connect_failed ∷ rest) = let r = abandon rest in record r { failed = r.failed + 1 }
abandon (handshake_started relay port rtt handshaking ∷ rest) =
    let r = abandon rest in record r { stopping = handshaking ∷ r.stopping }

length-first_of : {A : Type 0} (n : ℕ) (xs : List A) → length (first_of n xs) ≤ n
length-first_of zero xs = omega arith
length-first_of (suc n) [] = omega arith
length-first_of (suc n) (x ∷ xs) = omega (arith, length-first_of n xs)

first_of-all : {A : Type 0} (n : ℕ) (xs : List A) → length xs ≤ n → first_of n xs ≡ xs
first_of-all zero [] h = refl
first_of-all zero (x ∷ xs) h = absurd (omega (arith, h))
first_of-all (suc n) [] h = refl
first_of-all (suc n) (x ∷ xs) h = ap (λ ys. x ∷ ys) (first_of-all n xs (omega (arith, h)))

length-tasks_of : (relay : OneRelay) (ports : List ℕ) → length (tasks_of relay ports) ≡ length ports
unfolding tasks_of
length-tasks_of relay [] = refl
length-tasks_of relay (port ∷ ports) = ap suc (length-tasks_of relay ports)

length-tasks_of_all : (relays : List RelayPorts) → length (tasks_of_all relays) ≤ 5 * length relays
unfolding tasks_of_all
length-tasks_of_all [] = omega arith
length-tasks_of_all (r ∷ relays) =
    let ports = first_of max_ports_per_relay r.ports in
    omega (
      arith,
      length-tasks_of_all relays,
      length-first_of max_ports_per_relay r.ports,
      length-tasks_of r.relay ports,
      length-append {0} (tasks_of r.relay ports) (tasks_of_all relays),
    )

Among-append : {A : Type 0} (x : A) (xs ys : List A) → Among x xs ⊎ Among x ys → Among x (xs ++ ys)
Among-append x [] ys (inl m) = absurd m
Among-append x [] ys (inr m) = m
Among-append x (z ∷ xs) ys (inl (inl e)) = inl e
Among-append x (z ∷ xs) ys (inl (inr m)) = inr (Among-append x xs ys (inl m))
Among-append x (z ∷ xs) ys (inr m) = inr (Among-append x xs ys (inr m))

Among-tasks_of :
    (relay : OneRelay) (port : ℕ) (ports : List ℕ)
    → Among port ports
    → Among (relay, port) (tasks_of relay ports)
unfolding tasks_of
Among-tasks_of relay port [] m = m
Among-tasks_of relay port (q ∷ ports) (inl e) = inl (λ i. (relay, e i))
Among-tasks_of relay port (q ∷ ports) (inr m) = inr (Among-tasks_of relay port ports m)

Among-tasks_of_all :
    (relays : List RelayPorts) (r : RelayPorts) (port : ℕ)
    → All (λ q. length q.ports ≤ max_ports_per_relay) relays
    → Among r relays
    → Among port r.ports
    → Among (r.relay, port) (tasks_of_all relays)
unfolding tasks_of_all
Among-tasks_of_all [] r port few m n = m
Among-tasks_of_all (q ∷ relays) r port (few, others) (inl e) n =
    Among-append (r.relay, port) (tasks_of q.relay (first_of max_ports_per_relay q.ports))
      (tasks_of_all relays)
      (inl (
        rw (first_of-all max_ports_per_relay q.ports few) (
          subst (λ (x : RelayPorts). Among (r.relay, port) (tasks_of x.relay x.ports)) (sym e)
            (Among-tasks_of r.relay port r.ports n))))
Among-tasks_of_all (q ∷ relays) r port (few, others) (inr m) n =
    Among-append (r.relay, port) (tasks_of q.relay (first_of max_ports_per_relay q.ports))
      (tasks_of_all relays) (inr (Among-tasks_of_all relays r port others m n))

spawned-limits : (relays : List RelayPorts) → length (spawned relays) ≤ 500
unfolding spawned
spawned-limits relays =
    omega
      (arith, length-tasks_of_all (first_of max_relays relays), length-first_of max_relays relays)

race_relay_handshakes-ok :
    (udp_ok quic_ok : Bool) (relays : List RelayPorts) (tasks : List (OneRelay × ℕ))
    → race_relay_handshakes udp_ok quic_ok relays ≡ ok tasks
    → tasks ≡ spawned relays
unfolding race_relay_handshakes
race_relay_handshakes-ok true true relays tasks h = ground arith
race_relay_handshakes-ok true false relays tasks h = absurd (ground arith)
race_relay_handshakes-ok false quic_ok relays tasks h = absurd (ground arith)

-- However many relays and ports the API server sends, a race that starts has at most 500 handshakes.
pub race_relay_handshakes-limits :
    (udp_ok quic_ok : Bool) (relays : List RelayPorts) (tasks : List (OneRelay × ℕ))
    → race_relay_handshakes udp_ok quic_ok relays ≡ ok tasks
    → length tasks ≤ 500
race_relay_handshakes-limits udp_ok quic_ok relays tasks h =
    rw (race_relay_handshakes-ok udp_ok quic_ok relays tasks h) (spawned-limits relays)

-- If the API server sends at most 100 relays with at most 5 ports each, a race that starts has a
-- handshake at each port of each relay.
pub race_relay_handshakes_complete :
    (udp_ok quic_ok : Bool) (relays : List RelayPorts) (tasks : List (OneRelay × ℕ))
    (r : RelayPorts) (port : ℕ)
    → race_relay_handshakes udp_ok quic_ok relays ≡ ok tasks
    → length relays ≤ 100
    → All (λ q. length q.ports ≤ 5) relays
    → Among r relays
    → Among port r.ports
    → Among (r.relay, port) tasks
unfolding spawned
race_relay_handshakes_complete udp_ok quic_ok relays tasks r port h few few_ports m n =
    rw (race_relay_handshakes-ok udp_ok quic_ok relays tasks h, first_of-all max_relays relays few)
      (Among-tasks_of_all relays r port few_ports m n)

stopped : Option ((OneRelay × ℕ × ℕ × ℕ) × List TaskResult) → List ℕ
stopped none = []
stopped (some ((relay, port, rtt, handshaking), rest)) = handshaking ∷ (abandon rest).stopping

-- A handshake of a race is either delivered or stopped when the race is abandoned: what is abandoned
-- after one was delivered is all the others.
pub abandon-next :
    (results rest : List TaskResult) (relay : OneRelay) (port rtt handshaking : ℕ)
    → next results ≡ some ((relay, port, rtt, handshaking), rest)
    → (abandon results).stopping ≡ handshaking ∷ (abandon rest).stopping
unfolding next abandon stopped
abandon-next [] rest relay port rtt handshaking h = absurd (ground arith)
abandon-next (join_cancelled ∷ results) rest relay port rtt handshaking h =
    abandon-next results rest relay port rtt handshaking h
abandon-next (join_panicked ∷ results) rest relay port rtt handshaking h =
    abandon-next results rest relay port rtt handshaking h
abandon-next (connect_failed ∷ results) rest relay port rtt handshaking h =
    abandon-next results rest relay port rtt handshaking h
abandon-next (handshake_started a b c d ∷ results) rest relay port rtt handshaking h = ap stopped h
