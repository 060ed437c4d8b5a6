-- ===== src/Liveness/Window.antt =====
-- rustlib/src/liveness.rs: the list of slow pongs, against the history of all pongs.
use obscuravpn_client.Prelude.{
  ℕ, ◌*◌, ◌≤◌, ◌<◌, max, ◌≡◌, ◌≢◌, refl, ◌⊎◌, inl, inr, Bool, true, false, ◌&&◌, some, List, [],
  ◌∷◌, ◌++◌, ltb, if◌then◌else◌, All, arith,
}
use obscuravpn_client.Liveness.{
  ReceivedPong, LivenessChecker, age, slow_pong_window, pop_outdated, pop_faster, keep_front,
  update_slowest_pongs_list, probe_lost_period, clamp, doubled_front, min_probe_lost_period,
  max_probe_lost_period,
}

unfoldable pub all_faster : ℕ → List ReceivedPong → Bool
all_faster rtt [] = true
all_faster rtt (p ∷ ps) = ltb p.rtt rtt && all_faster rtt ps

-- The pongs that no more recent pong was as slow as.
unfoldable pub records : List ReceivedPong → List ReceivedPong
records [] = []
records (p ∷ ps) = let rest = records ps in if all_faster p.rtt ps then p ∷ rest else rest

-- The greatest round trip time.
pub slowest : List ReceivedPong → ℕ
slowest [] = 0
slowest (p ∷ ps) = max p.rtt (slowest ps)

-- Seen from the probe `id_seq`, no pong is older than one before it.
abbrev pub AgesFall : ℕ → List ReceivedPong → Type 0
AgesFall id_seq [] = Unit
AgesFall id_seq (p ∷ ps) = All (λ q. age id_seq q ≤ age id_seq p) ps × AgesFall id_seq ps

pop_outdated_recent :
    (id_seq k : ℕ) (ps : List ReceivedPong)
    → k ≤ slow_pong_window
    → All (λ q. age id_seq q ≤ k) ps
    → pop_outdated id_seq ps ≡ ps
unfolding pop_outdated
pop_outdated_recent id_seq k [] h a = refl
pop_outdated_recent id_seq k (p ∷ ps) h a = ground arith

pop_outdated-records :
    (id_seq : ℕ) (ps : List ReceivedPong)
    → AgesFall id_seq ps
    → pop_outdated id_seq (records ps) ≡ records (pop_outdated id_seq ps)
unfolding pop_outdated records
pop_outdated-records id_seq [] a = refl
pop_outdated-records id_seq (p ∷ ps) a =
    ground (arith, pop_outdated-records id_seq ps a.1, pop_outdated_recent id_seq (age id_seq p) ps)

pop_faster_all :
    (rtt k : ℕ) (ps : List ReceivedPong)
    → k ≤ rtt
    → all_faster k ps ≡ true
    → pop_faster rtt (records ps) ≡ []
unfolding records pop_faster all_faster
pop_faster_all rtt k [] h a = refl
pop_faster_all rtt k (p ∷ ps) h a = ground (arith, pop_faster_all rtt k ps h)

all_faster-append :
    (rtt : ℕ) (ps : List ReceivedPong) (q : ReceivedPong)
    → all_faster rtt (ps ++ q ∷ []) ≡ (all_faster rtt ps && ltb q.rtt rtt)
unfolding all_faster
all_faster-append rtt [] q = ground arith
all_faster-append rtt (p ∷ ps) q = ground (arith, all_faster-append rtt ps q)

keep_front_slower :
    (p : ReceivedPong) (rtt : ℕ) (qs : List ReceivedPong)
    → rtt < p.rtt
    → keep_front p rtt qs ≡ p ∷ qs
keep_front_slower p rtt [] h = ground arith
keep_front_slower p rtt (q ∷ qs) h = refl

pop_faster-records :
    (q : ReceivedPong) (ps : List ReceivedPong)
    → pop_faster q.rtt (records ps) ++ q ∷ [] ≡ records (ps ++ q ∷ [])
unfolding records pop_faster all_faster
pop_faster-records q [] = refl
pop_faster-records q (p ∷ ps) = ground (
  arith,
  all_faster-append p.rtt ps q,
  pop_faster-records q ps,
  pop_faster_all q.rtt p.rtt ps,
  keep_front_slower p q.rtt (pop_faster q.rtt (records ps)),
)

-- The list of slow pongs that the code keeps is, after each update, the list of those pongs of the
-- history within the window that no more recent pong was as slow as, if it was so before and no
-- pong of the history is older than one before it.
pub update-records :
    (id_seq rtt : ℕ) (history : List ReceivedPong)
    → AgesFall id_seq history
    → update_slowest_pongs_list id_seq rtt (records history)
      ≡ records (
          pop_outdated id_seq history
          ++ (let pong : ReceivedPong = record { id_seq = id_seq; rtt = rtt } in pong) ∷ [])
unfolding update_slowest_pongs_list
update-records id_seq rtt history a =
    let pong : ReceivedPong = record { id_seq = id_seq; rtt = rtt } in
    rw (pop_outdated-records id_seq history a)
      (pop_faster-records pong (pop_outdated id_seq history))

all_faster-slowest :
    (rtt : ℕ) (ps : List ReceivedPong)
    → ((all_faster rtt ps ≡ true) × ((slowest ps < rtt) ⊎ (ps ≡ [])))
      ⊎ ((all_faster rtt ps ≡ false) × (rtt ≤ slowest ps))
unfolding all_faster slowest
all_faster-slowest rtt [] = inl (refl, inr refl)
all_faster-slowest rtt (p ∷ ps) = grind (arith, all_faster-slowest rtt ps)

front_of_cases :
    (p : ReceivedPong) (ps : List ReceivedPong)
    → ps ≢ []
    → doubled_front (records ps) ≡ some (slowest ps * 2)
    → doubled_front (records (p ∷ ps)) ≡ some (max p.rtt (slowest ps) * 2)
unfolding records
front_of_cases p ps ne ih = ground (arith, all_faster-slowest p.rtt ps)

doubled_front-records :
    (p : ReceivedPong) (ps : List ReceivedPong)
    → doubled_front (records (p ∷ ps)) ≡ some (slowest (p ∷ ps) * 2)
unfolding slowest all_faster records
doubled_front-records p [] = ground arith
doubled_front-records p (q ∷ qs) = front_of_cases p (q ∷ qs) (λ e. cc) (doubled_front-records q qs)

-- How long a probe may be under way before it counts as lost: twice the slowest round trip of the
-- history, between 1 and 30 seconds.
pub probe_lost_period-slowest :
    (c : LivenessChecker) (history : List ReceivedPong)
    → c.slowest_pongs ≡ records history
    → probe_lost_period c ≡ clamp (slowest history * 2) min_probe_lost_period max_probe_lost_period
unfolding probe_lost_period
probe_lost_period-slowest c [] e = rw e (unfold records slowest in refl)
probe_lost_period-slowest c (p ∷ ps) e = rw (e, doubled_front-records p ps)
