-- ===== src/Manager/Registration.antt =====
-- `wireguard_key_registraction_task` of rustlib/src/manager.rs: when the cached WireGuard key is registered
-- in the background. The statuses that the task sees are a list, and so are the answers to its
-- attempts, with the random numbers of the waits before them.
use obscuravpn_client.Prelude.{
  ℕ, suc, ◌≤◌, ◌≡◌, inl, inr, refl, ap, Bool, true, false, not, ◌&&◌, Option, none, some, List, [],
  ◌∷◌, map, length, All, Among, Bool-cases, ◌==◌, arith,
}
use obscuravpn_client.Config.{AccountStatus}
use obscuravpn_client.Backoff.{BackoffIter, background, next_wait, take, waits, collected}
use obscuravpn_client.Backoff.Waits.{waits-take}
use obscuravpn_client.Manager.{Status, VpnStatus, vpn_connecting, vpn_connected, vpn_disconnected}

-- `Some(status.version) != last_status_version`.
unfoldable pub is_changed : Option ℕ → ℕ → Bool
is_changed none version = true
is_changed (some last) version = not (last == version)

unfoldable pub has_active : (AccountStatus → Bool) → Option AccountStatus → Bool
has_active active none = false
has_active active (some account) = active account

unfoldable pub no_tunnel : VpnStatus → Bool
no_tunnel (vpn_connecting args error reconnecting) = false
no_tunnel (vpn_connected args exit relay a b c) = false
no_tunnel vpn_disconnected = true

-- What the task waits for.
unfoldable pub should_register : (AccountStatus → Bool) → Option ℕ → Status → Bool
should_register active last s =
    is_changed last s.version && (has_active active s.account && no_tunnel s.vpn_status)

-- An attempt: the random number of the wait before it, and whether it succeeds.
pub record Answer : Type 0 where
  pub draw : ℕ
  pub registered : Bool

-- The waits that were made, each before an attempt, and the attempts' results.
abbrev pub attempted : Option ℕ → Bool → List (ℕ × Bool) → List (ℕ × Bool)
attempted none registered rest = []
attempted (some wait) registered rest = (wait, registered) ∷ rest

-- The `while` loop: it goes on after an error, and after a success.
unfoldable pub register_attempts : List Answer → BackoffIter → List (ℕ × Bool)
register_attempts [] i = []
register_attempts (a ∷ answers) i =
    attempted (next_wait a.draw i).1 a.registered (register_attempts answers (next_wait a.draw i).0)

-- The task: the versions for which it acts, with its attempts for each.
unfoldable pub registration_task :
    (AccountStatus → Bool)
    → Option ℕ
    → List Status
    → List (List Answer)
    → List (ℕ × List (ℕ × Bool))
registration_task active last [] answers = []
registration_task active last (s ∷ statuses) [] = []
registration_task active last (s ∷ statuses) (round ∷ answers) =
    elim (should_register active last s) [
      | true ↦
          (s.version, register_attempts round (take background 10))
          ∷ registration_task active (some s.version) statuses answers
      | false ↦ registration_task active last statuses (round ∷ answers)
    ]

map-attempted :
    (o : Option ℕ) (b : Bool) (rest : List (ℕ × Bool)) (ws : List ℕ)
    → map (λ x. x.0) rest ≡ ws
    → map (λ x. x.0) (attempted o b rest) ≡ collected o ws
map-attempted none b rest ws e = refl
map-attempted (some w) b rest ws e = ap (λ xs. w ∷ xs) e

register_attempts-waits :
    (answers : List Answer) (i : BackoffIter)
    → map (λ x. x.0) (register_attempts answers i) ≡ waits (map (λ a. a.draw) answers) i
unfolding register_attempts waits
register_attempts-waits [] i = refl
register_attempts-waits (a ∷ answers) i =
    map-attempted (next_wait a.draw i).1 a.registered
      (register_attempts answers (next_wait a.draw i).0)
      (waits (map (λ b. b.draw) answers) (next_wait a.draw i).0)
      (register_attempts-waits answers (next_wait a.draw i).0)

length-map : {A B : Type 0} (f : A → B) (xs : List A) → length (map f xs) ≡ length xs
length-map f [] = refl
length-map f (x ∷ xs) = ap suc (length-map f xs)

-- With an answer for each of its ten attempts, the task makes all of them, each after the wait of the
-- backoff, whatever the answers are: a success, be it the first, ends neither the attempts nor the
-- waits.
pub register_attempts-all :
    (answers : List Answer)
    → 10 ≤ length answers
    → let made = register_attempts answers (take background 10) in
      (length made ≡ 10)
      × (map (λ x. x.0) made ≡ waits (map (λ a. a.draw) answers) (take background 10))
register_attempts-all answers h =
    let made = register_attempts answers (take background 10) in
    let same = register_attempts-waits answers (take background 10) in
    let draws = map (λ (a : Answer). a.draw) answers in
    let ten =
      waits-take background 10 draws
        (omega (arith, h, length-map (λ (a : Answer). a.draw) answers)) in
    (omega (arith, ten.0, ap (λ xs. length xs) same, length-map (λ (x : ℕ × Bool). x.0) made), same)

should_register-true :
    (active : AccountStatus → Bool) (last : Option ℕ) (s : Status)
    → should_register active last s ≡ true
    → (has_active active s.account ≡ true) × (no_tunnel s.vpn_status ≡ true)
unfolding should_register
should_register-true active last s h =
    both (is_changed last s.version) (has_active active s.account) (no_tunnel s.vpn_status) h
  where
    both : (a b c : Bool) → (a && (b && c)) ≡ true → (b ≡ true) × (c ≡ true)
    both true true c h = (refl, h)
    both true false c h = absurd (ground arith)
    both false b c h = absurd (ground arith)

-- A status that was seen, of this version, with an active account and no tunnel.
abbrev pub Eligible : (AccountStatus → Bool) → List Status → ℕ → Type 0
Eligible active statuses version =
    (s : Status) × Among s statuses
    × (s.version ≡ version)
    × (has_active active s.account ≡ true)
    × (no_tunnel s.vpn_status ≡ true)

Eligible-later :
    (active : AccountStatus → Bool) (s : Status) (statuses : List Status)
    (acts : List (ℕ × List (ℕ × Bool)))
    → All (λ act. Eligible active statuses act.0) acts
    → All (λ act. Eligible active (s ∷ statuses) act.0) acts
Eligible-later active s statuses [] h = tt
Eligible-later active s statuses (act ∷ acts) ((t, among, same, yes_active, is_down), others) =
    ((t, inr among, same, yes_active, is_down), Eligible-later active s statuses acts others)

-- The task acts only for a status that it saw, with an active account and no tunnel.
pub registration_task-Eligible :
    (active : AccountStatus → Bool) (last : Option ℕ) (statuses : List Status)
    (answers : List (List Answer))
    → All (λ act. Eligible active statuses act.0) (registration_task active last statuses answers)
unfolding registration_task
registration_task-Eligible active last [] answers = tt
registration_task-Eligible active last (s ∷ statuses) [] = tt
registration_task-Eligible active last (s ∷ statuses) (round ∷ answers) =
    elim (Bool-cases (should_register active last s)) [
      | inl e ↦
          let (yes_active, is_down) = should_register-true active last s e in
          let rest = registration_task active (some s.version) statuses answers in
          rw (e, registration_task)
            (
              (s, inl refl, refl, yes_active, is_down),
              Eligible-later active s statuses rest
                  (registration_task-Eligible active (some s.version) statuses answers),
            )
      | inr e ↦
          let rest = registration_task active last statuses (round ∷ answers) in
          rw (e, registration_task)
            (Eligible-later active s statuses rest
              (registration_task-Eligible active last statuses (round ∷ answers)))
    ]
