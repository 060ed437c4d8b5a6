-- ===== src/Tunnel/Stats.antt =====
-- rustlib/src/tunnel_state.rs: the traffic statistics across changes of the tunnel's state.
use obscuravpn_client.Prelude.{
  ℕ, ◌≤◌, ◌≡◌, refl, Option, ◌==◌, arith, Bool-cases, inl, inr, ◌⊎◌, min, ◌+◌, ◌-◌, ◌/◌,
}
use obscuravpn_client.Tunnel.{
  NetworkInterface, TunnelArgs, QuicWgReceiveError, Reading, Connected, ManagerTrafficStats,
  TunnelState, disconnected, connecting, connected, set_connecting, set_connected, traffic_stats,
  connected_offset, saturating_add, elapsed_ms, u64_max,
}

-- The counters are 64-bit numbers.
abbrev pub InRange : ManagerTrafficStats → Type 0
InRange s = (s.connected_ms ≤ u64_max) × (s.tx_bytes ≤ u64_max) × (s.rx_bytes ≤ u64_max)

-- What the new connection carries is added to the total, up to the greatest 64-bit number, and its
-- latency is the one that is told.
pub record Adds (r : Reading) (new : Connected) (before after : ManagerTrafficStats) : Type 0 where
  pub connected_ms :
      after.connected_ms
      ≡ min u64_max
          (before.connected_ms + min u64_max ((r.now - (r.stats new.conn).connected_at) / 1000000))
  pub tx_bytes : after.tx_bytes ≡ min u64_max (before.tx_bytes + (r.stats new.conn).tx_bytes)
  pub rx_bytes : after.rx_bytes ≡ min u64_max (before.rx_bytes + (r.stats new.conn).rx_bytes)
  pub latest_latency_ms : after.latest_latency_ms ≡ (r.stats new.conn).latest_latency_ms

-- The state is connected by that very connection.
abbrev pub SameConn : Connected → TunnelState → Type 0
SameConn new (connected c) = c.tunnel.conn ≡ new.conn
SameConn new _ = ⊥

-- A state that is not disconnected has an identifier, and it is kept.
abbrev pub KeepsId : TunnelState → ManagerTrafficStats → ManagerTrafficStats → Type 0
KeepsId disconnected before after = Unit
KeepsId _ before after = after.conn_id ≡ before.conn_id

saturating_add_le : (a b : ℕ) → saturating_add a b ≤ u64_max
unfolding saturating_add
saturating_add_le a b = omega arith

-- The state's own offset is in range.
abbrev pub OffsetInRange : TunnelState → Type 0
OffsetInRange disconnected = Unit
OffsetInRange (connecting c) = InRange c.offset_traffic_stats
OffsetInRange (connected c) = InRange c.offset_traffic_stats

traffic_stats-InRange :
    (r : Reading) (s : TunnelState) → OffsetInRange s → InRange (traffic_stats r s)
unfolding traffic_stats
traffic_stats-InRange r disconnected h = (omega arith, omega arith, omega arith)
traffic_stats-InRange r (connecting c) h = h
traffic_stats-InRange r (connected c) h =
    (saturating_add_le _ _, saturating_add_le _ _, saturating_add_le _ _)

connected_offset-InRange :
    (r : Reading) (new : Connected) (s : TunnelState)
    → OffsetInRange s
    → InRange (connected_offset r new s)
unfolding connected_offset traffic_stats
connected_offset-InRange r new disconnected h = traffic_stats-InRange r disconnected h
connected_offset-InRange r new (connecting c) h = h
connected_offset-InRange r new (connected c) h = elim (Bool-cases (c.tunnel.conn == new.conn)) [
  | inl same ↦ rw same h
  | inr other ↦ rw other (saturating_add_le _ _, saturating_add_le _ _, saturating_add_le _ _)
]

-- The statistics with that offset.
grown :
    (r : Reading) (new : Connected) (a : TunnelArgs) (i : NetworkInterface)
    (offset : ManagerTrafficStats)
    → let after = traffic_stats r (
        connected (record {
          args = a;
          tunnel = new;
          offset_traffic_stats = offset;
          network_interface = i;
        })) in
      Adds r new offset after × (after.conn_id ≡ offset.conn_id)
unfolding traffic_stats saturating_add elapsed_ms
grown r new a i offset = (
  record { connected_ms = refl; tx_bytes = refl; rx_bytes = refl; latest_latency_ms = refl },
  refl,
)

-- Reaching a connection changes nothing of the statistics that are read at that time if it is the
-- connection that there is already. Otherwise it adds what the new connection carries to them, up to the
-- greatest 64-bit number, and keeps their identifier unless the tunnel was disconnected. The offset
-- stays in the range of such numbers.
pub set_connected-Adds :
    (r : Reading) (a : TunnelArgs) (i : NetworkInterface) (new : Connected) (s : TunnelState)
    → OffsetInRange s
    → let before = traffic_stats r s in
      let after = traffic_stats r (set_connected r a i new s) in
      ((SameConn new s × (after ≡ before))
        ⊎ ((¬ SameConn new s) × Adds r new before after × KeepsId s before after))
      × OffsetInRange (set_connected r a i new s)
unfolding set_connected connected_offset
set_connected-Adds r a i new disconnected h =
    let (adds, id) = grown r new a i (traffic_stats r disconnected) in
    (inr (λ e. e, adds, tt), connected_offset-InRange r new disconnected h)
set_connected-Adds r a i new (connecting c) h =
    let (adds, id) = grown r new a i (traffic_stats r (connecting c)) in
    (inr (λ e. e, adds, id), connected_offset-InRange r new (connecting c) h)
set_connected-Adds r a i new (connected c) h = (
  elim (Bool-cases (c.tunnel.conn == new.conn)) [
    | inl same ↦
        let conn : c.tunnel.conn ≡ new.conn = ground arith in
        rw same (inl (conn, unfold traffic_stats in rw conn refl))
    | inr other ↦
        let (adds, id) = grown r new a i (traffic_stats r (connected c)) in
        rw other (inr (λ e. ground arith, adds, id))
  ],
  connected_offset-InRange r new (connected c) h,
)

-- Beginning to connect, or to connect to other arguments, changes nothing of the statistics that are
-- read at that time; a disconnected tunnel's identifier is the one that is drawn then.
pub set_connecting-same :
    (r : Reading) (a : TunnelArgs) (i : Option NetworkInterface) (d : Option QuicWgReceiveError)
    (s : TunnelState)
    → OffsetInRange s
    → (traffic_stats r (set_connecting r a i d s) ≡ traffic_stats r s)
      × OffsetInRange (set_connecting r a i d s)
unfolding set_connecting
set_connecting-same r a i d disconnected h =
    (unfold traffic_stats in refl, traffic_stats-InRange r disconnected h)
set_connecting-same r a i d (connecting c) h = (unfold traffic_stats in refl, h)
set_connecting-same r a i d (connected c) h =
    (unfold traffic_stats in refl, traffic_stats-InRange r (connected c) h)
