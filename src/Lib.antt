-- ===== src/Lib.antt =====
-- The Obscura VPN client: a model of the parts of rustlib that decide what the client does, and
-- proofs about them. Paths are from the repository's root.
--
-- How the parts interact: rustlib/src/manager.rs makes one ClientState and one tunnel loop.
-- Commands change the client's configuration through the setters of client_state.rs; each setter
-- runs under one lock, saves the configuration through ConfigHandle, and wakes the tunnel loop,
-- which reads the target state and drives the tunnel towards it: it captures traffic with the
-- OS, asks the client to connect, which races the relays, selects an exit and uses the WireGuard
-- key of the key cache, and forwards packets until the target changes or the liveness checks
-- find the tunnel dead.
--
-- Which file models which part:
--   Tunnel, Tunnel/Maintain: rustlib/src/tunnel_state.rs. TunnelState and its changes; `iterate`
--     is one pass of TunnelState::maintain and `run` the loop. What the OS, the client and the
--     clock answer in a pass is a `Round`, and what the pass does outside of its state is a list
--     of `Effect`s in order. Tunnel/Maintain/Target, Os and Reason hold the theorems on the
--     loop, Tunnel/Stats those on the traffic statistics.
--   ExitSelection: rustlib/src/exit_selection.rs, with theorems in Choice and Caps. Hash maps
--     are association lists; the random numbers of the ranks are a function of the position in
--     the list.
--   NetworkConfig: rustlib/src/network_config.rs, with theorems in Dns.
--   Liveness: rustlib/src/liveness.rs. Poll, Loss, Window and Probe hold the theorems on
--     polling, on the count of lost probes, on the list of slow pongs and on probes and their
--     answers. A call that would panic gives none.
--   KeyCache: WireGuardKeyCache of rustlib/src/config/persistence.rs and the stores of
--     rustlib/src/wg_key_store/mod.rs. Rotation and Secrets follow it through a life of
--     operations and restarts.
--   Config, Config/File, Config/Handle: the rest of rustlib/src/config: the configuration,
--     loading and saving its file, and ConfigHandle::change.
--   Client, Client/Requests, Client/Connect: rustlib/src/client_state.rs: the setters, the
--     cached API client, requests, the updates of the cached lists, the registration of keys,
--     and connection attempts (`connect`, `new_tunnel`). Client/Life lists the operations that
--     run to their end; Client/Cache, Client/Lists, Client/Logout and Client/Connect/Selectors
--     hold the theorems.
--   Errors: the errors of a connection attempt in rustlib/src/errors.rs, and their codes.
--   Manager: rustlib/src/manager.rs: the published status and its updates, and `login`, with
--     theorems in Publish; Registration has the task that registers keys.
--   RelayRace: the loop of ClientStateHandle::select_relay, with theorems in Choice and
--     Accounts. Racing: rustlib/src/relay_selection.rs.
--   LocalNetwork: rustlib/src/local_network.rs. Bits, Cover and Subtract lead to TunnelRoutes:
--     which addresses go into the tunnel.
--   LinuxOs: rustlib/src/bin/obscura/service/os/linux/mod.rs and dns/mod.rs beside it: the steps
--     that set or give up a network configuration. Leaks has the theorems.
--   LinuxOs/Routes: routes/traffic_capture_routes.rs in that folder. Enforcer has the check, the
--     application and the loop, over a kernel that Kernel describes; Recognised, Foreign,
--     Converge, Engaged, Disengaged, DeleteLoop and Settles hold the theorems.
--   LinuxOs/Netfilter: netfilter.rs in that folder: the expressions and rules; Chains has the
--     chains, Messages the netlink encoding, Socket the batch and the wait for its
--     acknowledgements. Nftables says how the kernel reads rules; KillSwitch, Attributes,
--     Encoding and Acks hold the theorems.
--   Relay: rustlib/src/quicwg.rs. Messages has the relay protocol's messages on a byte stream,
--     Handshake the steps before WireGuard, Outbox what is queued and written over TLS and what
--     is received there, Conn and Receive the packets and the traffic statistics, Connecting the
--     loops that wait, Connect the steps of `connect` with a theorem on them. Skipping, Framing,
--     Progress, Responses, Rtt, InOrder, Drains, Written, Acknowledged, Sending, Idle, Traffic,
--     GivingUp and Rounds hold the theorems.
--   Backoff: rustlib/src/backoff.rs, with theorems in Waits.
--   WgControl: rustlib/src/wg_control_message_header.rs, with theorems in Parse.
--   IntHelper: rustlib/src/int_helper.rs and rustlib/src/positive_u31.rs, with theorems in
--     Exact.
--   Prelude: the names that all modules share.
--
-- Conventions. The code is modelled as compiled for Linux. Times are nanoseconds and never wrap;
-- counters that the code keeps in machine integers keep their bounds (u64 in the traffic
-- statistics, u8 in the exit selection, u32 and u16 in the probes). Most loops are structural
-- recursion on a list that is given or on the draws of random numbers. These take fuel: the loop
-- of `subtract` (LocalNetwork) gets `all_rounds`, which Subtract shows to be enough; the loop
-- that deletes resolver rules gets one round more than there are rules, and DeleteLoop shows
-- that more make no difference; the loop of the route enforcer is shown to come to rest in
-- Settles; reading the replies of a datagram gets its length, and every message takes at least
-- one byte of it; reading messages of a relay gets one round more than there are bytes, which
-- Progress and Responses show to be enough; the loops that ask boringtun until it is done are
-- shown in Rounds to end if boringtun empties its queue. An await during which another task may
-- run is split into two functions where a property depends on it.
--
-- Parameters, as arguments: the codes and headers of the relay protocol (RelayProtocol),
-- boringtun and the fragments of WireGuard messages (Crates), the crate ipnetwork (IpNetworks),
-- the kernel behind rtnetlink (Netlink) and its reading of firewall rules, x25519, the TPM and
-- the keychain (Crypto, SealingKey, WgKeyStore), the ICMP packet format and random bytes
-- (ProbeEnv), the API server and its client (Ran, Update), the answers of the file system
-- (SaveAnswers), what a connection attempt meets (Attempt), and the derived comparison of
-- configurations but for the account status (rest_eq).
--
-- Not modelled: the set-up of QUIC and TLS connections in rustlib/src/quicwg.rs, the manager's
-- commands, the bindings of the platforms and the services of other systems than Linux, the user
-- interfaces, debug bundles and logging; log lines are left out everywhere. The text of the
-- config file is not modelled: a file holds a configuration as it was serialised, or does not
-- parse. The life of the client in Client/Life leaves out connection attempts.

pub mod Prelude
pub mod Tunnel
pub mod ExitSelection
pub mod NetworkConfig
pub mod Liveness
pub mod KeyCache
pub mod Config
pub mod Errors
pub mod Client
pub mod Manager
pub mod RelayRace
pub mod LocalNetwork
pub mod LinuxOs
pub mod Backoff
pub mod WgControl
pub mod IntHelper
pub mod Relay
