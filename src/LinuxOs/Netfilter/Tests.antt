-- ===== src/LinuxOs/Netfilter/Tests.antt =====
-- The firewall at concrete packets, buffers and replies.
use obscuravpn_client.Prelude.{
  ℕ, ◌+◌, ◌%◌, ◌≡◌, refl, true, false, not, ◌&&◌, ◌||◌, some, List, [], ◌∷◌, ◌++◌, any, map, length,
  All, ◌==◌, if◌then◌else◌, arith,
}
use obscuravpn_client.NetworkConfig.{IpAddr, v4}
use obscuravpn_client.LocalNetwork.{IpNetworks}
use obscuravpn_client.LinuxOs.{disengage}
use obscuravpn_client.LinuxOs.Netfilter.{Expr, meta_load, cmp_eq, accept, nf_accept, nf_drop}
use obscuravpn_client.LinuxOs.Netfilter.Chains.{kill_switch_chain, tables}
use obscuravpn_client.LinuxOs.Netfilter.Nftables.{Packet, chain_verdict}
use obscuravpn_client.LinuxOs.Netfilter.KillSwitch.{
  is_trusted, goes_to, is_wireguard, is_tailscale, is_link, is_dns, is_local,
  kill_switch_chain-verdict,
}
use obscuravpn_client.LinuxOs.Netfilter.Messages.{emit_all}
use obscuravpn_client.LinuxOs.Netfilter.Encoding.{encode_all, emit_all-encode_all}
use obscuravpn_client.LinuxOs.Netfilter.Socket.{check_acks, ruleset_batch}
use obscuravpn_client.LinuxOs.Netfilter.Acks.{
  Ack, IsAck, datagram, all_acks, decided, told, changes, check_acks-ruleset_batch,
}

abbrev crate : IpNetworks
crate = record {
  network = λ n. n.ip;
  mask = λ n. n.ip;
  contains = λ n a. a == n.ip;
  from_address = λ a. record { ip = a; prefix = 32 };
}

abbrev tun : List ℕ
tun = 116 ∷ 117 ∷ 110 ∷ []

-- DNS over UDP to a tunnel resolver, on its way out of eth0, not marked.
abbrev packet : Packet
packet = record {
  meta = λ key.
      if key == 15
      then 2 ∷ []
      else if key == 16
      then 17 ∷ []
      else if key == 7
      then 101 ∷ 0 ∷ []
      else 0 ∷ 0 ∷ 0 ∷ 0 ∷ [];
  ct_mark = [];
  ct_direction = 0 ∷ [];
  ct_state = 8 ∷ 0 ∷ 0 ∷ 0 ∷ [];
  header_bytes = λ base offset len.
      if base == 1 then 10 ∷ 64 ∷ 0 ∷ 1 ∷ [] else if offset == 2 then 0 ∷ 53 ∷ [] else 1 ∷ 2 ∷ [];
}

abbrev resolver : IpAddr
resolver = v4 0x0a400001

kill_switch_chain-verdict_example :
    chain_verdict (kill_switch_chain crate crate true false false (resolver ∷ []) false tun) packet
    ≡ (if is_trusted packet tun
          || (not (any (goes_to packet) (resolver ∷ []))
              && ((false && is_wireguard packet)
                  || ((false && is_tailscale packet)
                      || (is_link packet
                          || (not (not false && is_dns packet)
                              && (true && is_local packet crate crate))))))
        then nf_accept
        else nf_drop)
kill_switch_chain-verdict_example =
    kill_switch_chain-verdict chain_verdict (λ c p. refl) crate crate true false false
      (resolver ∷ []) false tun packet

abbrev exprs : List Expr
exprs = meta_load 3 ∷ cmp_eq (1 ∷ 2 ∷ 3 ∷ []) ∷ accept ∷ []

emit_all-encode_all_example :
    (emit_all exprs (0 ∷ 0 ∷ 0 ∷ 0 ∷ []) ≡ some ((0 ∷ 0 ∷ 0 ∷ 0 ∷ []) ++ encode_all exprs))
    × (length (encode_all exprs) % 4 ≡ 0)
emit_all-encode_all_example =
    emit_all-encode_all exprs (0 ∷ 0 ∷ 0 ∷ 0 ∷ []) (omega arith, (omega arith, (omega arith, tt)))
      refl

-- Success of the fourth and of the ninth change; the batch of a disengaged policy has ten.
abbrev acks : List (List Ack)
acks =
    (record { seq = 4; code = 0; request = 1 ∷ 2 ∷ 3 ∷ 4 ∷ [] }
      ∷ record { seq = 9; code = 0; request = [] }
      ∷ [])
    ∷ []

acks-IsAck : All (All IsAck) acks
unfolding IsAck
acks-IsAck = (
  (
    (omega arith, omega arith, omega arith, refl),
    ((omega arith, omega arith, omega arith, refl), tt),
  ),
  tt,
)

check_acks-ruleset_batch_example :
    check_acks (ruleset_batch crate crate disengage tun).socket (map datagram acks)
    ≡ told (decided (3 + changes (tables crate crate disengage tun)) (all_acks acks))
check_acks-ruleset_batch_example =
    check_acks-ruleset_batch crate crate disengage tun acks acks-IsAck
