-- ===== src/LinuxOs/Netfilter/Socket.antt =====
-- `NftTable` of rustlib/src/bin/obscura/service/os/linux/netfilter.rs: the batch that replaces the rules,
-- and the wait for its acknowledgements. What is received is an argument, one datagram after the
-- other, each within the buffer of 64 KiB. A failure to receive is left out, and so is that the
-- number waited for is forgotten on success; a batch starts from none.
use obscuravpn_client.Prelude.{
  ℤ, pos, negsuc, ℕ, zero, suc, ◌+◌, ◌-◌, ◌*◌, ◌%◌, not, ◌||◌, Option, none, some, List, [], ◌∷◌,
  ◌++◌, length, ltb, ◌==◌, if◌then◌else◌, drop as skip,
}
use obscuravpn_client.NetworkConfig.{Result, ok, err}
use obscuravpn_client.LocalNetwork.{IpNetworks}
use obscuravpn_client.LinuxOs.{TrafficPolicy}
use obscuravpn_client.LinuxOs.Netfilter.Bytes.{as_bytes}
use obscuravpn_client.LinuxOs.Netfilter.{Expr, ChainKind, filter, route, Chain, Table}
use obscuravpn_client.LinuxOs.Netfilter.Chains.{tables}
use obscuravpn_client.LinuxOs.Netfilter.Messages.{
  new_msg, attr_u32_be, attr_str, nested, and_then, emit_all, finish,
}

pub record NftTable : Type 0 where
  pub last_unchecked_seq : Option ℕ

unfoldable pub bumped : Option ℕ → ℕ × NftTable
bumped (some seq) = (seq + 1, record { last_unchecked_seq = some (seq + 1) })
bumped none = (1, record { last_unchecked_seq = some 1 })

-- `next_seq`: the number, and the table that remembers it.
unfoldable pub next_seq : NftTable → ℕ × NftTable
next_seq t = bumped t.last_unchecked_seq

-- A batch under way; `none` is a panic.
pub record Batch : Type 0 where
  pub socket : NftTable
  pub bytes : Option (List ℕ)

-- The message of `change_msg` with its attributes is finished and appended to the batch.
unfoldable pub push_msg : Option (List ℕ) → Option (List ℕ) → Option (List ℕ)
push_msg none msg = none
push_msg (some batch) none = none
push_msg (some batch) (some msg) = some (batch ++ msg)

-- NLM_F_REQUEST and NLM_F_ACK are set.
unfoldable pub change : ℕ → ℕ → ℕ → (List ℕ → Option (List ℕ)) → Batch → Batch
change family msg_type extra_flags content b =
    let (seq, socket) = next_seq b.socket in
    record {
      socket = socket;
      bytes = push_msg b.bytes (
          and_then (content (new_msg msg_type (5 + extra_flags) seq family 0)) (λ msg. finish msg));
    }

abbrev table_name : List ℕ
table_name = as_bytes "obscura"

-- `cast_unsigned`.
unfoldable pub cast_unsigned : ℤ → ℕ
cast_unsigned (pos n) = n
cast_unsigned (negsuc n) = 0xffffffff - n

-- The kinds in snake case.
unfoldable pub kind_name : ChainKind → List ℕ
kind_name filter = as_bytes "filter"
kind_name route = as_bytes "route"

-- NFT_MSG_NEWRULE; NLM_F_CREATE and NLM_F_APPEND are set.
unfoldable pub push_rules : ℕ → List ℕ → List (List Expr) → Batch → Batch
push_rules family chain [] b = b
push_rules family chain (exprs ∷ rest) b = push_rules family chain rest (
    change family 0xa06 0xc00
      (λ rule.
        and_then (attr_str 1 table_name rule) (λ r1.
          and_then (attr_str 2 chain r1) (λ r2. nested 4 (λ inner. emit_all exprs inner) r2)))
      b)

unfoldable pub chain_attrs : Chain → List ℕ → Option (List ℕ)
chain_attrs c chain = and_then (attr_str 1 table_name chain) (λ c1.
    and_then (attr_str 3 c.name c1) (λ c2. and_then (attr_str 7 (kind_name c.kind) c2) (λ c3.
      and_then
        (nested 4
          (λ hook.
            and_then (attr_u32_be 1 c.hook hook) (λ h. attr_u32_be 2 (cast_unsigned c.priority) h))
          c3)
        (λ c4. attr_u32_be 5 c.policy c4))))

-- NFT_MSG_NEWCHAIN, and the chain's rules.
unfoldable pub push_chains : ℕ → List Chain → Batch → Batch
push_chains family [] b = b
push_chains family (c ∷ rest) b =
    push_chains family rest (
      push_rules family c.name c.rules (change family 0xa03 0x400 (λ chain. chain_attrs c chain) b))

-- NFT_MSG_NEWTABLE with the owner flag, and the table's chains.
unfoldable pub push_tables : List Table → Batch → Batch
push_tables [] b = b
push_tables (t ∷ rest) b = push_tables rest (
    push_chains t.family t.chains (
      change t.family 0xa00 0x400
        (λ table. and_then (attr_str 1 table_name table) (λ t1. attr_u32_be 2 2 t1)) b))

-- NFT_MSG_DESTROYTABLE.
unfoldable pub destroy_table : ℕ → Batch → Batch
destroy_table family b = change family 0xa1a 0 (λ destroy. attr_str 1 table_name destroy) b

-- The batch of `apply_ruleset`, from the stale replies discarded to the end message.
unfoldable pub ruleset_batch : IpNetworks → IpNetworks → TrafficPolicy → List ℕ → Batch
ruleset_batch crate4 crate6 policy tun_name =
    let (seq, socket) = bumped none in
    let begun : Batch = record { socket = socket; bytes = finish (new_msg 16 1 seq 0 10) } in
    let changed =
      push_tables (tables crate4 crate6 policy tun_name)
        (destroy_table 3 (destroy_table 1 begun)) in
    record {
      socket = changed.socket;
      bytes = push_msg changed.bytes (finish (new_msg 17 1 0 0 10));
    }

unfoldable pub byte_at : ℕ → List ℕ → ℕ
byte_at offset [] = 0
byte_at zero (b ∷ bytes) = b
byte_at (suc offset) (b ∷ bytes) = byte_at offset bytes

-- `from_ne_bytes` of the bytes at a place.
unfoldable pub number_at : ℕ → ℕ → List ℕ → ℕ
number_at zero offset bytes = 0
number_at (suc k) offset bytes = byte_at offset bytes + 256 * number_at k (offset + 1) bytes

unfoldable pub next_multiple_of_4 : ℕ → ℕ
next_multiple_of_4 n = if n % 4 == 0 then n else n + (4 - n % 4)

-- What a datagram says: refused, acknowledged, or nothing yet.
pub data Reply : Type 0 where
  refused acknowledged more : Reply

-- The messages of a datagram from an offset on. The first argument bounds their number.
unfoldable pub read_replies : ℕ → ℕ → List ℕ → Reply
read_replies zero last bytes = more
read_replies (suc fuel) last bytes =
    let len = number_at 4 0 bytes in
    let rest = read_replies fuel last (skip (next_multiple_of_4 len) bytes) in
    if ltb (length bytes) 16
    then more
    else if ltb len 16 || ltb (length bytes) len
    then refused
    else if number_at 2 4 bytes == 2
    then if ltb len 20
      then refused
      else if not (number_at 4 16 bytes == 0)
      then refused
      else if number_at 4 8 bytes == last
      then acknowledged
      else rest
    else rest

unfoldable pub after_replies : Reply → Option (Result Unit Unit) → Option (Result Unit Unit)
after_replies refused later = some (err tt)
after_replies acknowledged later = some (ok tt)
after_replies more later = later

-- `check_acks`; `none` waits for another datagram.
unfoldable pub await_acks : ℕ → List (List ℕ) → Option (Result Unit Unit)
await_acks last [] = none
await_acks last (datagram ∷ rest) =
    let later = await_acks last rest in
    after_replies (read_replies (length datagram) last datagram) later

unfoldable pub acks_for : Option ℕ → List (List ℕ) → Option (Result Unit Unit)
acks_for none datagrams = some (err tt)
acks_for (some last) datagrams = await_acks last datagrams

unfoldable pub check_acks : NftTable → List (List ℕ) → Option (Result Unit Unit)
check_acks t datagrams = acks_for t.last_unchecked_seq datagrams
