-- ===== src/LinuxOs/Netfilter/Acks.antt =====
-- The wait for acknowledgements in rustlib/src/bin/obscura/service/os/linux/netfilter.rs.
use obscuravpn_client.Prelude.{
  ℕ, zero, suc, ◌+◌, ◌%◌, ◌≤◌, ◌<◌, ◌≡◌, refl, sym, ap, ◌∙◌, false, not, Option, none, some, List,
  [], ◌∷◌, ◌++◌, length, length-append, ltb, map, All, ◌==◌, drop, if◌then◌else◌, arith, Bool-cases,
  inl, inr,
}
use obscuravpn_client.NetworkConfig.{Result, ok, err}
use obscuravpn_client.LocalNetwork.{IpNetworks}
use obscuravpn_client.LinuxOs.{TrafficPolicy}
use obscuravpn_client.LinuxOs.Netfilter.Bytes.{le_bytes}
use obscuravpn_client.LinuxOs.Netfilter.{Expr, Chain, Table}
use obscuravpn_client.LinuxOs.Netfilter.Chains.{tables}
use obscuravpn_client.LinuxOs.Netfilter.Socket.{
  bumped, next_seq, Batch, change, push_rules, push_chains, push_tables, destroy_table,
  ruleset_batch, byte_at, number_at, next_multiple_of_4, Reply, refused, acknowledged, more,
  read_replies, after_replies, await_acks, acks_for, check_acks,
}

-- An acknowledgement as netlink(7) has it: a message of type NLMSG_ERROR with an error code, zero for
-- success, and some of the request; the code is read as an unsigned number.
pub record Ack : Type 0 where
  pub seq : ℕ
  pub code : ℕ
  pub request : List ℕ

pub ack_bytes : Ack → List ℕ
ack_bytes a =
    le_bytes 4 (20 + length a.request)
    ++ (le_bytes 2 2
        ++ (le_bytes 2 0
            ++ (le_bytes 4 a.seq ++ (le_bytes 4 0 ++ (le_bytes 4 a.code ++ a.request)))))

-- Its numbers fit their fields, and its length is a multiple of four.
unfoldable pub IsAck : Ack → Type 0
IsAck a =
    (a.seq < 4294967296)
    × (a.code < 4294967296)
    × (length a.request < 60000)
    × (length a.request % 4 ≡ 0)

pub datagram : List Ack → List ℕ
datagram [] = []
datagram (a ∷ rest) = ack_bytes a ++ datagram rest

-- The first acknowledgement that decides: an error, or success of the last request.
pub decided : ℕ → List Ack → Reply
decided last [] = more
decided last (a ∷ rest) =
    let later = decided last rest in
    if not (a.code == 0) then refused else if a.seq == last then acknowledged else later

ack_bytes-length : (a : Ack) → length (ack_bytes a) ≡ 20 + length a.request
unfolding ack_bytes le_bytes
ack_bytes-length a = omega arith

ack-len :
    (a : Ack) (rest : List ℕ)
    → length a.request < 60000
    → number_at 4 0 (ack_bytes a ++ rest) ≡ 20 + length a.request
unfolding ack_bytes le_bytes number_at byte_at
ack-len a rest h = omega (arith, h)

ack-type : (a : Ack) (rest : List ℕ) → number_at 2 4 (ack_bytes a ++ rest) ≡ 2
unfolding ack_bytes le_bytes number_at byte_at
ack-type a rest = refl

ack-seq :
    (a : Ack) (rest : List ℕ) → a.seq < 4294967296 → number_at 4 8 (ack_bytes a ++ rest) ≡ a.seq
unfolding ack_bytes le_bytes number_at byte_at
ack-seq a rest h = omega (arith, h)

ack-code :
    (a : Ack) (rest : List ℕ) → a.code < 4294967296 → number_at 4 16 (ack_bytes a ++ rest) ≡ a.code
unfolding ack_bytes le_bytes number_at byte_at
ack-code a rest h = omega (arith, h)

next_multiple : (n : ℕ) → n % 4 ≡ 0 → next_multiple_of_4 n ≡ n
unfolding next_multiple_of_4
next_multiple n h = rw h refl

drop-all : (n : ℕ) (xs ys : List ℕ) → n ≡ length xs → drop n (xs ++ ys) ≡ ys
drop-all n [] ys h = rw h refl
drop-all zero (x ∷ xs) ys h = absurd (omega (arith, h))
drop-all (suc n) (x ∷ xs) ys h = drop-all n xs ys (omega (arith, h))

-- The tests of the sizes.
long_enough : (n m : ℕ) → m ≤ n → ltb n m ≡ false
long_enough n m h = ground arith

read_replies-decided :
    (fuel last : ℕ) (acks : List Ack)
    → All IsAck acks
    → length (datagram acks) ≤ fuel
    → read_replies fuel last (datagram acks) ≡ decided last acks
unfolding read_replies datagram decided IsAck
read_replies-decided zero last [] good le = refl
read_replies-decided zero last (a ∷ acks) good le =
    absurd (omega (arith, le, length-append (ack_bytes a) (datagram acks), ack_bytes-length a))
read_replies-decided (suc fuel) last [] good le = refl
read_replies-decided (suc fuel) last (a ∷ acks) ((seq_fits, code_fits, short, aligned), good) le =
    let rest = datagram acks in
    let len = length-append (ack_bytes a) rest in
    let own = ack_bytes-length a in
    let skipped = drop-all (20 + length a.request) (ack_bytes a) rest (sym own) in
    let ih = read_replies-decided fuel last acks good (omega (arith, le, len, own)) in
    rw
      (
        ack-len a rest short,
        ack-type a rest,
        ack-seq a rest seq_fits,
        ack-code a rest code_fits,
        next_multiple (20 + length a.request) (omega (arith, aligned)),
        skipped,
        ih,
        long_enough (length (ack_bytes a ++ rest)) 16 (omega (arith, len, own)),
        long_enough (length (ack_bytes a ++ rest)) (20 + length a.request)
            (omega (arith, len, own)),
        long_enough (20 + length a.request) 16 (omega arith),
        long_enough (20 + length a.request) 20 (omega arith),
      )
      refl

abbrev pub all_acks : List (List Ack) → List Ack
all_acks [] = []
all_acks (acks ∷ rest) = acks ++ all_acks rest

-- What the caller of the wait is told.
pub told : Reply → Option (Result Unit Unit)
told refused = some (err tt)
told acknowledged = some (ok tt)
told more = none

decided-append :
    (last : ℕ) (xs ys : List Ack)
    → told (decided last (xs ++ ys)) ≡ after_replies (decided last xs) (told (decided last ys))
unfolding decided told after_replies
decided-append last [] ys = refl
decided-append last (a ∷ xs) ys = elim (Bool-cases (not (a.code == 0))) [
  | inl e ↦ rw e refl
  | inr e ↦ elim (Bool-cases (a.seq == last)) [
    | inl f ↦ rw (e, f) refl
    | inr f ↦ rw (e, f) (decided-append last xs ys)
  ]
]

await_acks-decided :
    (last : ℕ) (datagrams : List (List Ack))
    → All (All IsAck) datagrams
    → await_acks last (map datagram datagrams) ≡ told (decided last (all_acks datagrams))
unfolding await_acks decided told
await_acks-decided last [] good = refl
await_acks-decided last (acks ∷ rest) (good, goods) =
    ap (λ r. after_replies r (await_acks last (map datagram rest)))
      (read_replies-decided (length (datagram acks)) last acks good (omega arith))
    ∙ ap (after_replies (decided last acks)) (await_acks-decided last rest goods)
    ∙ sym (decided-append last acks (all_acks rest))

-- The change messages of the tables.
pub changes_of : List Chain → ℕ
changes_of [] = 0
changes_of (c ∷ rest) = 1 + length c.rules + changes_of rest

pub changes : List Table → ℕ
changes [] = 0
changes (t ∷ rest) = 1 + changes_of t.chains + changes rest

-- A batch whose last sequence number is n.
Counts : Batch → ℕ → Type 0
Counts b n = b.socket.last_unchecked_seq ≡ some n

same_count : (b : Batch) (n m : ℕ) → n ≡ m → Counts b n → Counts b m
unfolding Counts
same_count b n m e h = h ∙ ap {A = ℕ} some e

bumped-some : (n : ℕ) → (bumped (some n)).1.last_unchecked_seq ≡ some (n + 1)
unfolding bumped
bumped-some n = refl

change-Counts :
    (family msg_type flags : ℕ) (content : List ℕ → Option (List ℕ)) (b : Batch) (n : ℕ)
    → Counts b n
    → Counts (change family msg_type flags content b) (n + 1)
unfolding Counts change next_seq
change-Counts family msg_type flags content b n h =
    ap (λ o. (bumped o).1.last_unchecked_seq) h ∙ bumped-some n

push_rules-Counts :
    (family : ℕ) (chain : List ℕ) (rules : List (List Expr)) (b : Batch) (n : ℕ)
    → Counts b n
    → Counts (push_rules family chain rules b) (n + length rules)
unfolding push_rules
push_rules-Counts family chain [] b n h = same_count b n (n + 0) (omega arith) h
push_rules-Counts family chain (r ∷ rest) b n h =
    same_count _ (n + 1 + length rest) (n + suc (length rest)) (omega arith)
      (push_rules-Counts family chain rest _ (n + 1) (change-Counts family _ _ _ b n h))

push_chains-Counts :
    (family : ℕ) (chains : List Chain) (b : Batch) (n : ℕ)
    → Counts b n
    → Counts (push_chains family chains b) (n + changes_of chains)
unfolding push_chains changes_of
push_chains-Counts family [] b n h = same_count b n (n + 0) (omega arith) h
push_chains-Counts family (c ∷ rest) b n h =
    same_count _ (n + 1 + length c.rules + changes_of rest)
      (n + (1 + length c.rules + changes_of rest)) (omega arith)
      (push_chains-Counts family rest _ (n + 1 + length c.rules)
        (push_rules-Counts family c.name c.rules _ (n + 1) (change-Counts family _ _ _ b n h)))

push_tables-Counts :
    (ts : List Table) (b : Batch) (n : ℕ) → Counts b n → Counts (push_tables ts b) (n + changes ts)
unfolding push_tables changes
push_tables-Counts [] b n h = same_count b n (n + 0) (omega arith) h
push_tables-Counts (t ∷ rest) b n h =
    same_count _ (n + 1 + changes_of t.chains + changes rest)
      (n + (1 + changes_of t.chains + changes rest)) (omega arith)
      (push_tables-Counts rest _ (n + 1 + changes_of t.chains)
        (push_chains-Counts t.family t.chains _ (n + 1) (change-Counts t.family _ _ _ b n h)))

ruleset_batch-Counts :
    (crate4 crate6 : IpNetworks) (policy : TrafficPolicy) (tun : List ℕ)
    → Counts
        (ruleset_batch crate4 crate6 policy tun)
        (3 + changes (tables crate4 crate6 policy tun))
unfolding ruleset_batch destroy_table Counts bumped
ruleset_batch-Counts crate4 crate6 policy tun =
    push_tables-Counts (tables crate4 crate6 policy tun) _ 3
      (change-Counts 3 _ _ _ _ 2 (change-Counts 1 _ _ _ _ 1 refl))

-- After the batch is sent, the acknowledgements are waited for as netlink promises them: whatever
-- datagrams they come in, the first error code means failure, and the success of the last change,
-- whose number is that of all messages but the end, means success; until then the wait goes on.
pub check_acks-ruleset_batch :
    (crate4 crate6 : IpNetworks) (policy : TrafficPolicy) (tun : List ℕ)
    (datagrams : List (List Ack))
    → All (All IsAck) datagrams
    → check_acks (ruleset_batch crate4 crate6 policy tun).socket (map datagram datagrams)
      ≡ told (decided (3 + changes (tables crate4 crate6 policy tun)) (all_acks datagrams))
unfolding check_acks acks_for Counts
check_acks-ruleset_batch crate4 crate6 policy tun datagrams good =
    ap (λ o. acks_for o (map datagram datagrams)) (ruleset_batch-Counts crate4 crate6 policy tun)
    ∙ await_acks-decided (3 + changes (tables crate4 crate6 policy tun)) datagrams good
