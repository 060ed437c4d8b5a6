-- ===== src/LinuxOs/Netfilter/Messages.antt =====
-- rustlib/src/bin/obscura/service/os/linux/netfilter.rs: the netlink messages of a batch. A buffer is a
-- list of bytes, as on a little-endian machine; `none` is a panic.
use Prim.Native.Nat.{bit_or}
use obscuravpn_client.Prelude.{
  ℕ, zero, suc, ◌+◌, ◌-◌, ◌%◌, Option, none, some, List, [], ◌∷◌, ◌++◌, length, leb, if◌then◌else◌,
  ◌==◌, drop as skip, String,
}
use obscuravpn_client.LinuxOs.Netfilter.Bytes.{as_bytes, le_bytes, be_bytes, nul_terminated}
use obscuravpn_client.LinuxOs.Netfilter.{
  Expr, meta_load, meta_set_mark, cmp_eq, ct_load_mark, ct_load_direction, ct_load_state,
  ct_set_mark, accept, drop, payload, bitwise_mask, meta_mark, nf_accept, nf_drop,
}

abbrev pub nla_f_nested : ℕ
nla_f_nested = 0x8000

-- `Msg::new`.
unfoldable pub new_msg : ℕ → ℕ → ℕ → ℕ → ℕ → List ℕ
new_msg msg_type flags seq family res_id =
    le_bytes 4 0
    ++ (le_bytes 2 msg_type
        ++ (le_bytes 2 flags
            ++ (le_bytes 4 seq ++ (le_bytes 4 0 ++ (family ∷ 0 ∷ be_bytes 2 res_id)))))

-- `u16::try_from(n)`.
unfoldable pub try_u16 : ℕ → Option ℕ
try_u16 n = if leb n 0xffff then some n else none

unfoldable pub try_u32 : ℕ → Option ℕ
try_u32 n = if leb n 0xffffffff then some n else none

-- The zeros that `pad` pushes to a buffer of that length.
unfoldable pub pad_zeros : ℕ → List ℕ
pad_zeros len =
    if len % 4 == 0
    then []
    else if len % 4 == 1
    then 0 ∷ 0 ∷ 0 ∷ []
    else if len % 4 == 2
    then 0 ∷ 0 ∷ []
    else 0 ∷ []

unfoldable pub pad : List ℕ → List ℕ
pad buf = buf ++ pad_zeros (length buf)

unfoldable pub push_attr : ℕ → List ℕ → List ℕ → Option ℕ → Option (List ℕ)
push_attr kind payload_bytes buf none = none
push_attr kind payload_bytes buf (some len) =
    some (pad (buf ++ (le_bytes 2 len ++ (le_bytes 2 kind ++ payload_bytes))))

unfoldable pub attr : ℕ → List ℕ → List ℕ → Option (List ℕ)
attr kind payload_bytes buf = push_attr kind payload_bytes buf (try_u16 (4 + length payload_bytes))

unfoldable pub attr_u32_be : ℕ → ℕ → List ℕ → Option (List ℕ)
attr_u32_be kind value = attr kind (be_bytes 4 value)

unfoldable pub attr_str : ℕ → List ℕ → List ℕ → Option (List ℕ)
attr_str kind value = attr kind (nul_terminated value)

unfoldable pub first_bytes : ℕ → List ℕ → List ℕ
first_bytes zero bs = []
first_bytes (suc n) [] = []
first_bytes (suc n) (b ∷ bs) = b ∷ first_bytes n bs

-- `buf[start..start + len].copy_from_slice(value)`.
unfoldable pub patch : ℕ → List ℕ → List ℕ → List ℕ
patch start value buf = first_bytes start buf ++ (value ++ skip (length value) (skip start buf))

unfoldable pub patch_len : ℕ → List ℕ → Option ℕ → Option (List ℕ)
patch_len start buf none = none
patch_len start buf (some len) = some (patch start (le_bytes 2 len) buf)

unfoldable pub close_nested : ℕ → Option (List ℕ) → Option (List ℕ)
close_nested start none = none
close_nested start (some buf) = patch_len start buf (try_u16 (length buf - start))

unfoldable pub nested : ℕ → (List ℕ → Option (List ℕ)) → List ℕ → Option (List ℕ)
nested kind content buf =
    close_nested (length buf)
      (content (buf ++ (le_bytes 2 0 ++ le_bytes 2 (bit_or kind nla_f_nested))))

-- What is pushed after what was pushed.
unfoldable pub and_then : Option (List ℕ) → (List ℕ → Option (List ℕ)) → Option (List ℕ)
and_then none next = none
and_then (some buf) next = next buf

unfoldable pub finish_len : List ℕ → Option ℕ → Option (List ℕ)
finish_len buf none = none
finish_len buf (some len) = some (patch 0 (le_bytes 4 len) buf)

unfoldable pub finish : List ℕ → Option (List ℕ)
finish buf = finish_len buf (try_u32 (length buf))

-- `expr`.
unfoldable pub push_expr : String → (List ℕ → Option (List ℕ)) → List ℕ → Option (List ℕ)
push_expr name content =
    nested 1 (λ elem. and_then (attr_str 1 (as_bytes name) elem) (λ named. nested 2 content named))

-- Two numbers, and a nested value after two numbers.
unfoldable pub push_pair : ℕ → ℕ → ℕ → ℕ → List ℕ → Option (List ℕ)
push_pair k1 v1 k2 v2 body = and_then (attr_u32_be k1 v1 body) (λ buf. attr_u32_be k2 v2 buf)

unfoldable pub push_verdict : ℕ → List ℕ → Option (List ℕ)
push_verdict code body =
    and_then (attr_u32_be 1 0 body)
      (λ buf. nested 2 (λ inner. nested 2 (λ verdict. attr_u32_be 1 code verdict) inner) buf)

unfoldable pub push_cmp : List ℕ → List ℕ → Option (List ℕ)
push_cmp value body =
    and_then (push_pair 1 1 2 0 body) (λ buf. nested 3 (λ inner. attr 1 value inner) buf)

unfoldable pub zeros : ℕ → List ℕ
zeros zero = []
zeros (suc n) = 0 ∷ zeros n

unfoldable pub push_bitwise : List ℕ → List ℕ → Option (List ℕ)
push_bitwise mask body = and_then (push_pair 1 1 2 1 body) (λ a.
    and_then (attr_u32_be 3 (length mask) a) (λ b.
      and_then (nested 4 (λ inner. attr 1 mask inner) b)
        (λ c. nested 5 (λ inner. attr 1 (zeros (length mask)) inner) c)))

unfoldable pub emit : Expr → List ℕ → Option (List ℕ)
emit (meta_load key) = push_expr "meta" (push_pair 2 key 1 1)
emit meta_set_mark = push_expr "meta" (push_pair 2 meta_mark 3 1)
emit (cmp_eq value) = push_expr "cmp" (push_cmp value)
emit ct_load_mark = push_expr "ct" (push_pair 2 3 1 1)
emit ct_load_direction = push_expr "ct" (push_pair 2 1 1 1)
emit ct_load_state = push_expr "ct" (push_pair 2 0 1 1)
emit ct_set_mark = push_expr "ct" (push_pair 2 3 4 1)
emit accept = push_expr "immediate" (push_verdict nf_accept)
emit drop = push_expr "immediate" (push_verdict nf_drop)
emit (payload base offset len) =
    push_expr "payload"
      (λ body. and_then (push_pair 1 1 2 base body) (λ buf. push_pair 3 offset 4 len buf))
emit (bitwise_mask mask) = push_expr "bitwise" (push_bitwise mask)

unfoldable pub emit_all : List Expr → List ℕ → Option (List ℕ)
emit_all [] buf = some buf
emit_all (e ∷ rest) buf = and_then (emit e buf) (λ next. emit_all rest next)
