-- ===== src/LinuxOs/Netfilter/Encoding.antt =====
-- The buffers of rustlib/src/bin/obscura/service/os/linux/netfilter.rs hold the attributes as netlink
-- encodes them.
use obscuravpn_client.Prelude.{
  ℕ, zero, suc, ◌+◌, ◌*◌, ◌%◌, ◌≤◌, ◌≡◌, refl, sym, ap, ◌∙◌, Option, some, List, [], ◌∷◌, ◌++◌,
  length, length-append, ◌==◌, String, All, arith, Bool-cases, inl, inr,
}
use obscuravpn_client.LinuxOs.Netfilter.Bytes.{
  le_bytes, be_bytes, be_bytes_before, nul_terminated, as_bytes,
}
use obscuravpn_client.LinuxOs.Netfilter.{
  Expr, meta_load, meta_set_mark, cmp_eq, ct_load_mark, ct_load_direction, ct_load_state,
  ct_set_mark, accept, payload, bitwise_mask, meta_mark, nf_accept, nf_drop,
}
use obscuravpn_client.LinuxOs.Netfilter.Messages.{
  pad_zeros, attr, attr_u32_be, attr_str, nested, and_then, push_expr, push_pair, push_verdict,
  push_cmp, zeros, push_bitwise, emit, emit_all,
}
use obscuravpn_client.LinuxOs.Netfilter.Attributes.{
  leaf, nest, Appends, joined_aligned, attr-Appends, nested-Appends, and_then-Appends, append_nil,
  append_assoc,
}

-- The reference encoding of an expression.
pub expr_bytes : String → List ℕ → List ℕ
expr_bytes name body = nest 1 (leaf 1 (nul_terminated (as_bytes name)) ++ nest 2 body)

pub number : ℕ → ℕ → List ℕ
number kind value = leaf kind (be_bytes 4 value)

pub encode : Expr → List ℕ
encode (meta_load key) = expr_bytes "meta" (number 2 key ++ number 1 1)
encode meta_set_mark = expr_bytes "meta" (number 2 meta_mark ++ number 3 1)
encode (cmp_eq value) = expr_bytes "cmp" ((number 1 1 ++ number 2 0) ++ nest 3 (leaf 1 value))
encode ct_load_mark = expr_bytes "ct" (number 2 3 ++ number 1 1)
encode ct_load_direction = expr_bytes "ct" (number 2 1 ++ number 1 1)
encode ct_load_state = expr_bytes "ct" (number 2 0 ++ number 1 1)
encode ct_set_mark = expr_bytes "ct" (number 2 3 ++ number 4 1)
encode accept = expr_bytes "immediate" (number 1 0 ++ nest 2 (nest 2 (number 1 nf_accept)))
encode Expr.drop = expr_bytes "immediate" (number 1 0 ++ nest 2 (nest 2 (number 1 nf_drop)))
encode (payload base offset len) =
    expr_bytes "payload" ((number 1 1 ++ number 2 base) ++ (number 3 offset ++ number 4 len))
encode (bitwise_mask mask) = expr_bytes "bitwise" (
    (number 1 1 ++ number 2 1)
    ++ (number 3 (length mask) ++ (nest 4 (leaf 1 mask) ++ nest 5 (leaf 1 (zeros (length mask))))))

pad_zeros-short : (n : ℕ) → length (pad_zeros n) ≤ 3
unfolding pad_zeros
pad_zeros-short n = elim (Bool-cases (n % 4 == 0)) [
  | inl e ↦ rw e (omega arith)
  | inr e ↦ elim (Bool-cases (n % 4 == 1)) [
    | inl f ↦ rw (e, f) (omega arith)
    | inr f ↦ elim (Bool-cases (n % 4 == 2)) [
      | inl g ↦ rw (e, f, g) (omega arith)
      | inr g ↦ rw (e, f, g) (omega arith)
    ]
  ]
]

leaf-short : (kind : ℕ) (bytes : List ℕ) → length (leaf kind bytes) ≤ length bytes + 7
unfolding leaf le_bytes
leaf-short kind bytes =
    let n = length bytes in
    omega (
      arith,
      length-append (le_bytes 2 (4 + n) ++ (le_bytes 2 kind ++ bytes)) (pad_zeros n),
      pad_zeros-short n,
    )

nest-length : (kind : ℕ) (bytes : List ℕ) → length (nest kind bytes) ≡ 4 + length bytes
unfolding nest le_bytes
nest-length kind bytes = omega arith

number-length : (kind value : ℕ) → length (number kind value) ≡ 8
unfolding number leaf le_bytes be_bytes be_bytes_before pad_zeros
number-length kind value = refl

number-Appends : (kind value : ℕ) → Appends (attr_u32_be kind value) (number kind value)
unfolding attr_u32_be number be_bytes be_bytes_before
number-Appends kind value = attr-Appends kind (be_bytes 4 value) (omega arith)

pair-Appends : (k1 v1 k2 v2 : ℕ) → Appends (push_pair k1 v1 k2 v2) (number k1 v1 ++ number k2 v2)
unfolding push_pair
pair-Appends k1 v1 k2 v2 =
    and_then-Appends (attr_u32_be k1 v1) (attr_u32_be k2 v2) _ _ (number-Appends k1 v1)
      (number-Appends k2 v2)

pair-length : (k1 v1 k2 v2 : ℕ) → length (number k1 v1 ++ number k2 v2) ≡ 16
pair-length k1 v1 k2 v2 =
    omega
      (arith, length-append (number k1 v1) (number k2 v2), number-length k1 v1, number-length k2 v2)

verdict-Appends :
    (code : ℕ) → Appends (push_verdict code) (number 1 0 ++ nest 2 (nest 2 (number 1 code)))
unfolding push_verdict
verdict-Appends code =
    let len = number-length 1 code in
    let inner =
      nested-Appends 2 (attr_u32_be 1 code) (number 1 code) (number-Appends 1 code)
        (omega (arith, len)) in
    let outer =
      nested-Appends 2 _ (nest 2 (number 1 code)) inner
        (omega (arith, len, nest-length 2 (number 1 code))) in
    and_then-Appends (attr_u32_be 1 0) _ _ _ (number-Appends 1 0) outer

-- A value is no longer than the attributes around it allow.
value-Appends :
    (kind : ℕ) (value : List ℕ)
    → length value ≤ 0xff00
    → Appends (λ buf. nested kind (λ inner. attr 1 value inner) buf) (nest kind (leaf 1 value))
value-Appends kind value h =
    nested-Appends kind (attr 1 value) (leaf 1 value) (attr-Appends 1 value (omega (arith, h)))
      (omega (arith, h, leaf-short 1 value))

expr-Appends :
    (name : String) (content : List ℕ → Option (List ℕ)) (body : List ℕ)
    → length (nul_terminated (as_bytes name)) ≤ 100
    → length body ≤ 0xff80
    → Appends content body
    → Appends (push_expr name content) (expr_bytes name body)
unfolding push_expr expr_bytes attr_str
expr-Appends name content body h g f =
    let text = nul_terminated (as_bytes name) in
    let inner = nested-Appends 2 content body f (omega (arith, g)) in
    let both =
      and_then-Appends (attr_str 1 (as_bytes name)) (nested 2 content) (leaf 1 text) (nest 2 body)
        (attr-Appends 1 text (omega (arith, h))) inner in
    nested-Appends 1 _ (leaf 1 text ++ nest 2 body) both (
      omega (
        arith,
        g,
        h,
        length-append (leaf 1 text) (nest 2 body),
        leaf-short 1 text,
        nest-length 2 body,
      ))

-- The bytes that an expression compares or masks with.
abbrev pub expr_value : Expr → List ℕ
expr_value (cmp_eq value) = value
expr_value (bitwise_mask mask) = mask
expr_value e = []

cmp-Appends :
    (value : List ℕ)
    → length value ≤ 0x7000
    → Appends (push_cmp value) ((number 1 1 ++ number 2 0) ++ nest 3 (leaf 1 value))
unfolding push_cmp
cmp-Appends value h =
    and_then-Appends (push_pair 1 1 2 0) _ _ _ (pair-Appends 1 1 2 0)
      (value-Appends 3 value (omega (arith, h)))

zeros-length : (n : ℕ) → length (zeros n) ≡ n
unfolding zeros
zeros-length zero = refl
zeros-length (suc n) = ap suc (zeros-length n)

bitwise-Appends :
    (mask : List ℕ)
    → length mask ≤ 0x7000
    → Appends (push_bitwise mask) (
        (number 1 1 ++ number 2 1)
        ++ (number 3 (length mask)
            ++ (nest 4 (leaf 1 mask) ++ nest 5 (leaf 1 (zeros (length mask))))))
unfolding push_bitwise
bitwise-Appends mask h =
    let n = length mask in
    and_then-Appends (push_pair 1 1 2 1) _ _ _ (pair-Appends 1 1 2 1) (
      and_then-Appends (attr_u32_be 3 n) _ _ _ (number-Appends 3 n) (
        and_then-Appends _ _ _ _ (value-Appends 4 mask (omega (arith, h)))
          (value-Appends 5 (zeros n) (omega (arith, h, zeros-length n)))))

cmp-length :
    (value : List ℕ)
    → length ((number 1 1 ++ number 2 0) ++ nest 3 (leaf 1 value)) ≤ length value + 27
cmp-length value = omega (
  arith,
  length-append (number 1 1 ++ number 2 0) (nest 3 (leaf 1 value)),
  pair-length 1 1 2 0,
  nest-length 3 (leaf 1 value),
  leaf-short 1 value,
)

bitwise-length :
    (mask : List ℕ)
    → length (
        (number 1 1 ++ number 2 1)
        ++ (number 3 (length mask)
            ++ (nest 4 (leaf 1 mask) ++ nest 5 (leaf 1 (zeros (length mask))))))
      ≤ 2 * length mask + 46
bitwise-length mask =
    let n = length mask in
    let four = nest 4 (leaf 1 mask) in
    let five = nest 5 (leaf 1 (zeros n)) in
    omega (
      arith,
      length-append (number 1 1 ++ number 2 1) (number 3 n ++ (four ++ five)),
      length-append (number 3 n) (four ++ five),
      length-append four five,
      pair-length 1 1 2 1,
      number-length 3 n,
      nest-length 4 (leaf 1 mask),
      nest-length 5 (leaf 1 (zeros n)),
      leaf-short 1 mask,
      leaf-short 1 (zeros n),
      zeros-length n,
    )

verdict-length : (code : ℕ) → length (number 1 0 ++ nest 2 (nest 2 (number 1 code))) ≡ 24
verdict-length code = omega (
  arith,
  length-append (number 1 0) (nest 2 (nest 2 (number 1 code))),
  number-length 1 0,
  nest-length 2 (nest 2 (number 1 code)),
  nest-length 2 (number 1 code),
  number-length 1 code,
)

-- A name and two numbers.
named_pair-Appends :
    (name : String) (k1 v1 k2 v2 : ℕ)
    → length (nul_terminated (as_bytes name)) ≤ 100
    → Appends
        (push_expr name (push_pair k1 v1 k2 v2))
        (expr_bytes name (number k1 v1 ++ number k2 v2))
named_pair-Appends name k1 v1 k2 v2 h =
    expr-Appends name (push_pair k1 v1 k2 v2) _ h (omega (arith, pair-length k1 v1 k2 v2))
      (pair-Appends k1 v1 k2 v2)

emit-Appends : (e : Expr) → length (expr_value e) ≤ 0x7000 → Appends (emit e) (encode e)
unfolding emit encode as_bytes nul_terminated
emit-Appends (meta_load key) h = named_pair-Appends "meta" 2 key 1 1 (omega arith)
emit-Appends meta_set_mark h = named_pair-Appends "meta" 2 meta_mark 3 1 (omega arith)
emit-Appends (cmp_eq value) h =
    expr-Appends "cmp" (push_cmp value) _ (omega arith) (omega (arith, h, cmp-length value))
      (cmp-Appends value h)
emit-Appends ct_load_mark h = named_pair-Appends "ct" 2 3 1 1 (omega arith)
emit-Appends ct_load_direction h = named_pair-Appends "ct" 2 1 1 1 (omega arith)
emit-Appends ct_load_state h = named_pair-Appends "ct" 2 0 1 1 (omega arith)
emit-Appends ct_set_mark h = named_pair-Appends "ct" 2 3 4 1 (omega arith)
emit-Appends accept h =
    expr-Appends "immediate" (push_verdict nf_accept) _ (omega arith)
      (omega (arith, verdict-length nf_accept)) (verdict-Appends nf_accept)
emit-Appends Expr.drop h =
    expr-Appends "immediate" (push_verdict nf_drop) _ (omega arith)
      (omega (arith, verdict-length nf_drop)) (verdict-Appends nf_drop)
emit-Appends (payload base offset len) h =
    expr-Appends "payload" _ _ (omega arith)
      (omega (
        arith,
        length-append (number 1 1 ++ number 2 base) (number 3 offset ++ number 4 len),
        pair-length 1 1 2 base,
        pair-length 3 offset 4 len,
      ))
      (and_then-Appends (push_pair 1 1 2 base) (push_pair 3 offset 4 len) _ _
        (pair-Appends 1 1 2 base) (pair-Appends 3 offset 4 len))
emit-Appends (bitwise_mask mask) h =
    expr-Appends "bitwise" (push_bitwise mask) _ (omega arith)
      (omega (arith, h, bitwise-length mask)) (bitwise-Appends mask h)

pub encode_all : List Expr → List ℕ
encode_all [] = []
encode_all (e ∷ rest) = encode e ++ encode_all rest

-- The expressions of a rule, each with a value of at most 28672 bytes, are appended to an aligned
-- buffer as netlink encodes them: every length is patched in place to what the attribute holds,
-- nothing before it changes, no conversion panics, and the buffer stays aligned.
pub emit_all-encode_all :
    (exprs : List Expr) (buf : List ℕ)
    → All (λ e. length (expr_value e) ≤ 0x7000) exprs
    → length buf % 4 ≡ 0
    → (emit_all exprs buf ≡ some (buf ++ encode_all exprs)) × (length (encode_all exprs) % 4 ≡ 0)
unfolding emit_all encode_all Appends and_then
emit_all-encode_all [] buf small aligned = (ap some (sym (append_nil buf)), refl)
emit_all-encode_all (e ∷ rest) buf (small, smalls) aligned =
    let (whole, appends) = emit-Appends e small in
    let (then_rest, rest_whole) =
      emit_all-encode_all rest (buf ++ encode e) smalls
        (joined_aligned buf (encode e) aligned whole) in
    (
      rw (appends buf aligned)
          (then_rest ∙ ap {A = List ℕ} some (append_assoc buf (encode e) (encode_all rest))),
      joined_aligned (encode e) (encode_all rest) whole rest_whole,
    )
