-- ===== src/LinuxOs/Netfilter/Attributes.antt =====
-- The buffers of rustlib/src/bin/obscura/service/os/linux/netfilter.rs hold attributes as netlink
-- encodes them, with their lengths patched in place.
use Prim.Native.Nat.{bit_or}
use obscuravpn_client.Prelude.{
  ℕ, ◌+◌, ◌-◌, ◌%◌, ◌≤◌, ◌≡◌, refl, ap, ◌∙◌, Option, some, List, [], ◌∷◌, ◌++◌, length,
  length-append, le→leb, ◌==◌, drop, arith, Bool-cases, inl, inr,
}
use obscuravpn_client.LinuxOs.Netfilter.Bytes.{le_bytes}
use obscuravpn_client.LinuxOs.Netfilter.Messages.{
  nla_f_nested, try_u16, pad_zeros, pad, push_attr, attr, first_bytes, patch, patch_len,
  close_nested, nested, and_then,
}

-- An attribute: its length, its kind, its payload, and zeros up to a multiple of four.
unfoldable pub leaf : ℕ → List ℕ → List ℕ
leaf kind bytes =
    (le_bytes 2 (4 + length bytes) ++ (le_bytes 2 kind ++ bytes)) ++ pad_zeros (length bytes)

-- An attribute that holds others.
unfoldable pub nest : ℕ → List ℕ → List ℕ
nest kind bytes = le_bytes 2 (4 + length bytes) ++ (le_bytes 2 (bit_or kind nla_f_nested) ++ bytes)

-- A step that appends these bytes, which keep a buffer aligned.
unfoldable pub Appends : (List ℕ → Option (List ℕ)) → List ℕ → Type 0
Appends content bytes =
    (length bytes % 4 ≡ 0)
    × ((buf : List ℕ) → length buf % 4 ≡ 0 → content buf ≡ some (buf ++ bytes))

pub append_nil : (xs : List ℕ) → xs ++ [] ≡ xs
append_nil [] = refl
append_nil (x ∷ xs) = ap (λ l. x ∷ l) (append_nil xs)

pub append_assoc : (xs ys zs : List ℕ) → (xs ++ ys) ++ zs ≡ xs ++ (ys ++ zs)
append_assoc [] ys zs = refl
append_assoc (x ∷ xs) ys zs = ap (λ l. x ∷ l) (append_assoc xs ys zs)

first_bytes-append : (xs ys : List ℕ) → first_bytes (length xs) (xs ++ ys) ≡ xs
unfolding first_bytes
first_bytes-append [] ys = refl
first_bytes-append (x ∷ xs) ys = ap (λ l. x ∷ l) (first_bytes-append xs ys)

drop-append : (xs ys : List ℕ) → drop (length xs) (xs ++ ys) ≡ ys
drop-append [] ys = refl
drop-append (x ∷ xs) ys = drop-append xs ys

fits_u16 : (n : ℕ) → n ≤ 0xffff → try_u16 n ≡ some n
unfolding try_u16
fits_u16 n h = rw (le→leb n 0xffff h) refl

-- The zeros depend on the length modulo four only.
pad_zeros-aligned : (n m : ℕ) → m % 4 ≡ 0 → pad_zeros (m + n) ≡ pad_zeros n
unfolding pad_zeros
pad_zeros-aligned n m h = let same : (m + n) % 4 ≡ n % 4 = omega (arith, h) in rw same refl

pad_zeros-length : (n : ℕ) → (n + length (pad_zeros n)) % 4 ≡ 0
unfolding pad_zeros
pad_zeros-length n = elim (Bool-cases (n % 4 == 0)) [
  | inl e ↦ rw e ground arith
  | inr e ↦ elim (Bool-cases (n % 4 == 1)) [
    | inl f ↦ rw (e, f) ground arith
    | inr f ↦ elim (Bool-cases (n % 4 == 2)) [
      | inl g ↦ rw (e, f, g) ground arith
      | inr g ↦ rw (e, f, g) ground arith
    ]
  ]
]

pub joined_aligned :
    (xs ys : List ℕ) → length xs % 4 ≡ 0 → length ys % 4 ≡ 0 → length (xs ++ ys) % 4 ≡ 0
joined_aligned xs ys h g = omega (arith, h, g, length-append xs ys)

pub attr-Appends :
    (kind : ℕ) (bytes : List ℕ)
    → length bytes ≤ 0xfffb
    → Appends (attr kind bytes) (leaf kind bytes)
unfolding Appends attr push_attr pad leaf le_bytes
attr-Appends kind bytes h =
    let n = length bytes in
    let x = le_bytes 2 (4 + n) ++ (le_bytes 2 kind ++ bytes) in
    (
      omega (arith, length-append x (pad_zeros n), pad_zeros-length n),
      λ buf aligned.
          let whole : length (buf ++ x) ≡ (length buf + 4) + n =
            omega (arith, length-append buf x) in
          let same =
            ap pad_zeros whole ∙ pad_zeros-aligned n (length buf + 4) (omega (arith, aligned)) in
          rw (fits_u16 (4 + n) (omega (arith, h))) (
            ap (λ z. some ((buf ++ x) ++ z)) same
            ∙ ap {A = List ℕ} some (append_assoc buf x (pad_zeros n))),
    )

patched :
    (buf value head rest : List ℕ)
    → drop (length value) (head ++ rest) ≡ rest
    → patch (length buf) value (buf ++ (head ++ rest)) ≡ buf ++ (value ++ rest)
unfolding patch
patched buf value head rest h =
    ap (λ z. z ++ (value ++ drop (length value) (drop (length buf) (buf ++ (head ++ rest)))))
      (first_bytes-append buf (head ++ rest))
    ∙ ap (λ z. buf ++ (value ++ drop (length value) z)) (drop-append buf (head ++ rest))
    ∙ ap (λ z. buf ++ (value ++ z)) h

pub nested-Appends :
    (kind : ℕ) (content : List ℕ → Option (List ℕ)) (bytes : List ℕ)
    → Appends content bytes
    → length bytes ≤ 0xfffb
    → Appends (nested kind content) (nest kind bytes)
unfolding Appends nested close_nested patch_len nest le_bytes
nested-Appends kind content bytes (whole, appends) h =
    let k = le_bytes 2 (bit_or kind nla_f_nested) in
    let n = length bytes in
    (
      omega (arith, whole),
      λ buf aligned.
          let opened = buf ++ (0 ∷ 0 ∷ k) in
          let opened_aligned = joined_aligned buf (0 ∷ 0 ∷ k) aligned refl in
          let joined = append_assoc buf (0 ∷ 0 ∷ k) bytes in
          let len : length (opened ++ bytes) - length buf ≡ 4 + n =
            omega (arith, length-append opened bytes, length-append buf (0 ∷ 0 ∷ k)) in
          rw (appends opened opened_aligned) (
            ap (λ m. patch_len (length buf) (opened ++ bytes) (try_u16 m)) len
            ∙ ap (patch_len (length buf) (opened ++ bytes)) (fits_u16 (4 + n) (omega (arith, h)))
            ∙ ap {A = List ℕ} some (
                ap (patch (length buf) (le_bytes 2 (4 + n))) joined
                ∙ patched buf (le_bytes 2 (4 + n)) (0 ∷ 0 ∷ []) (k ++ bytes) refl)),
    )

pub and_then-Appends :
    (c d : List ℕ → Option (List ℕ)) (xs ys : List ℕ)
    → Appends c xs
    → Appends d ys
    → Appends (λ buf. and_then (c buf) d) (xs ++ ys)
unfolding Appends and_then
and_then-Appends c d xs ys (h, f) (g, e) = (
  joined_aligned xs ys h g,
  λ buf aligned. rw (f buf aligned) (
      e (buf ++ xs) (joined_aligned buf xs aligned h)
      ∙ ap {A = List ℕ} some (append_assoc buf xs ys)),
)
