-- ===== src/Relay/Skipping.antt =====
-- Reading and skipping an exact number of bytes: `read_exact` and `recv_skip` of
-- rustlib/src/quicwg.rs.
use obscuravpn_client.Prelude.{
  ℕ, zero, suc, ◌+◌, ◌-◌, ◌≤◌, ◌<◌, ◌≡◌, ◌⊎◌, inl, inr, refl, sym, ap, ◌∙◌, List, [], ◌∷◌, ◌++◌,
  length, length-append, ltb, leb, le→leb, leb→le, drop, Bool-cases, arith,
}
use obscuravpn_client.NetworkConfig.{Result, ok, err}
use obscuravpn_client.Relay.{IoError, unexpected_eof, take}
use obscuravpn_client.Relay.Messages.{read_exact, skip_buffer, recv_skip_loop, recv_skip}

pub length-drop : (n : ℕ) (xs : List ℕ) → length (drop n xs) ≡ length xs - n
length-drop zero xs = omega arith
length-drop (suc n) [] = omega arith
length-drop (suc n) (x ∷ xs) = omega (arith, length-drop n xs)

drop-nil : (n : ℕ) → drop {A = ℕ} n [] ≡ []
drop-nil zero = refl
drop-nil (suc n) = refl

drop-drop : (m n k : ℕ) (xs : List ℕ) → n + m ≡ k → drop m (drop n xs) ≡ drop k xs
drop-drop m zero k xs e = let same : m ≡ k = omega (arith, e) in rw same refl
drop-drop m (suc n) zero xs e = absurd (omega (arith, e))
drop-drop m (suc n) (suc k) [] e = drop-nil m
drop-drop m (suc n) (suc k) (x ∷ xs) e = drop-drop m n k xs (omega (arith, e))

pub take-append : (xs ys : List ℕ) → take (length xs) (xs ++ ys) ≡ xs
take-append [] ys = refl
take-append (x ∷ xs) ys = ap (λ zs. x ∷ zs) (take-append xs ys)

pub drop-append : (xs ys : List ℕ) → drop (length xs) (xs ++ ys) ≡ ys
drop-append [] ys = refl
drop-append (x ∷ xs) ys = drop-append xs ys

-- What is there is read.
pub read_exact-append :
    (n : ℕ) (xs ys : List ℕ) → length xs ≡ n → read_exact n (xs ++ ys) ≡ ok (xs, ys)
unfolding read_exact
read_exact-append n xs ys e = rw (← e) (
    rw
      (
        le→leb (length xs) (length (xs ++ ys)) (omega (arith, length-append {0} xs ys)),
        take-append xs ys,
        drop-append xs ys,
      )
      refl)

-- A read gets all its bytes, or the input is too short.
pub read_exact-cases :
    (n : ℕ) (input : List ℕ)
    → ((n ≤ length input) × (read_exact n input ≡ ok (take n input, drop n input)))
      ⊎ ((length input < n) × (read_exact n input ≡ err unexpected_eof))
unfolding read_exact
read_exact-cases n input = elim (Bool-cases (leb n (length input))) [
  | inl e ↦ inl (leb→le _ _ e, rw e refl)
  | inr e ↦ inr (ground arith, rw e refl)
]

-- Skipping in pieces is skipping at once: so many bytes are taken off the input, if it has them.
abbrev pub Skipped : ℕ → List ℕ → Result IoError (List ℕ) → Type 0
Skipped n input r =
    ((n ≤ length input) × (r ≡ ok (drop n input))) ⊎ ((length input < n) × (r ≡ err unexpected_eof))

-- Where the loop of `recv_skip` stops: fewer bytes than the buffer holds are left to be skipped.
LoopSkipped : ℕ → List ℕ → Result IoError (ℕ × List ℕ) → Type 0
LoopSkipped n input r =
    ((k : ℕ) × (rest : List ℕ) × (r ≡ ok (k, rest))
      × (k < skip_buffer)
      × (length input + k ≡ length rest + n)
      × (drop k rest ≡ drop n input))
    ⊎ ((length input < n) × (r ≡ err unexpected_eof))

recv_skip_loop-LoopSkipped :
    (fuel n : ℕ) (input : List ℕ) → n < fuel → LoopSkipped n input (recv_skip_loop fuel n input)
unfolding recv_skip_loop LoopSkipped
recv_skip_loop-LoopSkipped zero n input h = absurd (omega (arith, h))
recv_skip_loop-LoopSkipped (suc fuel) n input h = elim (Bool-cases (leb skip_buffer n)) [
  | inr e ↦ rw (e, recv_skip_loop) (inl (n, input, refl, ground arith, refl, refl))
  | inl e ↦
      let large = leb→le skip_buffer n e in
      rw (e, recv_skip_loop)
        (elim (read_exact-cases skip_buffer input) [
          | inr (short, failed) ↦ rw failed (inr (omega (arith, short, large), refl))
          | inl (fits, done) ↦ rw done (
              let shorter = length-drop skip_buffer input in
              elim (recv_skip_loop-LoopSkipped fuel (n - skip_buffer) (drop skip_buffer input)
                (omega (arith, h, large))) [
                  | inr (short, failed) ↦ inr (omega (arith, short, shorter, large, fits), failed)
                  | inl (k, rest, found, small, sizes, same) ↦ inl (
                    k,
                    rest,
                    found,
                    small,
                    omega (arith, sizes, shorter, fits, large),
                    same ∙ drop-drop (n - skip_buffer) skip_buffer n input (omega (arith, large)),
                  )
                ])
        ])
]

pub recv_skip-Skipped : (n : ℕ) (input : List ℕ) → Skipped n input (recv_skip n input)
unfolding recv_skip LoopSkipped
recv_skip-Skipped n input = elim (recv_skip_loop-LoopSkipped (suc n) n input (omega arith)) [
  | inr (short, failed) ↦ rw failed (inr (short, refl))
  | inl (k, rest, found, small, sizes, same) ↦ rw found (elim (Bool-cases (ltb 0 k)) [
    | inr none_left ↦ rw none_left (
        let done : k ≡ 0 = ground arith in
        inl
          (omega (arith, sizes, done), ap (λ xs. ok xs) (sym (ap (λ m. drop m rest) done) ∙ same)))
    | inl left ↦ rw left (elim (read_exact-cases k rest) [
      | inl (fits, done) ↦ rw done (inl (omega (arith, fits, sizes), ap (λ xs. ok xs) same))
      | inr (short, failed) ↦ rw failed (inr (omega (arith, short, sizes), refl))
    ])
  ])
]
