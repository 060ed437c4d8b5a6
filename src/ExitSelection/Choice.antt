-- ===== src/ExitSelection/Choice.antt =====
-- rustlib/src/exit_selection.rs: which exit is chosen.
use obscuravpn_client.Prelude.{
  ℕ, suc, Bool, true, false, not, none, some, List, [], ◌∷◌, ◌≢◌, refl, ◌⊎◌, inl, inr, leb, retain,
  Among, Among-retain, retain-Among, sym, subst, ap, ◌∙◌, Bool-cases, ◌≡◌, arith, ltb, ◌<◌, ◌≤◌,
  any, str_eq,
}
use obscuravpn_client.ExitSelection.{
  OneExit, OneRelay, ExitSelector, matches, ExitSelectionState, default_state, exclude, Rank, rank,
  lex, bit, city_eq, rank_le, best_from, max_by_key, better_of, candidates, after_selection,
  select_next_exit,
}

lex_total :
    (a b : ℕ) (r s : Bool) → (r ≡ true) ⊎ (s ≡ true) → (lex a b r ≡ true) ⊎ (lex b a s ≡ true)
lex_total a b r s (inl h) = ground arith
lex_total a b r s (inr h) = ground arith

lex_trans :
    (a b c : ℕ) (r s t : Bool)
    → (r ≡ true → s ≡ true → t ≡ true)
    → lex a b r ≡ true
    → lex b c s ≡ true
    → lex a c t ≡ true
lex_trans a b c r s t k h g = ground arith

rank_le_total : (a b : Rank) → (rank_le a b ≡ true) ⊎ (rank_le b a ≡ true)
unfolding rank_le
rank_le_total a b = lex_total (bit a.is_preferred) (bit b.is_preferred) _ _ (
    lex_total (bit a.same_city) (bit b.same_city) _ _ (
      lex_total (bit a.same_country) (bit b.same_country) _ _
        (lex_total a.tier b.tier (leb a.random b.random) (leb b.random a.random) (ground arith))))

rank_le_trans : (a b c : Rank) → rank_le a b ≡ true → rank_le b c ≡ true → rank_le a c ≡ true
unfolding rank_le
rank_le_trans a b c =
    lex_trans (bit a.is_preferred) (bit b.is_preferred) (bit c.is_preferred) _ _ _ (
      lex_trans (bit a.same_city) (bit b.same_city) (bit c.same_city) _ _ _ (
        lex_trans (bit a.same_country) (bit b.same_country) (bit c.same_country) _ _ _ (
          lex_trans a.tier b.tier c.tier (leb a.random b.random) (leb b.random c.random)
            (leb a.random c.random) (λ p q. ground arith))))

-- None of the candidates, each at the draw made for it, ranks above `best`.
abbrev pub NoneAbove : (OneExit → ℕ → Rank) → (ℕ → ℕ) → ℕ → List OneExit → Rank → Type 0
NoneAbove key random i [] best = Unit
NoneAbove key random i (e ∷ es) best =
    (rank_le (key e (random i)) best ≡ true) × NoneAbove key random (suc i) es best

-- The exit is in the list at a place that the number was drawn for.
abbrev pub DrawnFor : (ℕ → ℕ) → ℕ → List OneExit → OneExit → ℕ → Type 0
DrawnFor random i [] e r = ⊥
DrawnFor random i (x ∷ xs) e r = ((x ≡ e) × (r ≡ random i)) ⊎ DrawnFor random (suc i) xs e r

DrawnFor-Among :
    (random : ℕ → ℕ) (i : ℕ) (es : List OneExit) (e : OneExit) (r : ℕ)
    → DrawnFor random i es e r
    → Among e es
DrawnFor-Among random i [] e r d = d
DrawnFor-Among random i (x ∷ xs) e r (inl (same, drawn)) = inl same
DrawnFor-Among random i (x ∷ xs) e r (inr d) = inr (DrawnFor-Among random (suc i) xs e r d)

-- By the first numbers, and if they are equal by the rest.
abbrev pub Lex : ℕ → ℕ → Type 0 → Type 0
Lex a b rest = (a < b) ⊎ ((a ≡ b) × rest)

lex-Lex : {P : Type 0} (a b : ℕ) (rest : Bool) → (rest ≡ true → P) → lex a b rest ≡ true → Lex a b P
lex-Lex a b rest k h = elim (Bool-cases (ltb a b)) [
  | inl less ↦ inl (ground arith)
  | inr more ↦ inr (ground arith, k (ground arith))
]

-- The exit `x` with the number `y` does not come before `e` with `r`: first come those that the
-- relay prefers, then those in its city, then those in its country, then those of a higher tier, then those
-- with a greater number.
abbrev pub NotBefore : OneRelay → OneExit → ℕ → OneExit → ℕ → Type 0
NotBefore relay x y e r =
    Lex (bit (any (λ id. str_eq id x.id) relay.preferred_exits))
      (bit (any (λ id. str_eq id e.id) relay.preferred_exits))
      (Lex (bit (city_eq relay.city_code x.city_code)) (bit (city_eq relay.city_code e.city_code)) (
        Lex (bit (str_eq relay.city_code.country_code x.city_code.country_code))
          (bit (str_eq relay.city_code.country_code e.city_code.country_code))
          (Lex x.tier e.tier (y ≤ r))))

rank_le-NotBefore :
    (relay : OneRelay) (x e : OneExit) (y r : ℕ)
    → rank_le
        (rank x relay.city_code relay.preferred_exits y)
        (rank e relay.city_code relay.preferred_exits r)
      ≡ true
    → NotBefore relay x y e r
unfolding rank_le rank
rank_le-NotBefore relay x e y r =
    lex-Lex _ _ _ (lex-Lex _ _ _ (lex-Lex _ _ _ (lex-Lex _ _ _ (λ h. ground arith))))

-- None of the exits, each with the number drawn for it, comes before `e` with `r`.
abbrev pub NoneBefore : OneRelay → (ℕ → ℕ) → ℕ → List OneExit → OneExit → ℕ → Type 0
NoneBefore relay random i [] e r = Unit
NoneBefore relay random i (x ∷ xs) e r =
    NotBefore relay x (random i) e r × NoneBefore relay random (suc i) xs e r

NoneAbove-NoneBefore :
    (relay : OneRelay) (random : ℕ → ℕ) (i : ℕ) (es : List OneExit) (e : OneExit) (r : ℕ)
    → NoneAbove
        (λ x y. rank x relay.city_code relay.preferred_exits y)
        random
        i
        es
        (rank e relay.city_code relay.preferred_exits r)
    → NoneBefore relay random i es e r
NoneAbove-NoneBefore relay random i [] e r n = tt
NoneAbove-NoneBefore relay random i (x ∷ xs) e r (le, n) = (
  rank_le-NotBefore relay x e (random i) r le,
  NoneAbove-NoneBefore relay random (suc i) xs e r n,
)

rank_le_refl : (a : Rank) → rank_le a a ≡ true
rank_le_refl a = elim (rank_le_total a a) [ inl h ↦ h | inr h ↦ h ]

better_of_max :
    (best next : OneExit × Rank)
    → (rank_le best.1 (better_of best next).1 ≡ true)
      × (rank_le next.1 (better_of best next).1 ≡ true)
unfolding better_of
better_of_max best next =
    ground (arith, rank_le_refl best.1, rank_le_refl next.1, rank_le_total best.1 next.1)

better_of_source :
    (best next : OneExit × Rank) → (better_of best next ≡ best) ⊎ (better_of best next ≡ next)
unfolding better_of
better_of_source best next = ground arith

module _ (key : OneExit → ℕ → Rank) (random : ℕ → ℕ) where
  best_from_max :
      (i : ℕ) (best : OneExit × Rank) (es : List OneExit)
      → (rank_le best.1 (best_from key random i best es).1 ≡ true)
        × NoneAbove key random i es (best_from key random i best es).1
  unfolding best_from
  best_from_max i best [] = (rank_le_refl best.1, tt)
  best_from_max i best (e ∷ es) =
      let next : OneExit × Rank = (e, key e (random i)) in
      let (keeps, covers) = better_of_max best next in
      let (above, none_above) = best_from_max (suc i) (better_of best next) es in
      (
        rank_le_trans best.1 (better_of best next).1 _ keeps above,
        (rank_le_trans next.1 (better_of best next).1 _ covers above, none_above),
      )

  -- The best is one of the exits, with its rank at the draw made for it.
  best_from_source :
      (i : ℕ) (best : OneExit × Rank) (es : List OneExit) (r : ℕ)
      → best.1 ≡ key best.0 r
      → (r' : ℕ) × ((best_from key random i best es).1 ≡ key (best_from key random i best es).0 r')
        × ((((best_from key random i best es).0 ≡ best.0) × (r' ≡ r))
            ⊎ DrawnFor random i es (best_from key random i best es).0 r')
  unfolding best_from
  best_from_source i best [] r h = (r, h, inl (refl, refl))
  best_from_source i best (e ∷ es) r h =
      let next : OneExit × Rank = (e, key e (random i)) in
      elim (better_of_source best next) [
        | inl kept ↦
            let (r', at, place) = best_from_source (suc i) (better_of best next) es r (rw kept h) in
            (
              r',
              at,
              elim place [
                | inl (q, same) ↦ inl (q ∙ ap (λ (b : OneExit × Rank). b.0) kept, same)
                | inr m ↦ inr (inr m)
              ],
            )
        | inr replaced ↦
            let (r', at, place) =
              best_from_source (suc i) (better_of best next) es (random i) (rw replaced refl) in
            (
              r',
              at,
              elim place [
                | inl (q, same) ↦
                    inr (inl (sym (q ∙ ap (λ (b : OneExit × Rank). b.0) replaced), same))
                | inr m ↦ inr (inr m)
              ],
            )
      ]

  max_by_key_lem :
      (es : List OneExit) {e : OneExit}
      → max_by_key key random es ≡ some e
      → (r : ℕ) × DrawnFor random 0 es e r × NoneAbove key random 0 es (key e r)
  unfolding max_by_key
  max_by_key_lem [] h = absurd (ground arith)
  max_by_key_lem (x ∷ xs) {e} h =
      let first : OneExit × Rank = (x, key x (random 0)) in
      let chosen : (best_from key random 1 first xs).0 ≡ e = cc in
      let (above, none_above) = best_from_max 1 first xs in
      let (r, at, place) = best_from_source 1 first xs (random 0) refl in
      let rank_of : (best_from key random 1 first xs).1 ≡ key e r = at ∙ ap (λ y. key y r) chosen in
      (
        r,
        elim place [
          | inl (q, same) ↦ inl (sym q ∙ chosen, same)
          | inr m ↦ inr (subst (λ y. DrawnFor random 1 xs y r) chosen m)
        ],
        (
          subst (λ k. rank_le (key x (random 0)) k ≡ true) rank_of above,
          subst (λ k. NoneAbove key random 1 xs k) rank_of none_above,
        ),
      )

max_by_key-none :
    (key : OneExit → ℕ → Rank) (random : ℕ → ℕ) (es : List OneExit)
    → max_by_key key random es ≡ none
    → es ≡ []
unfolding max_by_key
max_by_key-none key random [] h = refl
max_by_key-none key random (x ∷ xs) h = cc

-- A candidate is left where an exit of the list matches and is not excluded.
candidates_left :
    (s : ExitSelectionState) (selector : ExitSelector) (exits : List OneExit) (e : OneExit)
    → Among e exits
    → matches selector e ≡ true
    → exclude s e ≡ false
    → candidates s selector exits ≢ []
unfolding candidates
candidates_left s selector exits e listed fits included empty = subst (Among e) empty (
    retain-Among (λ x. not (exclude s x)) e (retain (matches selector) exits)
      (retain-Among (matches selector) e exits listed fits) (rw included))

-- The exits that can be chosen: of those that match, those that are not excluded.
abbrev pub choices : ExitSelectionState → ExitSelector → List OneExit → List OneExit
choices s selector exits = retain (λ e. not (exclude s e)) (retain (matches selector) exits)

-- The chosen exit is one of the list, matches the selector, and is not excluded by what was chosen
-- before. With the number drawn for it, none of the exits that could have been chosen, each with the
-- number drawn for it, comes before it in the order of preference: of the relay, its city, its country,
-- the tier, the number.
pub select-best :
    (selector : ExitSelector) (exits : List OneExit) (relay : OneRelay) (random : ℕ → ℕ)
    (s : ExitSelectionState) {e : OneExit}
    → (select_next_exit selector exits relay random s).1 ≡ some e
    → Among e exits
      × (matches selector e ≡ true)
      × (exclude s e ≡ false)
      × ((r : ℕ) × DrawnFor random 0 (choices s selector exits) e r
          × NoneBefore relay random 0 (choices s selector exits) e r)
unfolding select_next_exit candidates
select-best selector exits relay random s {e} h =
    let key = λ (x : OneExit) (y : ℕ). rank x relay.city_code relay.preferred_exits y in
    let (r, drawn, none_above) = max_by_key_lem key random (candidates s selector exits) h in
    let there = DrawnFor-Among random 0 (candidates s selector exits) e r drawn in
    let (matching, included) =
      Among-retain (λ x. not (exclude s x)) e (retain (matches selector) exits) there in
    let (listed, fits) = Among-retain (matches selector) e exits matching in
    (
      listed,
      fits,
      ground arith,
      (r, drawn, NoneAbove-NoneBefore relay random 0 (candidates s selector exits) e r none_above),
    )

-- No exit is chosen only if every exit of the list that matches is excluded; then the state is
-- cleared.
pub select_none :
    (selector : ExitSelector) (exits : List OneExit) (relay : OneRelay) (random : ℕ → ℕ)
    (s : ExitSelectionState) (e : OneExit)
    → (select_next_exit selector exits relay random s).1 ≡ none
    → Among e exits
    → matches selector e ≡ true
    → (exclude s e ≡ true) × ((select_next_exit selector exits relay random s).0 ≡ default_state)
unfolding select_next_exit
select_none selector exits relay random s e h listed fits =
    let none_left = max_by_key-none _ random (candidates s selector exits) h in
    (
      elim (Bool-cases (exclude s e)) [
        | inl out ↦ out
        | inr included ↦ absurd (candidates_left s selector exits e listed fits included none_left)
      ],
      rw h,
    )

-- Two choices in a row do not both fail if a listed exit matches the selector: the first failure
-- clears what stood in the way.
pub select_next_exit_retry :
    (selector : ExitSelector) (exits : List OneExit) (relay : OneRelay) (random random' : ℕ → ℕ)
    (s : ExitSelectionState) (e : OneExit)
    → Among e exits
    → matches selector e ≡ true
    → (select_next_exit selector exits relay random s).1 ≡ none
    → (select_next_exit selector exits relay random'
        (select_next_exit selector exits relay random s).0).1
      ≢ none
unfolding select_next_exit
select_next_exit_retry selector exits relay random random' s e listed fits h again =
    let key = λ (x : OneExit) (y : ℕ). rank x relay.city_code relay.preferred_exits y in
    let still_none =
      subst (λ t. max_by_key key random' (candidates t selector exits) ≡ none)
        (ap (λ o. after_selection o s) h) again in
    candidates_left default_state selector exits e listed fits (unfold exclude in refl)
      (max_by_key-none key random' (candidates default_state selector exits) still_none)
