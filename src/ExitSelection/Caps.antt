-- ===== src/ExitSelection/Caps.antt =====
-- rustlib/src/exit_selection.rs: how often exits, datacenters, cities and countries are chosen.
use obscuravpn_client.Prelude.{
  ℕ, ◌+◌, min, ◌≤◌, ◌<◌, sym, ◌∙◌, subst, String, Bool, true, false, ◌||◌, Option, none, some, List,
  [], ◌∷◌, ◌≢◌, refl, inl, inr, str_eq, any, Eq, nat_keys, text_keys, lookup, lookup-insert_self,
  lookup-insert_ne, Bool-cases, Option-cases, ◌≡◌, arith, unwrap_or,
}
use mathlib.Core.Bool.{false≢true}
use obscuravpn_client.ExitSelection.{
  CityCode, OneExit, OneRelay, ExitSelector, ExitSelectionState, default_state, exclude, reached,
  city_keys, count_up, note_selected, after_selection, select_next_exit,
}
use obscuravpn_client.ExitSelection.Choice.{select-best}

abbrev pub count_of : {K : Type 0} → Eq K → K → List (K × ℕ) → ℕ
count_of keys k m = unwrap_or (lookup keys k m) 0

-- The limits: two exits of a datacenter, four of a city, six of a country.
pub record IsCapped (s : ExitSelectionState) : Type 0 where
  pub datacenters : (k : ℕ) → count_of nat_keys k s.selected_datacenters ≤ 2
  pub cities : (k : CityCode) → count_of city_keys k s.selected_cities ≤ 4
  pub countries : (k : String) → count_of text_keys k s.selected_countries ≤ 6

count_up-capped :
    {K : Type 0} (keys : Eq K) (k : K) (cap : ℕ) (m : List (K × ℕ))
    → ((j : K) → count_of keys j m ≤ cap)
    → reached (lookup keys k m) cap ≡ false
    → 0 < cap
    → (j : K) → count_of keys j (count_up keys k m) ≤ cap
unfolding count_up
count_up-capped keys k cap m h r pos j = elim (Bool-cases (keys.beq j k)) [
  | inl same ↦
      subst (λ i. count_of keys i (count_up keys k m) ≤ cap) (sym ((keys.beq_iff j k).0 same))
        (rw (lookup-insert_self keys k (min 255 (count_of keys k m + 1)) m)
          (grow (lookup keys k m) r))
  | inr other ↦
      rw
        (lookup-insert_ne keys j k (min 255 (count_of keys k m + 1)) m
          (λ e. false≢true (sym other ∙ (keys.beq_iff j k).1 e)))
        (h j)
]
  where
    grow : (o : Option ℕ) → reached o cap ≡ false → min 255 (unwrap_or o 0 + 1) ≤ cap
    grow none q = omega arith
    grow (some n) q = ground arith

note_selected-IsCapped :
    (e : OneExit) (s : ExitSelectionState)
    → exclude s e ≡ false
    → IsCapped s
    → IsCapped (note_selected e s)
unfolding note_selected exclude
note_selected-IsCapped e s x h = record {
  datacenters =
      count_up-capped nat_keys e.datacenter_id 2 s.selected_datacenters h.datacenters (ground arith)
        (omega arith);
  cities =
      count_up-capped city_keys e.city_code 4 s.selected_cities h.cities (ground arith)
        (omega arith);
  countries =
      count_up-capped text_keys e.city_code.country_code 6 s.selected_countries h.countries
        (ground arith) (omega arith);
}

-- One request for an exit.
pub record Request : Type 0 where
  pub selector : ExitSelector
  pub exits : List OneExit
  pub relay : OneRelay
  pub random : ℕ → ℕ

pub select_all : List Request → ExitSelectionState → ExitSelectionState
select_all [] s = s
select_all (r ∷ rs) s = select_all rs (select_next_exit r.selector r.exits r.relay r.random s).0

pub default-IsCapped : IsCapped default_state
default-IsCapped = record {
  datacenters = λ k. omega arith;
  cities = λ k. omega arith;
  countries = λ k. omega arith;
}

state_of_selection :
    (r : Request) (s : ExitSelectionState)
    → (select_next_exit r.selector r.exits r.relay r.random s).0
      ≡ after_selection (select_next_exit r.selector r.exits r.relay r.random s).1 s
unfolding select_next_exit
state_of_selection r s = refl

select-IsCapped :
    (r : Request) (s : ExitSelectionState)
    → IsCapped s
    → IsCapped (select_next_exit r.selector r.exits r.relay r.random s).0
select-IsCapped r s h =
    rw (state_of_selection r s)
      (elim (Option-cases (select_next_exit r.selector r.exits r.relay r.random s).1) [
        | inl missing ↦ rw missing default-IsCapped
        | inr (e, chosen) ↦ rw chosen (
            note_selected-IsCapped e s (select-best r.selector r.exits r.relay r.random s chosen).2
              h)
      ])

-- Whatever exits are asked for, from whatever lists, since the state was new no datacenter is
-- counted more than twice, no city more than four times and no country more than six times.
pub select_all-IsCapped :
    (rs : List Request) (s : ExitSelectionState) → IsCapped s → IsCapped (select_all rs s)
unfolding select_all
select_all-IsCapped [] s h = h
select_all-IsCapped (r ∷ rs) s h = select_all-IsCapped rs _ (select-IsCapped r s h)

chosen_before : (a b : Bool) → a ≡ true → (a || b) ≡ false → false ≡ true
chosen_before true b h e = sym e
chosen_before false b h e = h

-- An exit that was chosen is not chosen again until the state is cleared.
pub select_next_exit_once :
    (r : Request) (s : ExitSelectionState) (e e' : OneExit)
    → any (λ id. str_eq id e.id) s.selected_exit_ids ≡ true
    → (select_next_exit r.selector r.exits r.relay r.random s).1 ≡ some e'
    → e'.id ≢ e.id
unfolding exclude
select_next_exit_once r s e e' old h same =
    let included = (select-best r.selector r.exits r.relay r.random s h).2 in
    cc (
      chosen_before (any (λ id. str_eq id e'.id) s.selected_exit_ids) _
        (subst (λ i. any (λ id. str_eq id i) s.selected_exit_ids ≡ true) (sym same) old) included)
