-- ===== src/ExitSelection.antt =====
-- rustlib/src/exit_selection.rs: the choice of the next exit for a selector, avoiding exits,
-- datacenters, cities and countries that were chosen too often.
-- Exits and relays (obscuravpn_api) are records of the fields that this code reads; hash maps are
-- association lists; `rand::random()` is the argument `random`, by the number of the draw.
mod Choice
mod Caps
mod Tests
use obscuravpn_client.Prelude.{
  ℕ, suc, ◌+◌, min, String, Bool, true, false, not, ◌&&◌, ◌||◌, Option, none, some, List, [], ◌∷◌,
  ltb, leb, ◌==◌, str_eq, if◌then◌else◌, any, retain, Eq, nat_keys, text_keys, lookup, insert, ◌≡◌,
  ◌↔◌, arith, unwrap_or,
}
use text.Mathlib.TextEquality.{eq_iff}

pub record CityCode : Type 0 where
  pub country_code : String
  pub city_code : String

abbrev pub city_eq : CityCode → CityCode → Bool
city_eq a b = str_eq a.country_code b.country_code && str_eq a.city_code b.city_code

pub city_eq_iff : (a b : CityCode) → (city_eq a b ≡ true) ↔ (a ≡ b)
city_eq_iff a b = (
  λ h. ground (arith, eq_iff a.country_code b.country_code, eq_iff a.city_code b.city_code),
  λ h. ground (arith, eq_iff a.country_code b.country_code, eq_iff a.city_code b.city_code),
)

abbrev pub city_keys : Eq CityCode
city_keys = record { beq = city_eq; beq_iff = city_eq_iff }

pub record OneExit : Type 0 where
  pub id : String
  pub city_code : CityCode
  pub datacenter_id : ℕ  -- u32
  pub tier : ℕ  -- u8
  pub provider_name : String

pub record OneRelay : Type 0 where
  pub id : String
  pub city_code : CityCode
  -- The ids of `preferred_exits`.
  pub preferred_exits : List String

pub data ExitSelector : Type 0 where
  any_exit : ExitSelector
  exit : String → ExitSelector
  country : String → ExitSelector
  city : CityCode → ExitSelector

pub matches : ExitSelector → OneExit → Bool
matches any_exit candidate = true
matches (exit id) candidate = str_eq candidate.id id
matches (country code) candidate = str_eq candidate.city_code.country_code code
matches (city code) candidate = city_eq candidate.city_code code

pub record ExitSelectionState : Type 0 where
  pub selected_exit_ids : List String
  pub selected_datacenters : List (ℕ × ℕ)
  pub selected_cities : List (CityCode × ℕ)
  pub selected_countries : List (String × ℕ)

abbrev pub default_state : ExitSelectionState
default_state = record {
  selected_exit_ids = [];
  selected_datacenters = [];
  selected_cities = [];
  selected_countries = [];
}

-- `map.get(k) >= Some(&Saturating(n))`: `None` is less than every `Some`.
abbrev pub reached : Option ℕ → ℕ → Bool
reached none n = false
reached (some m) n = leb n m

pub exclude : ExitSelectionState → OneExit → Bool
exclude s candidate =
    any (λ id. str_eq id candidate.id) s.selected_exit_ids
    || (reached (lookup nat_keys candidate.datacenter_id s.selected_datacenters) 2
        || (reached (lookup city_keys candidate.city_code s.selected_cities) 4
            || reached (lookup text_keys candidate.city_code.country_code s.selected_countries) 6))

-- `rank`, a tuple that is compared from the left.
pub record Rank : Type 0 where
  pub is_preferred : Bool
  pub same_city : Bool
  pub same_country : Bool
  pub tier : ℕ
  pub random : ℕ

pub rank : OneExit → CityCode → List String → ℕ → Rank
rank candidate relay_city_code relay_preferred_exits random = record {
  is_preferred = any (λ id. str_eq id candidate.id) relay_preferred_exits;
  same_city = city_eq relay_city_code candidate.city_code;
  same_country = str_eq relay_city_code.country_code candidate.city_code.country_code;
  tier = candidate.tier;
  random = random;
}

abbrev pub bit : Bool → ℕ
bit true = 1
bit false = 0

-- `a < b`, or `a == b` and the rest decides.
abbrev pub lex : ℕ → ℕ → Bool → Bool
lex a b rest = ltb a b || (a == b && rest)

-- `a <= b` for ranks.
pub rank_le : Rank → Rank → Bool
rank_le a b = lex (bit a.is_preferred) (bit b.is_preferred) (
    lex (bit a.same_city) (bit b.same_city)
      (lex (bit a.same_country) (bit b.same_country) (lex a.tier b.tier (leb a.random b.random))))

-- One step of `Iterator::max_by_key`.
pub better_of : OneExit × Rank → OneExit × Rank → OneExit × Rank
better_of best next = if rank_le best.1 next.1 then next else best

-- `Iterator::max_by_key` from the best so far: of equal ranks the last wins.
pub best_from : (OneExit → ℕ → Rank) → (ℕ → ℕ) → ℕ → OneExit × Rank → List OneExit → OneExit × Rank
best_from key random i best [] = best
best_from key random i best (e ∷ es) =
    best_from key random (suc i) (better_of best (e, key e (random i))) es

pub max_by_key : (OneExit → ℕ → Rank) → (ℕ → ℕ) → List OneExit → Option OneExit
max_by_key key random [] = none
max_by_key key random (e ∷ es) = some (best_from key random 1 (e, key e (random 0)) es).0

pub candidates : ExitSelectionState → ExitSelector → List OneExit → List OneExit
candidates s selector exits = retain (λ e. not (exclude s e)) (retain (matches selector) exits)

-- `*map.entry(k).or_insert(Saturating(0)) += 1` on Saturating<u8>.
pub count_up : {K : Type 0} → Eq K → K → List (K × ℕ) → List (K × ℕ)
count_up keys k m = insert keys k (min 255 (unwrap_or (lookup keys k m) 0 + 1)) m

pub note_selected : OneExit → ExitSelectionState → ExitSelectionState
note_selected e s = record {
  selected_exit_ids = e.id ∷ s.selected_exit_ids;
  selected_datacenters = count_up nat_keys e.datacenter_id s.selected_datacenters;
  selected_cities = count_up city_keys e.city_code s.selected_cities;
  selected_countries = count_up text_keys e.city_code.country_code s.selected_countries;
}

abbrev pub after_selection : Option OneExit → ExitSelectionState → ExitSelectionState
after_selection none s = default_state
after_selection (some e) s = note_selected e s

pub select_next_exit :
    ExitSelector
    → List OneExit
    → OneRelay
    → (ℕ → ℕ)
    → ExitSelectionState
    → ExitSelectionState × Option OneExit
select_next_exit selector exits relay random s =
    let key = λ (e : OneExit) (r : ℕ). rank e relay.city_code relay.preferred_exits r in
    let selected = max_by_key key random (candidates s selector exits) in
    (after_selection selected s, selected)
