-- ===== src/Backoff.antt =====
-- rustlib/src/backoff.rs: the waiting times between attempts, in nanoseconds. A random number is an
-- argument, reduced to the range that the source draws from.
pub mod Waits
mod Tests
use obscuravpn_client.Prelude.{
  ℕ, suc, ◌+◌, ◌-◌, ◌*◌, ◌/◌, ◌%◌, ◌^◌, min, Bool, true, false, Option, none, some, List, [], ◌∷◌,
  ◌==◌, if◌then◌else◌,
}

pub record Backoff : Type 0 where
  pub base : ℕ
  pub max : ℕ

pub record BackoffIter : Type 0 where
  pub backoff : Backoff
  pub attempts : ℕ
  pub next : ℕ

abbrev pub background : Backoff
background = record { base = 1000000000; max = 60 * 1000000000 }

-- `Duration::MAX`.
abbrev pub duration_max : ℕ
duration_max = 2 ^ 64 * 1000000000 - 1

pub take : Backoff → ℕ → BackoffIter
take b attempts = record { backoff = b; attempts = attempts; next = 0 }

-- `gen_range(low..=high)`.
abbrev pub gen_range : ℕ → ℕ → ℕ → ℕ
gen_range draw low high = low + draw % (high - low + 1)

-- `Iterator::next`.
pub next_wait : ℕ → BackoffIter → BackoffIter × Option ℕ
next_wait draw i =
    if i.attempts == 0
    then (i, none)
    else if i.next == 0
    then (record { backoff = i.backoff; attempts = i.attempts - 1; next = i.backoff.base }, some 0)
    else (
      record {
        backoff = i.backoff;
        attempts = i.attempts - 1;
        next = min (min (i.next * 2) duration_max) i.backoff.max;
      },
      some (gen_range draw (i.next / 2) i.next),
    )

abbrev pub collected : Option ℕ → List ℕ → List ℕ
collected none waits = []
collected (some w) waits = w ∷ waits

-- The waits that a loop `while backoff.wait().await` makes, with the random numbers drawn.
unfoldable pub waits : List ℕ → BackoffIter → List ℕ
waits [] i = []
waits (draw ∷ draws) i = collected (next_wait draw i).1 (waits draws (next_wait draw i).0)
