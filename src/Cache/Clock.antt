-- ===== src/Cache/Clock.antt =====
-- internal/cache/clock.go. The ring is a list of ids with their reference bits, which stands for the
-- map `els` too; the hand is the id of the element that it points to.
pub mod Sweep
pub mod Laws
use distributed_image_proces.Prelude.{
  has, ℕ, zero, suc, String, ite, Bool, true, false, Option, none, some, List, [], ◌∷◌,
  if◌then◌else◌, string_discrete, length, insert, delete, lookup_or, sum_map,
}
use distributed_image_proces.Cache.Policy.{EvictionPolicy}

abbrev pub Ring : Type 0
Ring = List (String × Bool)

pub record ClockPolicy : Type 0 where
  pub ring : Ring
  pub hand : Option String

-- NewClock
unfoldable pub new_clock : ClockPolicy
new_clock = record { ring = []; hand = none }

-- Add. A write to a list that has not got the id puts it at the back.
unfoldable pub add : String → ClockPolicy → ClockPolicy
add id p = record p { ring = insert id true p.ring }

unfoldable pub access : String → ClockPolicy → ClockPolicy
access id p = if has id p.ring then record p { ring = insert id true p.ring } else p

-- `el.Next()`, or the front id when there is none.
unfoldable pub next_or : String → String → Ring → String
next_or front id [] = front
next_or front id ((j, _) ∷ []) = front
next_or front id ((j, _) ∷ (i, b) ∷ m) =
    let rest = next_or front id ((i, b) ∷ m) in ite (string_discrete id j) i rest

unfoldable pub advance : String → Ring → String
unfolding next_or
advance id [] = id
advance id ((j, b) ∷ m) = next_or j id ((j, b) ∷ m)

-- Victim's loop, with the hand at `id`.
unfoldable pub sweep : ℕ → String → Ring → Option String × ClockPolicy
unfolding advance
sweep zero id m = (none, record { ring = m; hand = some id })
sweep (suc fuel) id m =
    let rest = sweep fuel (advance id m) (insert id false m) in
    if lookup_or id false m then rest else (some id, record { ring = m; hand = some id })

-- The set bits, of which every turn that goes on clears one.
unfoldable pub set_bits : Ring → ℕ
set_bits m = sum_map (λ b. if b then 1 else 0) m

-- Victim, on the ring and the hand.
unfoldable pub sweep_from : Option String → Ring → Option String × ClockPolicy
unfolding sweep set_bits
sweep_from h [] = (none, record { ring = []; hand = h })
sweep_from none ((j, b) ∷ m) = sweep (suc (set_bits ((j, b) ∷ m))) j ((j, b) ∷ m)
sweep_from (some id) ((j, b) ∷ m) = sweep (suc (set_bits ((j, b) ∷ m))) id ((j, b) ∷ m)

-- Victim
unfoldable pub victim : ClockPolicy → Option String × ClockPolicy
unfolding sweep_from
victim p = sweep_from p.hand p.ring

-- The hand after the removal of `id`.
unfoldable pub step_off : String → ClockPolicy → Option String
unfolding advance
step_off id p = elim p.hand [
  | none ↦ none
  | some h ↦
      let next = advance id p.ring in
      ite (string_discrete h id) (ite (string_discrete next id) none (some next)) (some h)
]

-- Remove
unfoldable pub remove : String → ClockPolicy → ClockPolicy
unfolding step_off
remove id p = if has id p.ring then record { ring = delete id p.ring; hand = step_off id p } else p

unfoldable pub clock_policy : EvictionPolicy ClockPolicy
unfolding add access victim remove
clock_policy = record {
  add = add;
  access = access;
  victim = victim;
  remove = remove;
  len = λ p. length p.ring;
}
