-- ===== src/Cache/Policy.antt =====
-- EvictionPolicy in internal/cache/policy.go: the operations of the interface, and what the cache
-- relies on.
use distributed_image_proces.Prelude.{
  ℕ, suc, ◌<◌, String, ◌≡◌, ite, Bool, true, false, Option, some, if◌then◌else◌, string_discrete,
}

-- Methods that change the receiver return it. `none` is Victim's `ok == false`.
pub record EvictionPolicy (P : Type 0) : Type 0 where
  pub add : String → P → P
  pub access : String → P → P
  pub victim : P → Option String × P
  pub remove : String → P → P
  pub len : P → ℕ

-- What a Victim followed by a Remove of the id that it names does: one resident goes.
pub record Reclaimed {P : Type 0} (v : EvictionPolicy P) (Ok : P → Type 0)
    (resident : String → P → Bool) (p : P) : Type 0 where
  pub id : String
  pub left : P
  pub answer : v.victim p ≡ (some id, left)
  pub was : resident id p ≡ true
  pub ok : Ok (v.remove id left)
  pub gone :
      (k : String) → resident k (v.remove id left) ≡ ite (string_discrete k id) false (resident k p)
  pub fewer : suc (v.len (v.remove id left)) ≡ v.len p

-- The promise of a policy, over a validity of its state and its set of residents.
pub record PolicyLaws {P : Type 0} (v : EvictionPolicy P) : Type 1 where
  pub Ok : P → Type 0
  pub resident : String → P → Bool
  pub add_ok : (id : String) (p : P) → Ok p → Ok (v.add id p)
  pub add_resident :
      (k id : String) (p : P)
      → Ok p
      → resident k (v.add id p) ≡ ite (string_discrete k id) true (resident k p)
  pub add_len :
      (id : String) (p : P)
      → Ok p
      → v.len (v.add id p) ≡ (if resident id p then v.len p else suc (v.len p))
  pub access_ok : (id : String) (p : P) → Ok p → Ok (v.access id p)
  pub access_resident : (k id : String) (p : P) → Ok p → resident k (v.access id p) ≡ resident k p
  pub access_len : (id : String) (p : P) → Ok p → v.len (v.access id p) ≡ v.len p
  pub reclaim : (p : P) → Ok p → 0 < v.len p → Reclaimed v Ok resident p
