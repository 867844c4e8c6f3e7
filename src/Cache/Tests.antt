-- ===== src/Cache/Tests.antt =====
-- Small caches under each policy, and the theorems at them.
use distributed_image_proces.Prelude.{
  has, subst, ℕ, String, ◌≡◌, refl, sym, true, false, ◌&&◌, some, [], ◌∷◌, arith, string_discrete,
  lookup, insert,
}
use distributed_image_proces.Cache.Ids.{contains}
use distributed_image_proces.Cache.Policy.{Reclaimed}
use distributed_image_proces.Cache.Eviction.{Entry, Cache, admit}
use distributed_image_proces.Cache.Eviction.Budget.{Consistent, Fits, admit-Fits}
use distributed_image_proces.Cache.Lru.{LruPolicy, lru_policy}
use distributed_image_proces.Cache.Lru.Laws.{lru_laws}
use distributed_image_proces.Cache.Clock.{ClockPolicy, clock_policy}
use distributed_image_proces.Cache.Clock.Laws.{Ok as ClockOk, resident as on_ring, clock-Reclaimed}
use distributed_image_proces.Cache.S3Fifo.{S3Fifo, s3fifo, resident, len}
use distributed_image_proces.Cache.S3Fifo.Queues.{Ok as QueuesOk}
use distributed_image_proces.Cache.S3Fifo.Laws.{s3fifo-Reclaimed}

abbrev entry : String → ℕ → Entry
entry id size = record { id = id; path = id; size = size }

-- Six bytes in two objects, under a budget of eight.
abbrev two : Cache LruPolicy
two = record {
  max_bytes = 8;
  cur_bytes = 6;
  policy = "b" ∷ "a" ∷ [];
  objects = ("a", entry "a" 2) ∷ ("b", entry "b" 4) ∷ [];
  inflight = [];
  hits = 0;
  misses = 2;
}

same_residents : (k : String) → contains k two.policy ≡ has k two.objects
unfolding contains lookup
same_residents k = ground arith

two-Consistent : Consistent lru_policy lru_laws two
unfolding lru_policy lru_laws contains lookup string_discrete
two-Consistent = record {
  ok = (refl, (refl, tt));
  same = same_residents;
  count = refl;
  distinct = (refl, (refl, tt));
  bytes = refl;
}

admit-Fits_example : Fits lru_policy lru_laws 8 (admit lru_policy "c" "c" 5 two)
admit-Fits_example = admit-Fits lru_policy lru_laws "c" "c" 5 two two-Consistent

-- The hand stands on "a", whose bit is set: it gets its second chance, and "b" goes.
abbrev ring : ClockPolicy
ring = record { ring = ("a", true) ∷ ("b", false) ∷ []; hand = some "a" }

ring-Ok : ClockOk ring
unfolding lookup string_discrete
ring-Ok = record { once = (refl, (refl, tt)); on_ring = refl }

clock-Reclaimed_example : Reclaimed clock_policy ClockOk on_ring ring
clock-Reclaimed_example = clock-Reclaimed ring ring-Ok (omega arith)

clock_second_chance : (clock_policy.victim ring).0 ≡ some "b"
unfolding clock_policy lookup string_discrete insert
clock_second_chance = refl

-- "a" was used twice in the small queue and is promoted; "b" goes.
abbrev queues : S3Fifo
queues = record {
  small = ("a", 1) ∷ ("b", 0) ∷ [];
  main = ("c", 2) ∷ [];
  ghost = [];
  ghost_cap = 3;
}

apart_c : (has "c" queues.small && has "c" queues.main) ≡ false
unfolding lookup string_discrete
apart_c = refl

queues_apart : (k : String) → (has k queues.small && has k queues.main) ≡ false
unfolding lookup
queues_apart k = elim (string_discrete k "c") [
  | yes e ↦ subst (λ x. (has x queues.small && has x queues.main) ≡ false) (sym e) apart_c
  | no n ↦ ground (arith, n)
]

queues-Ok : QueuesOk queues
unfolding lookup string_discrete
queues-Ok = record {
  small_once = (refl, (refl, tt));
  main_once = (refl, tt);
  apart = queues_apart;
  bounded = omega arith;
}

s3fifo-Reclaimed_example : Reclaimed s3fifo QueuesOk resident queues
unfolding len
s3fifo-Reclaimed_example = s3fifo-Reclaimed queues queues-Ok (omega arith)

s3fifo_promotes : (s3fifo.victim queues).0 ≡ some "b"
unfolding s3fifo lookup string_discrete insert
s3fifo_promotes = refl
