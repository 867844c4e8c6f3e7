-- ===== src/Pipeline/Prefetcher.antt =====
-- internal/pipeline/prefetcher.go: Prefetcher and Stream. The goroutines of one Stream take their steps
-- in any order: the one that starts the fetches, the fetches, and the one that hands the items to the
-- consumer. What `get` and io.ReadAll answer for a key is the parameter `get`, and the texts of the
-- errors are left out.
pub mod Order
pub mod Bounds
pub mod Completion
pub mod Endings
mod Tests
use distributed_image_proces.Prelude.{
  ◌>>=◌, ◌≡◌, ℕ, zero, suc, ◌+◌, ◌-◌, String, Bool, true, false, Option, none, some, List, [], ◌∷◌,
  ◌++◌, ltb, if◌then◌else◌, length, ℤ, pos, pos_part, ltb_ℤ,
}

-- What `get` answers, and then io.ReadAll.
pub data GetAnswer : Type 0 where
  refused : GetAnswer
  broken_off : GetAnswer
  whole : List ℕ → GetAnswer

pub data ItemError : Type 0 where
  prefetch_error read_error : ItemError

pub record Item : Type 0 where
  pub key : String
  pub content : List ℕ
  pub err : Option ItemError

-- The item of fetch.
unfoldable pub item_of : String → GetAnswer → Item
item_of key refused = record { key = key; content = []; err = some prefetch_error }
item_of key broken_off = record { key = key; content = []; err = some read_error }
item_of key (whole bytes) = record { key = key; content = bytes; err = none }

pub record Prefetcher : Type 0 where
  pub depth : ℕ

unfoldable pub new_prefetcher : ℤ → Prefetcher
new_prefetcher depth = record { depth = if ltb_ℤ depth (pos 1) then 1 else pos_part depth }

-- A future: its fetch still runs, or the item is in its slot.
pub data Future : Type 0 where
  pending : String → Future
  filled : Item → Future

-- Where the goroutine stands that starts the fetches: it wants a token for the next key, it holds one
-- and has a future to put into the channel, or it has closed the channel.
pub data Producer : Type 0 where
  acquiring : List String → Producer
  sending : String → List String → Producer
  closed : Producer

-- Where the goroutine stands that hands out the items. At the last two it has closed `out`; at
-- `gave_up` it had taken a future out of the channel.
pub data Emitter : Type 0 where
  receiving awaiting : Emitter
  offering : Item → Emitter
  ended gave_up : Emitter

-- The futures are those that the emitter has not read, the oldest first; the one that it waits for
-- is at the head. `returning` counts the fetches that have filled their slot and still hold a token.
pub record Streaming : Type 0 where
  pub producer : Producer
  pub tokens : ℕ
  pub futures : List Future
  pub returning : ℕ
  pub emitter : Emitter
  pub emitted : List Item
  pub cancelled : Bool

-- Stream, before its goroutines run.
unfoldable pub new_stream : List String → Streaming
new_stream keys = record {
  producer = acquiring keys;
  tokens = 0;
  futures = [];
  returning = 0;
  emitter = receiving;
  emitted = [];
  cancelled = false;
}

-- How many of the futures are out of the channel.
abbrev pub off_channel : Emitter → ℕ
off_channel receiving = 0
off_channel awaiting = 1
off_channel (offering it) = 0
off_channel ended = 0
off_channel gave_up = 1

-- `len(futures)`
abbrev pub in_channel : Streaming → ℕ
in_channel s = length s.futures - off_channel s.emitter

abbrev pub cancel : Streaming → Streaming
cancel s = record s { cancelled = true }

-- The steps: of the producer and of the emitter, on each side of their selects; a fetch that fills the
-- slot of the future with this number, and one that gives its token back.
pub data Event : Type 0 where
  produces quits_producing emits quits_emitting : Event
  fills : ℕ → Event
  releases : Event

-- Producer: the loop, with the send on `sem` or on `futures` that it has come to.
unfoldable pub produce : ℕ → Producer → Streaming → Option Streaming
produce depth (acquiring []) s = some (record s { producer = closed })
produce depth (acquiring (key ∷ keys)) s =
    if ltb s.tokens depth
    then some (record s { producer = sending key keys; tokens = s.tokens + 1 })
    else none
produce depth (sending key keys) s =
    if ltb (in_channel s) depth
    then some (record s { producer = acquiring keys; futures = s.futures ++ pending key ∷ [] })
    else none
produce depth closed s = none

-- Producer: the branches of `ctx.Done()`.
unfoldable pub quit_producing : Producer → Streaming → Option Streaming
quit_producing (acquiring []) s = none
quit_producing (acquiring (key ∷ keys)) s =
    if s.cancelled then some (record s { producer = closed }) else none
quit_producing (sending key keys) s =
    if s.cancelled then some (record s { producer = closed; tokens = s.tokens - 1 }) else none
quit_producing closed s = none

-- The receive from an empty channel of futures: it ends the loop once the channel is closed.
unfoldable pub receive_none : Producer → Streaming → Option Streaming
receive_none closed s = some (record s { emitter = ended })
receive_none (acquiring keys) s = none
receive_none (sending key keys) s = none

-- Emitter: the next future, its item, and the send on `out`, where the consumer takes it.
unfoldable pub emit_next : Emitter → List Future → Streaming → Option Streaming
unfolding receive_none
emit_next receiving [] s = receive_none s.producer s
emit_next receiving (f ∷ fs) s = some (record s { emitter = awaiting })
emit_next awaiting [] s = none
emit_next awaiting (pending key ∷ fs) s = none
emit_next awaiting (filled it ∷ fs) s = some (record s { emitter = offering it; futures = fs })
emit_next (offering it) fs s =
    some (record s { emitter = receiving; emitted = s.emitted ++ it ∷ [] })
emit_next ended fs s = none
emit_next gave_up fs s = none

-- Emitter: the branches of `ctx.Done()`.
unfoldable pub quit_emitting : Emitter → Streaming → Option Streaming
quit_emitting receiving s = none
quit_emitting awaiting s = if s.cancelled then some (record s { emitter = gave_up }) else none
quit_emitting (offering it) s = if s.cancelled then some (record s { emitter = ended }) else none
quit_emitting ended s = none
quit_emitting gave_up s = none

-- The deferred receive from `sem`.
unfoldable pub release_token : ℕ → Streaming → Option Streaming
release_token zero s = none
release_token (suc n) s = some (record s { returning = n; tokens = s.tokens - 1 })

module _ (get : String → GetAnswer) where
  unfoldable pub fetch : String → Item
  unfolding item_of
  fetch key = item_of key (get key)

  -- The end of a fetch.
  unfoldable pub fill : ℕ → List Future → Option (List Future)
  unfolding fetch
  fill i [] = none
  fill zero (pending key ∷ fs) = some (filled (fetch key) ∷ fs)
  fill zero (filled it ∷ fs) = none
  fill (suc i) (f ∷ fs) = do fs' ← fill i fs; some (f ∷ fs')

  -- A step of one goroutine; `none` where it has to wait or is not there.
  unfoldable pub step : ℕ → Event → Streaming → Option Streaming
  unfolding produce quit_producing emit_next quit_emitting fill release_token
  step depth produces s = produce depth s.producer s
  step depth quits_producing s = quit_producing s.producer s
  step depth emits s = emit_next s.emitter s.futures s
  step depth quits_emitting s = quit_emitting s.emitter s
  step depth (fills i) s = do
    fs ← fill i s.futures
    some (record s { futures = fs; returning = s.returning + 1 })
  step depth releases s = release_token s.returning s

  -- The states of a Stream of some keys, after a number of steps; the context is cancelled at any time.
  pub data Run (p : Prefetcher) (keys : List String) : ℕ → Streaming → Type 0 where
    starts : Run p keys 0 (new_stream keys)
    moves :
        {n : ℕ} {s s' : Streaming} (e : Event)
        → step p.depth e s ≡ some s'
        → Run p keys n s
        → Run p keys (n + 1) s'
    cancels : {n : ℕ} {s : Streaming} → Run p keys n s → Run p keys n (cancel s)
