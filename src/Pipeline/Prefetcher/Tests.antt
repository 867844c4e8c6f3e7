-- ===== src/Pipeline/Prefetcher/Tests.antt =====
-- Streams of one and of two keys, at depth 1, and the theorems at them.
use distributed_image_proces.Prelude.{
  ◌+◌, ◌*◌, ◌≤◌, String, ◌≡◌, refl, none, some, List, [], ◌∷◌, map, length, pos,
}
use distributed_image_proces.Pipeline.Prefetcher.{
  GetAnswer, whole, item_of, new_prefetcher, filled, Streaming, new_stream, Event, produces,
  quits_producing, emits, quits_emitting, fills, releases, produce, quit_producing, receive_none,
  emit_next, quit_emitting, release_token, fetch, fill, step, Run, starts, moves,
}
use distributed_image_proces.Pipeline.Prefetcher.Order.{offered}
use distributed_image_proces.Pipeline.Prefetcher.Bounds.{running, Run-buffered}
use distributed_image_proces.Pipeline.Prefetcher.Completion.{Run-length}
use distributed_image_proces.Pipeline.Prefetcher.Endings.{Stuck, Run-Done, Run-complete, Done}

abbrev store : String → GetAnswer
store key = whole (7 ∷ [])

abbrev one_key : List String
one_key = "a" ∷ []

-- The state after some events; one that cannot happen changes nothing.
abbrev after : Event → Streaming → Streaming
unfolding step produce emit_next fill release_token receive_none fetch item_of quit_producing
    quit_emitting
after e s = elim (step store 1 e s) [ none ↦ s | some s' ↦ s' ]

abbrev play : List Event → Streaming → Streaming
play [] s = s
play (e ∷ es) s = play es (after e s)

abbrev all_of_one : List Event
all_of_one =
    produces ∷ produces ∷ fills 0 ∷ releases ∷ emits ∷ emits ∷ emits ∷ produces ∷ emits ∷ []

abbrev at_end : Streaming
unfolding new_stream
at_end = play all_of_one (new_stream one_key)

gives_item : at_end.emitted ≡ fetch store "a" ∷ []
unfolding fetch item_of at_end after
gives_item = refl

-- At depth 1: one object is in the emitter's hand, and another one is fetched behind it.
abbrev two_ahead : Streaming
unfolding new_stream
two_ahead =
    play
      (produces
        ∷ produces
        ∷ emits
        ∷ fills 0
        ∷ releases
        ∷ produces
        ∷ produces
        ∷ fills 1
        ∷ releases
        ∷ [])
      (new_stream ("a" ∷ "b" ∷ []))

keeps_two :
    (two_ahead.futures ≡ filled (fetch store "a") ∷ filled (fetch store "b") ∷ [])
    × (two_ahead.emitted ≡ [])
unfolding fetch item_of two_ahead after
keeps_two = (refl, refl)

one-Run : Run store (new_prefetcher (pos 1)) one_key 9 at_end
unfolding step produce emit_next fill release_token receive_none fetch item_of new_prefetcher
    new_stream at_end two_ahead after
one-Run = moves emits refl (
    moves produces refl (
      moves emits refl (
        moves emits refl (
          moves emits refl (
            moves releases refl
              (moves (fills 0) refl (moves produces refl (moves produces refl starts))))))))

at_end-Stuck : Stuck store 1 at_end
unfolding step produce emit_next fill release_token receive_none quit_producing quit_emitting
    new_stream at_end after
at_end-Stuck produces = refl
at_end-Stuck quits_producing = refl
at_end-Stuck emits = refl
at_end-Stuck quits_emitting = refl
at_end-Stuck (fills i) = refl
at_end-Stuck releases = refl

two-Run : Run store (new_prefetcher (pos 1)) ("a" ∷ "b" ∷ []) 9 two_ahead
unfolding step produce emit_next fill release_token receive_none fetch item_of new_prefetcher
    new_stream at_end two_ahead after
two-Run = moves releases refl (
    moves (fills 1) refl (
      moves produces refl (
        moves produces refl (
          moves releases refl (
            moves (fills 0) refl
              (moves emits refl (moves produces refl (moves produces refl starts))))))))

Run-buffered_example :
    (running two_ahead.futures ≤ (new_prefetcher (pos 1)).depth)
    × (length two_ahead.futures + length (offered two_ahead.emitter)
        ≤ (new_prefetcher (pos 1)).depth + 1)
Run-buffered_example = Run-buffered store (new_prefetcher (pos 1)) ("a" ∷ "b" ∷ []) two-Run

Run-length_example : 9 ≤ 7 * length one_key + 3
Run-length_example = Run-length store (new_prefetcher (pos 1)) one_key one-Run

Run-Done_example : Done at_end
unfolding new_prefetcher
Run-Done_example = Run-Done store (pos 1) one_key one-Run at_end-Stuck

Run-complete_example : at_end.emitted ≡ map (fetch store) one_key
unfolding new_prefetcher at_end after new_stream
Run-complete_example = Run-complete store (pos 1) one_key one-Run at_end-Stuck refl
