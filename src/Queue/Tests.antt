-- ===== src/Queue/Tests.antt =====
-- Runs of the circle queue, and its theorems at concrete queues and schedules.
use iocp_server.Base.{
  ℕ, ◌≤◌, ◌<◌, ◌≡◌, refl, true, List, [], ◌∷◌, ◌++◌, arith, length, replicate, set,
}
use iocp_server.Queue.{CircleQueue, init, size, capacity, print, print_from}
use iocp_server.Queue.Bounds.{IsValid, size_lem}
use iocp_server.Queue.Fifo.{Call, pushes, pops, peeks, asks_empty, asks_size, clears, answers}
use iocp_server.Queue.Refine.{contents}
use iocp_server.Queue.Session.{operate, session, operate-IsValid, session_refines, print_lem}
use iocp_server.Queue.Threads.{Turn, produces, works, start, produce, work, step, run}
use iocp_server.Queue.Threads.Safety.{delivered_in_order, no_race, ReadsSlot}
use iocp_server.Queue.Threads.Progress.{worker_drains, Drained, rounds}

-- 5, then 6, round the end of the buffer.
abbrev wrapped : CircleQueue ℕ
wrapped = record {
  input_index = 1;
  output_index = 99;
  buffer = set (set (replicate 100 0) 99 5) 0 6;
}

wrapped-IsValid : IsValid wrapped
wrapped-IsValid = omega arith

contents-wrapped : contents 0 wrapped ≡ 5 ∷ 6 ∷ []
contents-wrapped = refl

print-wrapped : print 0 wrapped ≡ 5 ∷ 6 ∷ []
unfolding print print_from size
print-wrapped = refl

abbrev script : List (Call ℕ)
script = pushes 7 ∷ asks_size ∷ peeks ∷ pops ∷ pops ∷ pops ∷ asks_empty ∷ pops ∷ clears ∷ []

session_refines_example : session 0 wrapped script ≡ answers 0 (5 ∷ 6 ∷ []) script
session_refines_example = session_refines 0 script wrapped-IsValid

operate-IsValid_example : IsValid (operate 0 wrapped (pushes 7)).1
operate-IsValid_example = operate-IsValid 0 (pushes 7) wrapped-IsValid

print_lem_example : print 0 wrapped ≡ contents 0 wrapped
print_lem_example = print_lem 0 wrapped-IsValid

size_lem_example : (size wrapped ≡ 2) × (size wrapped < capacity wrapped)
size_lem_example = size_lem wrapped-IsValid

-- One push of 7.
abbrev pushing : List (Turn ℕ)
pushing = produces 7 ∷ produces 7 ∷ produces 7 ∷ produces 7 ∷ []

-- With it the worker comes as far as `Front`, and a push of 8 as far as the slot.
abbrev racing : List (Turn ℕ)
racing =
    pushing ++ works true true ∷ works true true ∷ works true true ∷ produces 8 ∷ produces 8 ∷ []

delivered_in_order_example :
    let s = run 0 racing (start 0) in
    ((later : List ℕ) × (s.published ≡ s.delivered ++ later) × (length later ≤ 99))
    × ((held_back : List ℕ) × (s.delivered ≡ s.popped ++ held_back) × (length held_back ≤ 1))
delivered_in_order_example = delivered_in_order 0 racing

no_race_example : ¬ ReadsSlot (run 0 racing (start 0)).worker 1
unfolding run start step produce work init
no_race_example = no_race 0 racing 1 refl

worker_drains_example :
    let s = run 0 pushing (start 0) in Drained 0 s (run 0 (rounds (length (contents 0 s.shared))) s)
unfolding run start step produce work init
worker_drains_example = worker_drains 0 pushing refl
