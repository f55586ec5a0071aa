-- ===== src/SharedMutex/ReaderPreferring/Tests.antt =====
-- Runs of `ReaderPreferringSharedTimedMutex`, and its theorems at states that they reach.
use concurrency_cpp.Base.{ℕ, ◌^◌, ◌≡◌, refl, ◌≢◌, true, false, some, [], ◌∷◌, arith, get_elem?}
use concurrency_cpp.SharedMutex.ReaderPreferring.{
  Pc, outside, waiting_writer, writer, reader, lock, lock_shared, call_lock, call_lock_shared,
  System, Step, move, Reach, start, later,
}
use concurrency_cpp.SharedMutex.ReaderPreferring.Invariant.{reads, writes, writer_is_alone}
use concurrency_cpp.SharedMutex.ReaderPreferring.Refinement.{preferring-OwnerStep}
use concurrency_cpp.SharedMutex.Spec.{OwnerStep}
use concurrency_cpp.Base.Threads.{total}
use concurrency_cpp.SharedMutex.ReaderPreferring.Wakeups.{Awaits, no_sleeper_alone}

abbrev writing : System
writing = record { state = 2 ^ 31; threads = writer ∷ outside true ∷ [] }

Reach-writing : Reach 2 writing
unfolding lock
Reach-writing = later start (move 0 refl call_lock)

-- A writer sleeps while a reader reads, and a second reader still gets in.
abbrev overtaken : System
overtaken = record { state = 2; threads = reader ∷ waiting_writer false true ∷ reader ∷ [] }

Reach-overtaken : Reach 3 overtaken
unfolding lock lock_shared
Reach-overtaken =
    later (later (later start (move 0 refl call_lock_shared)) (move 1 refl call_lock))
      (move 2 refl call_lock_shared)

writer_is_alone_example :
    (get_elem? writing.threads 1 ≢ some writer) × (get_elem? writing.threads 1 ≢ some reader)
writer_is_alone_example = writer_is_alone Reach-writing 0 1 (omega arith) refl

no_sleeper_alone_example :
    (j : ℕ) × (q : Pc) × (get_elem? overtaken.threads j ≡ some q)
    × Awaits (waiting_writer false true) q
no_sleeper_alone_example = no_sleeper_alone (omega arith) Reach-overtaken 1 refl (omega arith)

-- The same, with the second reader yet to come.
abbrev barely : System
barely = record { state = 1; threads = reader ∷ waiting_writer false true ∷ outside true ∷ [] }

Reach-barely : Reach 3 barely
unfolding lock lock_shared
Reach-barely = later (later start (move 0 refl call_lock_shared)) (move 1 refl call_lock)

Step-overtaken : Step barely overtaken
unfolding lock_shared
Step-overtaken = move 2 refl call_lock_shared

preferring-OwnerStep_example :
    OwnerStep
      (total writes barely.threads)
      (total reads barely.threads)
      (total writes barely.threads)
      (total reads overtaken.threads)
      (total writes overtaken.threads)
preferring-OwnerStep_example = preferring-OwnerStep Reach-barely Step-overtaken
