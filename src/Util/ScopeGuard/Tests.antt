-- ===== src/Util/ScopeGuard/Tests.antt =====
-- A guard is moved to another one, which is destroyed.
use concurrency_cpp.Base.{◌+◌, ◌≡◌, refl, true, none, some, [], ◌∷◌}
use concurrency_cpp.Base.Threads.{total}
use concurrency_cpp.Util.ScopeGuard.{
  make, make_with, move_from, destroy, World, Reach, start, later, call_make_with, call_move,
  call_destroy,
}
use concurrency_cpp.Util.ScopeGuard.Ledger.{times, alive, will_run, actions_balance}

abbrev moved_and_destroyed : World
moved_and_destroyed = record {
  guards = some (record { released = true; post = 8 }) ∷ none ∷ [];
  run = 7 ∷ 8 ∷ [];
  made = 7 ∷ 8 ∷ [];
  dropped = [];
}

moved_and_destroyed-Reach : Reach moved_and_destroyed
unfolding make make_with move_from destroy
moved_and_destroyed-Reach =
    later (later (later start (call_make_with 7 8)) (call_move 0 (make 8) refl))
      (call_destroy 1 (make 8) refl)

actions_balance_example :
    (total (will_run 8) moved_and_destroyed.guards + times 8 (7 ∷ 8 ∷ []) + times 8 []
      ≡ times 8 (7 ∷ 8 ∷ []))
    × (total alive moved_and_destroyed.guards ≡ 0
        → times 8 (7 ∷ 8 ∷ []) + times 8 [] ≡ times 8 (7 ∷ 8 ∷ []))
actions_balance_example = actions_balance 8 moved_and_destroyed-Reach
