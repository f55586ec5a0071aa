-- ===== src/Util/BlockingLruCache/Tests.antt =====
-- Two threads on a blocking cache of two pairs.
unfoldable use native.Mathlib.Decide.{ℕ_discrete}
use concurrency_cpp.Base.{
  ℕ, suc, ◌≡◌, refl, true, false, Option, none, some, [], ◌∷◌, arith, get_elem?, replicate,
}
use concurrency_cpp.Util.LruCache.{
  Cache, make, list_insert_head, list_release, gc1, insert_new, overwrite, set_value, emplace,
  erase_node,
}
use concurrency_cpp.Util.LruCache
use concurrency_cpp.Util.LruCache.History.{Answer, done, set_call, call, calls, ideals}
use concurrency_cpp.Util.BlockingLruCache.{
  BlockingCall, set_blocking, get_copy, forwarded, outside, locking, working, unlocking, System,
  begin, take_lock, work, Reach, start, later,
}
use concurrency_cpp.Util.BlockingLruCache.Sequential.{Reach-history}

abbrev idle : System ℕ ℕ ℕ
idle = record {
  unsynced_cache = make 2;
  mtx = false;
  threads = replicate 2 outside;
  history = [];
  answers = [];
}

abbrev both_call : System ℕ ℕ ℕ
both_call = record idle { threads = locking (set_blocking 1 10) ∷ locking (get_copy 1) ∷ [] }

abbrev first_works : System ℕ ℕ ℕ
first_works = record both_call {
  mtx = true;
  threads = working (set_blocking 1 10) (make 2) ∷ locking (get_copy 1) ∷ [];
}

first_works-Reach : Reach ℕ_discrete suc 2 2 first_works
first_works-Reach =
    later (later (later start (begin 0 (set_blocking 1 10) refl)) (begin 1 (get_copy 1) refl))
      (take_lock 0 (set_blocking 1 10) refl refl)

abbrev result : Option (Answer ℕ ℕ × Cache ℕ ℕ) → Answer ℕ ℕ × Cache ℕ ℕ
result none = (done, make 2)
result (some r) = r

abbrev first_set : Answer ℕ ℕ × Cache ℕ ℕ
first_set = result (call ℕ_discrete suc (set_call 1 10) (make 2))

abbrev first_worked : System ℕ ℕ ℕ
first_worked = record first_works {
  unsynced_cache = first_set.1;
  threads = unlocking first_set.0 ∷ locking (get_copy 1) ∷ [];
  history = set_call 1 10 ∷ [];
  answers = first_set.0 ∷ [];
}

first_worked-Reach : Reach ℕ_discrete suc 2 2 first_worked
unfolding call ℕ_discrete make LruCache.set emplace insert_new list_insert_head
first_worked-Reach =
    later first_works-Reach (work 0 (set_blocking 1 10) (make 2) first_set refl refl)

Reach-history_example :
    (calls ℕ_discrete suc (set_call 1 10 ∷ []) (make 2) ≡ some (first_set.0 ∷ [], first_set.1))
    × (first_set.0 ∷ [] ≡ (ideals ℕ_discrete suc 2 (set_call 1 10 ∷ []) []).0)
    × ((i : ℕ) (c : BlockingCall ℕ ℕ) (found : Cache ℕ ℕ)
        → get_elem? first_worked.threads i ≡ some (working c found)
        → (r : Answer ℕ ℕ × Cache ℕ ℕ) × (call ℕ_discrete suc (forwarded c) found ≡ some r))
Reach-history_example = Reach-history ℕ_discrete suc (omega arith) first_worked-Reach
