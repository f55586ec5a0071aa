-- ===== src/Util/LruCache/Tests.antt =====
-- Runs of `LRUCache` with numbers for keys and values, and its theorems at a cache of two pairs.
use mathlib.Core.Logic.{ite}
use native.Mathlib.Decide.{ℕ_discrete}
use concurrency_cpp.Base.{
  ℕ, suc, ◌^◌, ◌≡◌, refl, true, false, Option, none, some, List, [], ◌∷◌, arith,
}
use concurrency_cpp.Util.LruCache.{
  Cache, make, set, get, get_copy_pointee, get_move, has_key, erase, clear, emplace, erase_node,
  set_value, list_insert_head, list_release, list_move_to_head, gc1, insert_new, overwrite,
}
use concurrency_cpp.Util.LruCache.Spec.{lookup, touch, store}
use concurrency_cpp.Util.LruCache.Nodes.{Represents}
use concurrency_cpp.Util.LruCache.Storing.{set-store}
use concurrency_cpp.Util.LruCache.History.{
  Call, set_call, get_call, pointee_call, move_call, has_call, erase_call, Answer, done, value,
  pointee, flag, calls, ideals, history, capacity_truncated,
}

-- The third key drops the one that was not used last.
abbrev script : List (Call ℕ ℕ)
script =
    set_call 1 10
    ∷ set_call 2 20
    ∷ get_call 1
    ∷ set_call 3 30
    ∷ has_call 2
    ∷ has_call 1
    ∷ move_call 3
    ∷ get_call 3
    ∷ set_call 1 11
    ∷ pointee_call 1
    ∷ erase_call 1
    ∷ erase_call 1
    ∷ []

abbrev answers : List (Answer ℕ ℕ)
answers =
    done
    ∷ done
    ∷ value (some 10)
    ∷ done
    ∷ flag false
    ∷ flag true
    ∷ value (some 30)
    ∷ value none
    ∷ done
    ∷ pointee (some 12)
    ∷ flag true
    ∷ flag false
    ∷ []

abbrev answers_of : Option (List (Answer ℕ ℕ) × Cache ℕ ℕ) → List (Answer ℕ ℕ)
answers_of none = []
answers_of (some (as_seen, c)) = as_seen

script_run : answers_of (calls ℕ_discrete suc script (make 2)) ≡ answers
unfolding calls ℕ_discrete make set get get_copy_pointee get_move has_key erase clear emplace
    erase_node set_value list_insert_head list_release list_move_to_head gc1 insert_new overwrite
script_run = refl

script_ideal : (ideals ℕ_discrete suc 2 script []).0 ≡ answers
unfolding ideals ℕ_discrete store touch
script_ideal = refl

history_example :
    (c' : Cache ℕ ℕ) × (calls ℕ_discrete suc script (make 2)
      ≡ some ((ideals ℕ_discrete suc 2 script []).0, c'))
    × Represents c' (ideals ℕ_discrete suc 2 script []).1
history_example = history ℕ_discrete suc script 2 (omega arith)

abbrev two_pairs : Cache ℕ ℕ
two_pairs = record {
  mem = record {
    cells = λ j.
        ite (ℕ_discrete 1 j) (some (record { value = 10; parent = none; child = some 2 }))
          (ite (ℕ_discrete 2 j) (some (record { value = 20; parent = some 1; child = none })) none);
    size = 2;
  };
  capacity = 2;
  head = some 1;
  tail = some 2;
}

abbrev pairs : List (ℕ × ℕ)
pairs = (1, 10) ∷ (2, 20) ∷ []

two_pairs-Represents : Represents two_pairs pairs
unfolding ℕ_discrete
two_pairs-Represents = record {
  holds = record {
    linked = record {
      chain = (refl, (refl, tt));
      distinct = (((λ e. omega arith), tt), (tt, tt));
      head = refl;
      tail = refl;
    };
    size = refl;
    only = λ j h. ground (arith, h.0, h.1.0);
  };
  fits = omega arith;
}

set-store_example :
    (c' : Cache ℕ ℕ) × (set ℕ_discrete 3 30 two_pairs ≡ some c')
    × Represents c' (store ℕ_discrete 2 3 30 pairs)
    × (c'.capacity ≡ 2)
set-store_example = set-store ℕ_discrete two_pairs 3 30 two_pairs-Represents

lookup_two : lookup ℕ_discrete 2 pairs ≡ some 20
unfolding lookup ℕ_discrete
lookup_two = refl

-- The values stand for addresses of cells that hold the next number.
abbrev deref : ℕ → Option ℕ
deref v = some (suc v)

capacity_truncated_example :
    (answers : List (Answer ℕ (Option ℕ))) × (c' : Cache ℕ ℕ) × (calls ℕ_discrete deref
        (set_call 1 10 ∷ get_call 1 ∷ [])
        (make (2 ^ 32))
      ≡ some (answers, c'))
    × ((k : ℕ) → has_key ℕ_discrete k c' ≡ false)
capacity_truncated_example =
    capacity_truncated ℕ_discrete deref (set_call 1 10 ∷ get_call 1 ∷ []) (2 ^ 32) refl
