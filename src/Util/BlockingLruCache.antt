-- ===== src/Util/BlockingLruCache.antt =====
-- `BlockingLRUCache` of util/lru_cache.h. Each function takes `mtx`, forwards to the cache and gives
-- the mutex back. Between the two a thread works on the cache that it found: it writes what it
-- makes of it at the end.
pub mod Sequential
mod Tests
use concurrency_cpp.Base.{
  ℕ, ◌≡◌, Bool, true, false, Option, some, List, [], ◌∷◌, ◌++◌, get_elem?, set, replicate,
}
use concurrency_cpp.Util.LruCache
use concurrency_cpp.Util.LruCache.{Cache}
use concurrency_cpp.Util.LruCache.History.{
  Call, set_call, get_call, pointee_call, move_call, erase_call, clear_call, Answer, call,
}

pub data BlockingCall (K V : Type 0) : Type 0 where
  set_blocking : K → V → BlockingCall K V
  get_copy : K → BlockingCall K V
  get_copy_pointee : K → BlockingCall K V
  get_move : K → BlockingCall K V
  erase : K → BlockingCall K V
  clear : BlockingCall K V

abbrev pub forwarded : {K V : Type 0} → BlockingCall K V → Call K V
forwarded (set_blocking k v) = set_call k v
forwarded (get_copy k) = get_call k
forwarded (get_copy_pointee k) = pointee_call k
forwarded (get_move k) = move_call k
forwarded (erase k) = erase_call k
forwarded clear = clear_call

-- Where a thread stands: at the mutex, or in its hold of the mutex before or after its work.
pub data Pc (K V P : Type 0) : Type 0 where
  outside : Pc K V P
  locking : BlockingCall K V → Pc K V P
  working : BlockingCall K V → (found : Cache K V) → Pc K V P
  unlocking : Answer V P → Pc K V P

-- `history` and `answers`: the calls that were forwarded, in order, and their results.
pub record System (K V P : Type 0) : Type 0 where
  pub unsynced_cache : Cache K V
  pub mtx : Bool
  pub threads : List (Pc K V P)
  pub history : List (Call K V)
  pub answers : List (Answer V P)

module _ {K V P : Type 0} (eq : Discrete K) (deref : V → P) where
  pub data Step (s : System K V P) : System K V P → Type 0 where
    begin :
        (i : ℕ) (c : BlockingCall K V)
        → get_elem? s.threads i ≡ some outside
        → Step s (record s { threads = set s.threads i (locking c) })
    take_lock :
        (i : ℕ) (c : BlockingCall K V)
        → get_elem? s.threads i ≡ some (locking c)
        → s.mtx ≡ false
        → Step s (record s { mtx = true; threads = set s.threads i (working c s.unsynced_cache) })
    work :
        (i : ℕ) (c : BlockingCall K V) (found : Cache K V) (r : Answer V P × Cache K V)
        → get_elem? s.threads i ≡ some (working c found)
        → call eq deref (forwarded c) found ≡ some r
        → Step s (record s {
          unsynced_cache = r.1;
          threads = set s.threads i (unlocking r.0);
          history = s.history ++ (forwarded c ∷ []);
          answers = s.answers ++ (r.0 ∷ []);
        })
    give_lock :
        (i : ℕ) (a : Answer V P)
        → get_elem? s.threads i ≡ some (unlocking a)
        → Step s (record s { mtx = false; threads = set s.threads i outside })

  -- `n` threads and a new cache.
  pub data Reach (capacity n : ℕ) : System K V P → Type 0 where
    start : Reach capacity n (record {
      unsynced_cache = LruCache.make capacity;
      mtx = false;
      threads = replicate n outside;
      history = [];
      answers = [];
    })
    later : {s t : System K V P} → Reach capacity n s → Step s t → Reach capacity n t
