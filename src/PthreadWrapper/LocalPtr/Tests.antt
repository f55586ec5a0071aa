-- ===== src/PthreadWrapper/LocalPtr/Tests.antt =====
-- Two threads use a pointer, over keys that are kept in functions.
use concurrency_cpp.Base.{
  arith, ℕ, suc, ◌≡◌, refl, ◌↔◌, Option, none, some, List, [], ◌∷◌, if◌then◌else◌, ◌==◌, ◌&&◌,
  ==-refl, ==_false,
}
use concurrency_cpp.PthreadWrapper.LocalPtr.{
  ThreadSpecific, Event, dereferences, ends, make, gets, happen,
}
use concurrency_cpp.PthreadWrapper.LocalPtr.Deletion.{IsAccounted, objects_deleted_once}
use concurrency_cpp.PthreadWrapper.LocalPtr.Objects.{Documented, one_object_per_thread}

-- The next key, and what the threads hold under the keys.
abbrev Keys : Type 0
Keys = ℕ × (ℕ → ℕ → Option ℕ)

abbrev simple_pthread : ThreadSpecific Keys
simple_pthread = record {
  pthread_key_create =
      λ s. (0, s.0, (suc s.0, λ thread key. if s.0 == key then none else s.1 thread key));
  pthread_key_delete = λ key s. s;
  pthread_getspecific = λ thread key s. s.1 thread key;
  pthread_setspecific = λ thread key t s. (
    0,
    (s.0, λ thread' key'. if thread == thread' && (key == key') then some t else s.1 thread' key'),
  );
  pthread_exit = λ thread key s. (
    s.1 thread key,
    (s.0, λ thread' key'. if thread == thread' && (key == key') then none else s.1 thread' key'),
  );
}

simple_pthread-Documented : Documented simple_pthread
simple_pthread-Documented = record {
  set_succeeds = λ thread key t s. refl;
  get-set = λ thread key t s success. rw (==-refl thread, ==-refl key) refl;
  get-set_other = λ thread other key t s ne. rw (==_false thread other ne) refl;
  get-create = λ thread s success. rw (==-refl s.0) refl;
  exit-get = λ thread key s. refl;
  get-exit = λ thread key s. rw (==-refl thread, ==-refl key) refl;
  get-exit_other = λ thread other key s ne. rw (==_false thread other ne) refl;
}

abbrev no_keys : Keys
no_keys = (0, λ thread key. none)

three_gets :
    (gets simple_pthread (5 ∷ 6 ∷ 5 ∷ []) (make simple_pthread 40 no_keys)).0 ≡ 40 ∷ 41 ∷ 40 ∷ []
unfolding gets make
three_gets = refl

abbrev object : ℕ
object = 40

abbrev thread : ℕ
thread = 5

one_object_per_thread_example : (object ≡ object) ↔ (thread ≡ thread)
unfolding gets make
one_object_per_thread_example =
    one_object_per_thread simple_pthread simple_pthread-Documented 40 no_keys (5 ∷ 6 ∷ 5 ∷ []) refl
      0 2 thread thread object object refl refl refl refl

-- Both threads make an object, and thread 5 ends.
abbrev script : List Event
script = dereferences 5 ∷ dereferences 6 ∷ ends 5 ∷ dereferences 6 ∷ []

script_run : (happen simple_pthread script (make simple_pthread 40 no_keys, [])).1 ≡ object ∷ []
unfolding happen make
script_run = refl

objects_deleted_once_example :
    IsAccounted simple_pthread
      (happen simple_pthread script (make simple_pthread 40 no_keys, [])).0
      (happen simple_pthread script (make simple_pthread 40 no_keys, [])).1
      41
unfolding happen make
objects_deleted_once_example =
    objects_deleted_once simple_pthread simple_pthread-Documented 40 no_keys script refl 41
      (omega arith) (omega arith)
