-- ===== src/PthreadWrapper/LocalPtr.antt =====
-- `PThreadLocalPtr` of pthread_wrapper/pthread_local_ptr.h. The pthread functions are parameters; `T`
-- objects are addresses, and `new` takes the next one.
pub mod Objects
pub mod Deletion
mod Tests
use concurrency_cpp.Base.{
  ℕ, suc, ◌≡◌, ◌≢◌, Bool, true, false, Option, none, some, List, [], ◌∷◌, if◌then◌else◌, ◌==◌,
}

-- `S`: what the threads hold under the keys. `pthread_key_create` gives a code and a key.
-- `pthread_exit`, the end of a thread, says what it passes to the destructor of a key.
pub record ThreadSpecific (S : Type 0) : Type 0 where
  pub pthread_key_create : S → ℕ × ℕ × S
  pub pthread_key_delete : ℕ → S → S
  pub pthread_getspecific : (thread key : ℕ) → S → Option ℕ
  pub pthread_setspecific : (thread key object : ℕ) → S → ℕ × S
  pub pthread_exit : (thread key : ℕ) → S → Option ℕ × S

-- What a thread does about a pointer: it dereferences it, or ends.
pub data Event : Type 0 where
  dereferences : (thread : ℕ) → Event
  ends : (thread : ℕ) → Event

-- The destructor of the key: the objects deleted so far, the last one first.
unfoldable pub deleter : ℕ → List ℕ → List ℕ
deleter t deleted = t ∷ deleted

module _ {S : Type 0} (pthread : ThreadSpecific S) where
  pub record LocalPtr : Type 0 where
    pub key : ℕ
    pub valid : Bool
    pub specific : S
    pub allocated : ℕ

  -- What a thread holds.
  abbrev pub held : ℕ → LocalPtr → Option ℕ
  held thread l = pthread.pthread_getspecific thread l.key l.specific

  -- The constructor, where `allocated` is the next address.
  unfoldable pub make : ℕ → S → LocalPtr
  make allocated s =
      let (ret, key, s') = pthread.pthread_key_create s in
      record {
        key = key;
        valid = (if ret == 0 then true else false);
        specific = s';
        allocated = allocated;
      }

  unfoldable pub is_valid : LocalPtr → Bool
  is_valid l = l.valid

  unfoldable pub destroy : LocalPtr → S
  destroy l = pthread.pthread_key_delete l.key l.specific

  -- `new T(args...)`, and the code of `pthread_setspecific` is not looked at.
  unfoldable pub initialize : ℕ → LocalPtr → ℕ × LocalPtr
  initialize thread l =
      let t = l.allocated in
      (
        t,
        record l {
          specific = (pthread.pthread_setspecific thread l.key t l.specific).1;
          allocated = suc l.allocated;
        },
      )

  unfoldable pub get : ℕ → LocalPtr → ℕ × LocalPtr
  unfolding initialize
  get thread l = elim (pthread.pthread_getspecific thread l.key l.specific) [
    | some t ↦ (t, l)
    | none ↦ initialize thread l
  ]

  -- Calls by several threads, one after the other, and the objects that they get.
  unfoldable pub gets : List ℕ → LocalPtr → List ℕ × LocalPtr
  unfolding get
  gets [] l = ([], l)
  gets (thread ∷ threads) l =
      let (t, l') = get thread l in let rest = gets threads l' in (t ∷ rest.0, rest.1)

  unfoldable pub end_thread : ℕ → LocalPtr × List ℕ → LocalPtr × List ℕ
  unfolding deleter
  end_thread thread (l, deleted) =
      let (t, s) = pthread.pthread_exit thread l.key l.specific in
      (record l { specific = s }, elim t [ none ↦ deleted | some t ↦ deleter t deleted ])

  unfoldable pub happens : Event → LocalPtr × List ℕ → LocalPtr × List ℕ
  unfolding get end_thread
  happens (dereferences thread) (l, deleted) = ((get thread l).1, deleted)
  happens (ends thread) u = end_thread thread u

  unfoldable pub happen : List Event → LocalPtr × List ℕ → LocalPtr × List ℕ
  unfolding happens
  happen [] u = u
  happen (e ∷ es) u = happen es (happens e u)
