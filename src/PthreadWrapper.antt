-- ===== src/PthreadWrapper.antt =====
-- pthread_wrapper: `PThreadSharedMutex`, `PThreadSpinLockWrapper` and `PThreadLocalPtr`. The pthread
-- functions are not part of the program: they are parameters, each taking a handle to a result code and a handle.
pub mod SharedMutex
pub mod SpinLock
pub mod LocalPtr
mod Tests

-- The codes that the wrappers name.
pub data Errno : Type 0 where
  success enomem eagain eperm ebusy einval edeadlk : Errno

pub data Exception : Type 0 where
  bad_alloc resource_unavailable_try_again operation_not_permitted resource_deadlock_would_occur :
      Exception

-- How a call ends: it returns a value, throws, or an assertion fails.
pub data Outcome {ℓ} (A : Type ℓ) : Type ℓ where
  returns : A → Outcome A
  throws : Exception → Outcome A
  asserts : Outcome A

-- Of a call that returns nothing.
pub data Void : Type 0 where
  void : Void

-- `assert(ret == 0)`
abbrev pub asserted : {A : Type 0} → Errno → A → Outcome A
asserted success a = returns a
asserted enomem a = asserts
asserted eagain a = asserts
asserted eperm a = asserts
asserted ebusy a = asserts
asserted einval a = asserts
asserted edeadlk a = asserts
