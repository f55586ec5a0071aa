-- ===== src/Semaphore/Guards/Tests.antt =====
-- A scope of three permits, and an adapter of five permits with a deadline.
use concurrency_cpp.Base.{◌+◌, ◌^◌, ◌<◌, ◌≡◌, refl, true, arith}
use concurrency_cpp.Semaphore.Word.{rank, sub_permits, int_geq}
use concurrency_cpp.Semaphore.Simple
use concurrency_cpp.Semaphore.Simple.{pass}
use concurrency_cpp.Semaphore.Guards.{Guard, try_lock_until}
use concurrency_cpp.Semaphore.Guards.OfSimple.{simple_semaphore}

abbrev of_three : Guard
of_three = record { request = 3 }

abbrev of_five : Guard
of_five = record { request = 5 }

until_run : try_lock_until simple_semaphore of_five 10 ≡ (true, 9)
unfolding try_lock_until Simple.try_acquire_until Simple.try_acquire0 pass int_geq sub_permits rank
until_run = refl

no_overflow : rank 9 + 5 < 2 ^ 32
unfolding rank
no_overflow = omega arith
