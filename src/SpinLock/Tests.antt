-- ===== src/SpinLock/Tests.antt =====
-- A thread owns the lock, and another one tries twice.
use concurrency_cpp.Base.{ℕ, ◌≤◌, ◌<◌, ◌≡◌, ◌≢◌, refl, true, some, [], ◌∷◌, get_elem?}
use concurrency_cpp.Base.Threads.{total}
use concurrency_cpp.SpinLock.{
  spinning, owner, lose_patience, spin, System, Reach, start, later, call_lock, spins,
}
use concurrency_cpp.SpinLock.Ownership.{owns, flag_means_one_owner}

abbrev one_spins : System
one_spins = record { l = true; threads = owner ∷ spinning 98 ∷ [] }

one_spins-Reach : Reach 2 one_spins
unfolding spin lose_patience
one_spins-Reach =
    later
      (later
        (later (later (later start (call_lock 0 true refl)) (spins 0 100 refl))
          (call_lock 1 true refl))
        (spins 1 100 refl))
      (spins 1 99 refl)

flag_means_one_owner_example :
    (total owns one_spins.threads ≡ 1)
    × ((i j : ℕ)
        → i ≢ j
        → get_elem? one_spins.threads i ≡ some owner
        → get_elem? one_spins.threads j ≢ some owner)
    × ((i patience : ℕ)
        → get_elem? one_spins.threads i ≡ some (spinning patience)
        → (0 < patience) × (patience ≤ 100))
flag_means_one_owner_example = flag_means_one_owner one_spins-Reach
