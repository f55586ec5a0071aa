-- ===== src/Util/Invoke/Tests.antt =====
-- Resolutions of `invoke` among a few types, and a timed call.
use concurrency_cpp.Base.{ℕ, ◌+◌, ◌≡◌, refl, Bool, true, false, none, some, List, [], ◌∷◌}
use concurrency_cpp.Util.Invoke.{
  Ty, named, reference_wrapper, Types, member_function, member_object, call_on_pointee,
  member_of_referent, ambiguous, selected, invoke,
}
use concurrency_cpp.Util.Invoke.Standard.{overlaps, invoke-standard_invoke}
use concurrency_cpp.Util.Invoke.Timed.{Result, thrown, Timing, timed_invoke, timed_invoke_lem}

-- The classes 0 and 1, of which 1 is derived from 0 and from a reference wrapper to itself, and 2, a
-- smart pointer to 1.
abbrev classes : Types
classes = record {
  is_base_of = λ base derived. elim base [
    | named b ↦ elim b [
      | ℕ.zero ↦ elim derived [
        | named d ↦ elim d [ ℕ.zero ↦ true | ℕ.suc e ↦ elim e [ ℕ.zero ↦ true | _ ↦ false ] ]
        | _ ↦ false
      ]
      | _ ↦ false
    ]
    | reference_wrapper r ↦ true
  ];
  pointee = λ t. elim t [ named n ↦ some (named 1) | _ ↦ none ];
}

abbrev no_arguments : List Ty → Bool
no_arguments [] = true
no_arguments (t ∷ ts) = false

through_pointer :
    invoke classes (member_function (named 0) no_arguments) (named 2 ∷ [])
    ≡ selected call_on_pointee
unfolding invoke
through_pointer = refl

through_wrapper :
    invoke classes (member_object (named 0)) (reference_wrapper (named 1) ∷ [])
    ≡ selected member_of_referent
unfolding invoke
through_wrapper = refl

invoke-standard_invoke_example :
    invoke classes (member_object (reference_wrapper (named 1))) (reference_wrapper (named 1) ∷ [])
    ≡ ambiguous
unfolding overlaps
invoke-standard_invoke_example =
    invoke-standard_invoke classes (member_object (reference_wrapper (named 1)))
      (reference_wrapper (named 1) ∷ [])

-- A clock that gains 5 with every reading, and a callable that takes 40 and throws.
abbrev slow_throw : Timing ℕ → Result ℕ × Timing ℕ
slow_throw t = (thrown 7, record t { world = t.world + 40 })

abbrev clock : ℕ → ℕ × ℕ
clock s = (s, s + 5)

timed_invoke_lem_example :
    timed_invoke clock 1 10 2 slow_throw (record { world = 100; time_elapsed = 9 })
    ≡ (thrown 7, record { world = 150; time_elapsed = 4 })
unfolding timed_invoke
timed_invoke_lem_example =
    timed_invoke_lem clock 1 10 2 slow_throw (record { world = 100; time_elapsed = 9 })
