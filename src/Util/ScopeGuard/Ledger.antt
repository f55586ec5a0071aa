-- ===== src/Util/ScopeGuard/Ledger.antt =====
-- What becomes of the actions of scope guards.
use concurrency_cpp.Base.{
  ℕ, ◌+◌, ◌≤◌, ◌≡◌, ◌∙◌, Option, none, some, List, [], ◌∷◌, arith, if◌then◌else◌, ◌==◌, set,
  get_elem?-set_ne,
}
use concurrency_cpp.Base.Threads.{total, total-set, total-append, total_mono}
use concurrency_cpp.Util.ScopeGuard.{
  ScopeGuard, make, make_with, release, move_from, move_assign, destroy, armed, World, Step,
  call_make, call_make_with, call_release, call_move, call_move_assign, call_destroy, Reach, start,
  later,
}

abbrev pub is : ℕ → ℕ → ℕ
is a b = if a == b then 1 else 0

-- How often an action is in a list, and is armed in the guards.
abbrev pub times : ℕ → List ℕ → ℕ
times a = total (is a)

abbrev pub will_run : ℕ → Option ScopeGuard → ℕ
will_run a o = elim o [ none ↦ 0 | some g ↦ times a (armed g) ]

-- Every action that a guard was made with has been run, was dropped, or is armed in one guard.
abbrev Balanced : ℕ → World → Type 0
Balanced a w = total (will_run a) w.guards + times a w.run + times a w.dropped ≡ times a w.made

Step-Balanced : (a : ℕ) {w v : World} → Step w v → Balanced a w → Balanced a v
unfolding make make_with release move_from move_assign destroy total
Step-Balanced a {w} (call_make post) h = omega (
  arith,
  h,
  total-append (will_run a) w.guards (some (make post) ∷ []),
  total-append (is a) w.made (post ∷ []),
)
Step-Balanced a {w} (call_make_with pre post) h = omega (
  arith,
  h,
  total-append (will_run a) w.guards (some (make post) ∷ []),
  total-append (is a) w.run (pre ∷ []),
  total-append (is a) w.made (pre ∷ post ∷ []),
)
Step-Balanced a {w} (call_release i g here) h = ground (
  arith,
  h,
  total-set (will_run a) w.guards i (some (release g)) here,
  total-append (is a) w.dropped (armed g),
)
Step-Balanced a {w} (call_move i rhs here) h =
    let rest = some (move_from rhs).1 in
    ground (
      arith,
      h,
      total-set (will_run a) w.guards i rest here,
      total-append (will_run a) (set w.guards i rest) (some rhs ∷ []),
    )
Step-Balanced a {w} (call_move_assign i j g rhs ne here there) h =
    let after = some (move_assign g rhs).0 in
    let there' = get_elem?-set_ne w.guards after ne ∙ there in
    ground (
      arith,
      h,
      total-set (will_run a) w.guards i after here,
      total-set (will_run a) (set w.guards i after) j (some (move_assign g rhs).1) there',
      total-append (is a) w.dropped (armed g),
    )
Step-Balanced a {w} (call_destroy i g here) h =
    ground (
      arith,
      h,
      total-set (will_run a) w.guards i none here,
      total-append (is a) w.run (g.post ∷ []),
    )

Reach-Balanced : (a : ℕ) {w : World} → Reach w → Balanced a w
unfolding total
Reach-Balanced a start = omega arith
Reach-Balanced a (later r st) = Step-Balanced a st (Reach-Balanced a r)

abbrev pub alive : Option ScopeGuard → ℕ
alive o = elim o [ none ↦ 0 | some g ↦ 1 ]

will_run-le-alive : (a : ℕ) (o : Option ScopeGuard) → will_run a o ≤ alive o
unfolding total
will_run-le-alive a none = omega arith
will_run-le-alive a (some g) = ground arith

-- Each action, as often as scope guards were made with it, is one that has run, or one that was
-- dropped when its guard was released or assigned to, or one that a guard will run when it is destroyed; and when
-- all guards are destroyed, each has run, unless it was dropped.
pub actions_balance :
    (a : ℕ) {w : World}
    → Reach w
    → (total (will_run a) w.guards + times a w.run + times a w.dropped ≡ times a w.made)
      × (total alive w.guards ≡ 0 → times a w.run + times a w.dropped ≡ times a w.made)
actions_balance a {w} r =
    let balanced = Reach-Balanced a r in
    (
      balanced,
      λ none_alive. omega (
        arith,
        balanced,
        none_alive,
        total_mono (will_run a) alive (will_run-le-alive a) w.guards,
      ),
    )
