-- ===== src/Util/ScopeGuard.antt =====
-- `ScopeGuardBase` and `ScopeGuardImpl` of util/bits/scope_guard.h. An action is a number.
pub mod Ledger
mod Tests
use concurrency_cpp.Base.{
  ℕ, ◌+◌, ◌≡◌, ◌≢◌, Bool, true, false, not, Option, none, some, List, [], ◌∷◌, ◌++◌, if◌then◌else◌,
  ◌==◌, get_elem?, set,
}

pub record ScopeGuard : Type 0 where
  pub released : Bool
  pub post : ℕ

unfoldable pub make : ℕ → ScopeGuard
make post = record { released = false; post = post }

-- With an action that runs at once: the actions that have run, in order, grow by it.
unfoldable pub make_with : ℕ → ℕ → List ℕ → ScopeGuard × List ℕ
unfolding make
make_with pre post run = (make post, run ++ (pre ∷ []))

unfoldable pub release : ScopeGuard → ScopeGuard
release g = record g { released = true }

-- The move constructor: the new guard, and what becomes of the old one.
unfoldable pub move_from : ScopeGuard → ScopeGuard × ScopeGuard
move_from rhs = (rhs, record rhs { released = true })

unfoldable pub move_assign : ScopeGuard → ScopeGuard → ScopeGuard × ScopeGuard
move_assign g rhs =
    (record g { released = rhs.released; post = rhs.post }, record rhs { released = true })

unfoldable pub destroy : ScopeGuard → List ℕ → List ℕ
destroy g run = if not g.released then run ++ (g.post ∷ []) else run

-- The action that a guard will run.
abbrev pub armed : ScopeGuard → List ℕ
armed g = if not g.released then g.post ∷ [] else []

-- `none` in the place of a destroyed guard. `run`: the actions that have run. `made`: the
-- actions that guards were made with, the ones that run at once included; `dropped`: those of guards at the time they were released or
-- assigned to.
pub record World : Type 0 where
  pub guards : List (Option ScopeGuard)
  pub run : List ℕ
  pub made : List ℕ
  pub dropped : List ℕ

-- A moved guard is not moved to itself, as the source asserts.
pub data Step (w : World) : World → Type 0 where
  call_make :
      (post : ℕ)
      → Step w
          (record w { guards = w.guards ++ (some (make post) ∷ []); made = w.made ++ (post ∷ []) })
  call_make_with :
      (pre post : ℕ)
      → Step w (record w {
        guards = w.guards ++ (some (make_with pre post w.run).0 ∷ []);
        run = (make_with pre post w.run).1;
        made = w.made ++ (pre ∷ post ∷ []);
      })
  call_release :
      (i : ℕ) (g : ScopeGuard)
      → get_elem? w.guards i ≡ some (some g)
      → Step w
          (record w { guards = set w.guards i (some (release g)); dropped = w.dropped ++ armed g })
  call_move :
      (i : ℕ) (rhs : ScopeGuard)
      → get_elem? w.guards i ≡ some (some rhs)
      → Step w (record w {
        guards = set w.guards i (some (move_from rhs).1) ++ (some (move_from rhs).0 ∷ []);
      })
  call_move_assign :
      (i j : ℕ) (g rhs : ScopeGuard)
      → i ≢ j
      → get_elem? w.guards i ≡ some (some g)
      → get_elem? w.guards j ≡ some (some rhs)
      → Step w (record w {
        guards = set (set w.guards i (some (move_assign g rhs).0)) j (some (move_assign g rhs).1);
        dropped = w.dropped ++ armed g;
      })
  call_destroy :
      (i : ℕ) (g : ScopeGuard)
      → get_elem? w.guards i ≡ some (some g)
      → Step w (record w { guards = set w.guards i none; run = destroy g w.run })

pub data Reach : World → Type 0 where
  start : Reach (record { guards = []; run = []; made = []; dropped = [] })
  later : {w v : World} → Reach w → Step w v → Reach v
