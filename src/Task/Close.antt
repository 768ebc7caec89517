-- ===== src/Task/Close.antt =====
-- A call of `Close` can always come to its end.
use ppanel_node.Base.{ℕ, ◌+◌, ◌≤◌, arith, none, some, true, ◌≡◌, ◌⊎◌, refl, inl, inr}
use ppanel_node.Base.Eq.{nat_eq, beq_refl}
use ppanel_node.Base.Map.{lookup, lookup-insert_self}
use ppanel_node.Task.{
  Phase, waiting, executing, exited, Loop, Task, set_phase, cancel, close_done, Step, started,
  fired, returned, overran, left, closing, closed,
}

close_done-none : (t : Task) (g : ℕ) → t.current ≡ some g → (close_done t g).current ≡ none
unfolding close_done
close_done-none t g e = rw (close_done, e, beq_refl g) refl

-- The steps in which `Close` comes to its end: neither a timer nor a new start is among them, so no run
-- begins.
abbrev pub IsOfClose : {t u : Task} → Step t u → Type 0
IsOfClose (started t first) = ⊥
IsOfClose (fired t g l found w) = ⊥
IsOfClose (returned t g l found x) = Unit {0}
IsOfClose (overran t g l found x) = ⊥
IsOfClose (left t g l found w c) = Unit {0}
IsOfClose (closing t g l found current) = Unit {0}
IsOfClose (closed t g l found gone) = Unit {0}

-- A number of such steps.
pub data ClosingRun (t : Task) : ℕ → Task → Type 0 where
  at_start : ClosingRun t 0 t
  after :
      {n : ℕ} {u v : Task}
      → ClosingRun t n u
      → (s : Step u v) → IsOfClose s
      → ClosingRun t (n + 1) v

-- The steps from a goroutine that waits and is cancelled.
from_waiting :
    (n : ℕ) (t u : Task) (g : ℕ) (l : Loop)
    → ClosingRun t n u
    → lookup g u.loops ≡ some l
    → l.phase ≡ waiting
    → l.cancelled ≡ true
    → u.current ≡ some g
    → (v : Task) × ClosingRun t (n + 1 + 1) v × (v.current ≡ none)
from_waiting n t u g l r found w c current =
    let gone : Loop = record l { phase = exited } in
    let v = set_phase g l exited u in
    (
      close_done v g,
      after (after r (left u g l found w c) tt)
          (closed v g gone (lookup-insert_self g gone u.loops) refl) tt,
      close_done-none v g current,
    )

Phase-cases : (p : Phase) → (p ≡ waiting) ⊎ (p ≡ executing) ⊎ (p ≡ exited)
Phase-cases waiting = inl refl
Phase-cases executing = inr (inl refl)
Phase-cases exited = inr (inr refl)

pub close_completes :
    (t : Task) (g : ℕ) (l : Loop)
    → lookup g t.loops ≡ some l
    → t.current ≡ some g
    → (n : ℕ) × (n ≤ 4) × (u : Task) × ClosingRun t n u × (u.current ≡ none)
unfolding cancel
close_completes t g l found current =
    let stopped : Loop = record l { cancelled = true } in
    let u = cancel t g l in
    let there : lookup g u.loops ≡ some stopped = lookup-insert_self g stopped t.loops in
    let r : ClosingRun t 1 u = after at_start (closing t g l found current) tt in
    elim (Phase-cases l.phase) [
      | inl w ↦
          let (v, run, idle) = from_waiting 1 t u g stopped r there w refl current in
          (3, omega arith, v, run, idle)
      | inr (inl x) ↦
          let idle : Loop = record stopped { phase = waiting } in
          let (v, run, at_rest) =
            from_waiting 2 t (set_phase g stopped waiting u) g idle
              (after r (returned u g stopped there x) tt) (lookup-insert_self g idle u.loops) refl
              refl current in
          (4, omega arith, v, run, at_rest)
      | inr (inr e) ↦ (
        2,
        omega arith,
        close_done u g,
        after r (closed u g stopped there e) tt,
        close_done-none u g current,
      )
    ]
