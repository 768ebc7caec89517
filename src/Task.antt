-- ===== src/Task.antt =====
-- common/task/task.go: a periodic task. `Start`, the goroutine that it makes, and `Close`, which waits
-- for that goroutine, are the steps between two points where one of them waits; any number of callers
-- may stand between the two halves of `Close`.
pub mod Laws
pub mod Close
mod Examples
use ppanel_node.Base.{
  ℕ, ◌+◌, ◌*◌, min, Option, none, some, List, [], ◌∷◌, Bool, true, false, ◌||◌, ◌&&◌, not,
  if◌then◌else◌, ◌≡◌, ◌<◌, leb,
}
use ppanel_node.Base.Eq.{◌==◌, nat_eq}
use ppanel_node.Base.Map.{Map, lookup, insert}

-- Where the goroutine is: at its `select`, in `execute`, or gone, with `done` closed.
pub data Phase : Type 0 where
  waiting executing exited : Phase

pub record Loop : Type 0 where
  pub phase : Phase
  pub cancelled : Bool

-- A goroutine has the number of its `done` channel; `current` is the number that `t.cancel` and `t.done`
-- belong to. `reload` tells whether a signal waits in the channel, which takes one.
pub record Task : Type 0 where
  pub interval : ℕ
  pub has_execute : Bool
  pub has_reload : Bool
  pub current : Option ℕ
  pub loops : Map ℕ Loop
  pub made : ℕ
  pub reload : Bool

-- The limit of `execute` on one run, in nanoseconds.
unfoldable pub run_limit : Task → ℕ
run_limit t = min (5 * t.interval) 300000000000

abbrev fresh_loop : Bool → Loop
fresh_loop first = record { phase = if first then executing else waiting; cancelled = false }

abbrev start_idle : Task → Bool → Option ℕ → Task × Bool
start_idle t first (some g) = (t, true)
start_idle t first none = if leb t.interval 0 || not t.has_execute then (t, false) else (
  record t {
    current = some t.made;
    loops = insert t.made (fresh_loop first) t.loops;
    made = t.made + 1;
  },
  true,
)

-- `Start`; the Boolean is false for the error.
unfoldable pub start : Task → Bool → Task × Bool
start t first = start_idle t first t.current

abbrev pub set_phase : ℕ → Loop → Phase → Task → Task
set_phase g l phase t = record t { loops = insert g (record l { phase = phase }) t.loops }

-- A run is over its limit: a signal to reload, unless the task is cancelled.
unfoldable pub over_limit : Task → Loop → Task
over_limit t l = if not l.cancelled && t.has_reload then record t { reload = true } else t

-- The first half of `Close`, on the goroutine that it finds.
unfoldable pub cancel : Task → ℕ → Loop → Task
cancel t g l = record t { loops = insert g (record l { cancelled = true }) t.loops }

-- The second half, when the goroutine that it found has gone.
abbrev close_current : Task → ℕ → Option ℕ → Task
close_current t g none = t
close_current t g (some h) = if h == g then record t { current = none } else t

unfoldable pub close_done : Task → ℕ → Task
close_done t g = close_current t g t.current

-- One step of any of the goroutines involved.
pub data Step : Task → Task → Type 0 where
  started : (t : Task) (first : Bool) → Step t (start t first).0
  fired :
      (t : Task) (g : ℕ) (l : Loop)
      → lookup g t.loops ≡ some l
      → l.phase ≡ waiting
      → Step t (set_phase g l executing t)
  returned :
      (t : Task) (g : ℕ) (l : Loop)
      → lookup g t.loops ≡ some l
      → l.phase ≡ executing
      → Step t (set_phase g l waiting t)
  overran :
      (t : Task) (g : ℕ) (l : Loop)
      → lookup g t.loops ≡ some l
      → l.phase ≡ executing
      → Step t (over_limit t l)
  left :
      (t : Task) (g : ℕ) (l : Loop)
      → lookup g t.loops ≡ some l
      → l.phase ≡ waiting
      → l.cancelled ≡ true
      → Step t (set_phase g l exited t)
  closing :
      (t : Task) (g : ℕ) (l : Loop)
      → lookup g t.loops ≡ some l
      → t.current ≡ some g
      → Step t (cancel t g l)
  closed :
      (t : Task) (g : ℕ) (l : Loop)
      → lookup g t.loops ≡ some l
      → l.phase ≡ exited
      → Step t (close_done t g)

pub data Reach (t : Task) : Task → Type 0 where
  here : Reach t t
  next : {u v : Task} → Reach t u → Step u v → Reach t v
