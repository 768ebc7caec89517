-- ===== src/Task/Examples.antt =====
-- A task that is started, closed while it runs, and started again.
use ppanel_node.Base.{ℕ, ◌≤◌, ◌≡◌, none, some, [], ◌∷◌, true, false, refl}
use ppanel_node.Base.Eq.{nat_eq}
use ppanel_node.Base.Map.{lookup, insert}
use ppanel_node.Task.{executing, Loop, Task, start, started, here, next, run_limit}
use ppanel_node.Task.Laws.{Reach-one_run}
use ppanel_node.Task.Close.{ClosingRun, close_completes}

abbrev new_task : Task
new_task = record {
  interval = 60000000000;
  has_execute = true;
  has_reload = true;
  current = none;
  loops = [];
  made = 0;
  reload = false;
}

abbrev running : Loop
running = record { phase = executing; cancelled = false }

abbrev first_run : Task
first_run = record new_task { current = some 0; loops = (0, running) ∷ []; made = 1 }

starts : (start new_task true).0 ≡ first_run
unfolding start insert
starts = refl

five_minutes : run_limit new_task ≡ 300000000000
unfolding run_limit
five_minutes = refl

Reach-one_run_example : ◌≡◌ {A = ℕ} 0 0
unfolding lookup
Reach-one_run_example =
    Reach-one_run new_task (start new_task true).0 0 0 running running (λ g. refl)
      (next here (started new_task true)) (unfold start insert in refl)
      (unfold start insert in refl) refl refl

close_completes_example :
    (n : ℕ) × (n ≤ 4) × (u : Task) × ClosingRun first_run n u × (u.current ≡ none)
unfolding lookup
close_completes_example = close_completes first_run 0 running refl refl
