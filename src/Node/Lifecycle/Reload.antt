-- ===== src/Node/Lifecycle/Reload.antt =====
-- cmd/server.go: `reload`, which replaces the running nodes and rolls back when that fails.
use ppanel_node.Base.{ℕ, ◌≡◌, refl, Option, none, some, true, false, All}
use ppanel_node.Node.Lifecycle.{Env, Outcome, Node, node_stop, node_start, node_close, prepare_all}
use ppanel_node.Node.Lifecycle.Rollback.{
  IsIdle, AllRunning, AllOrNothing, stop_all-IsIdle, prepare_all-IsIdle, node_start-AllOrNothing,
}

-- What `reload` does before the switch and around it: `load` reads the configuration, asks the panel,
-- validates, starts the new core and makes the new nodes, closing what it started when it fails;
-- `close_new` and `close_old` close a core.
pub record Loading (e : Env) : Type 0 where
  pub load : e.State → e.State × Option (Node e)
  pub close_new : e.State → e.State
  pub close_old : e.State → e.State

module _ (e : Env) (l : Loading e) where
  -- The nodes that the server holds after a reload: the old ones untouched by an early error, the old
  -- ones started again, the old ones of which that failed, or the new ones.
  pub data Reloaded : Type 0 where
    kept restored restore_failed switched : Node e → Reloaded

  abbrev after_restart : Outcome e (Node e) → e.State × Reloaded
  after_restart (s, old, true) = (s, restore_failed old)
  after_restart (s, old, false) = (s, restored old)

  -- `restore`: the new nodes and core are closed and the old nodes start again.
  unfoldable pub restore : e.State → Node e → Node e → e.State × Reloaded
  unfolding node_start node_close
  restore s new old = after_restart (node_start e (l.close_new (node_close e s new).0) old)

  abbrev after_new_start : Node e → Outcome e (Node e) → e.State × Reloaded
  after_new_start old (s, new, true) = restore s new old
  after_new_start old (s, new, false) = (l.close_old (node_close e s old).0, switched new)

  abbrev after_old_stop : Node e → Outcome e (Node e) → e.State × Reloaded
  after_old_stop new (s, old, true) = restore s new old
  after_old_stop new (s, old, false) = after_new_start old (node_start e s new)

  -- `newNodes.Prepare()`
  unfoldable pub node_prepare : e.State → Node e → Outcome e (Node e)
  unfolding prepare_all
  node_prepare s n =
      let (s', cs, failed) = prepare_all e s n.controllers in
      (s', record n { controllers = cs }, failed)

  abbrev after_new_prepare : Node e → Outcome e (Node e) → e.State × Reloaded
  after_new_prepare old (s, new, true) = (l.close_new (node_close e s new).0, kept old)
  after_new_prepare old (s, new, false) = after_old_stop new (node_stop e s old)

  abbrev after_load : Node e → e.State × Option (Node e) → e.State × Reloaded
  after_load old (s, none) = (s, kept old)
  after_load old (s, some new) = after_new_prepare old (node_prepare s new)

  unfoldable pub reload : e.State → Node e → e.State × Reloaded
  unfolding node_prepare node_stop node_start node_close restore
  reload s old = after_load old (l.load s)

-- All enabled controllers of the node serve, and it reports.
abbrev pub IsServing : (e : Env) → Node e → Type 0
IsServing e n = AllRunning e n.controllers × (n.report_periodic ≡ true)

module _ (e : Env) (l : Loading e) (reliable : (s : e.State) (id : ℕ) → (e.del_node s id).1 ≡ false)
    (fresh : (s : e.State) (n : Node e) → (l.load s).1 ≡ some n → All IsIdle n.controllers)
    (old : Node e) where
  -- What the server holds afterwards, in each case.
  abbrev pub IsSafe : Reloaded e l → Type 0
  IsSafe (kept n) = n ≡ old
  IsSafe (restored n) = IsServing e n
  IsSafe (restore_failed n) = All IsIdle n.controllers
  IsSafe (switched n) = IsServing e n

  restart-IsSafe : (r : Outcome e (Node e)) → AllOrNothing e r → IsSafe (after_restart e l r).1
  restart-IsSafe (s, n, true) (fails, works) = fails refl
  restart-IsSafe (s, n, false) (fails, works) = works refl

  restore-IsSafe :
      (s : e.State) (new stopped : Node e)
      → All IsIdle stopped.controllers
      → IsSafe (restore e l s new stopped).1
  unfolding restore
  restore-IsSafe s new stopped idle =
      let s' : e.State = l.close_new (node_close e s new).0 in
      restart-IsSafe (node_start e s' stopped) (node_start-AllOrNothing e s' stopped reliable idle)

  new_start-IsSafe :
      (stopped : Node e) (r : Outcome e (Node e))
      → All IsIdle stopped.controllers
      → AllOrNothing e r
      → IsSafe (after_new_start e l stopped r).1
  new_start-IsSafe stopped (s, new, true) idle (fails, works) = restore-IsSafe s new stopped idle
  new_start-IsSafe stopped (s, new, false) idle (fails, works) = works refl

  old_stop-IsSafe :
      (new : Node e) (r : Outcome e (Node e))
      → All IsIdle new.controllers
      → All IsIdle r.1.controllers
      → IsSafe (after_old_stop e l new r).1
  unfolding node_start
  old_stop-IsSafe new (s, stopped, true) idle gone = restore-IsSafe s new stopped gone
  old_stop-IsSafe new (s, stopped, false) idle gone =
      new_start-IsSafe stopped (node_start e s new) gone
        (node_start-AllOrNothing e s new reliable idle)

  node_stop-IsIdle : (s : e.State) → All IsIdle (node_stop e s old).1.controllers
  unfolding node_stop
  node_stop-IsIdle s = (stop_all-IsIdle e s old.controllers reliable).0

  new_prepare-IsSafe :
      (r : Outcome e (Node e)) → All IsIdle r.1.controllers → IsSafe (after_new_prepare e l old r).1
  unfolding node_stop node_close
  new_prepare-IsSafe (s, new, true) idle = refl
  new_prepare-IsSafe (s, new, false) idle =
      old_stop-IsSafe new (node_stop e s old) idle (node_stop-IsIdle s)

  node_prepare-IsIdle :
      (s : e.State) (n : Node e)
      → All IsIdle n.controllers
      → All IsIdle (node_prepare e l s n).1.controllers
  unfolding node_prepare
  node_prepare-IsIdle s n idle = prepare_all-IsIdle e s n.controllers idle

  load-IsSafe :
      (r : e.State × Option (Node e))
      → ((n : Node e) → r.1 ≡ some n → All IsIdle n.controllers)
      → IsSafe (after_load e l old r).1
  unfolding node_prepare
  load-IsSafe (s, none) idle = refl
  load-IsSafe (s, some new) idle =
      new_prepare-IsSafe (node_prepare e l s new) (node_prepare-IsIdle s new (idle new refl))

  -- A reload is safe, as long as xray removes inbounds without an error and the nodes that are newly
  -- made run nothing yet. Whatever else fails, the server ends with the old nodes untouched, or with
  -- the old nodes or the new ones of which every enabled controller runs; only when even the old
  -- nodes cannot start again does nothing run.
  pub reload-IsSafe : (s : e.State) → IsSafe (reload e l s old).1
  unfolding reload
  reload-IsSafe s = load-IsSafe (l.load s) (fresh s)
