-- ===== src/Node/Lifecycle/Rollback.antt =====
-- Starting and stopping a node: what is running afterwards.
use ppanel_node.Base.{ℕ, ◌≡◌, refl, List, [], ◌∷◌, Bool, true, false, if◌then◌else◌, arith, All}
use ppanel_node.Node.Lifecycle.{
  Env, Life, Outcome, prepare, start, stop, prepare_all, start_all, stop_all, cons_outcome,
  stop_or_next, Node, after_start, after_prepares, node_stop, node_start,
}

-- Nothing of the controller runs: it has no inbound and no periodic task.
abbrev pub IsIdle : Life → Type 0
IsIdle c = (c.started ≡ false) × (c.user_list_monitor ≡ false) × (c.renew_cert ≡ false)

-- The inbound and the user monitor of an enabled controller run.
abbrev pub IsRunning : Life → Type 0
IsRunning c = (c.started ≡ true) × (c.user_list_monitor ≡ true)

-- A controller that is started has its monitor.
abbrev pub IsWhole : Life → Type 0
IsWhole c = c.started ≡ true → c.user_list_monitor ≡ true

module _ (e : Env) where
  stop-IsIdle :
      (s : e.State) (c : Life)
      → ((e' : e.State) (id : ℕ) → (e.del_node e' id).1 ≡ false)
      → IsIdle (stop e s c).1 × ((stop e s c).2 ≡ false)
  unfolding stop
  stop-IsIdle s c reliable = ground (arith, reliable s c.id)

  pub stop_all-IsIdle :
      (s : e.State) (cs : List Life)
      → ((e' : e.State) (id : ℕ) → (e.del_node e' id).1 ≡ false)
      → All IsIdle (stop_all e s cs).1 × ((stop_all e s cs).2 ≡ false)
  unfolding stop_all
  stop_all-IsIdle s [] reliable = (tt, refl)
  stop_all-IsIdle s (c ∷ cs) reliable =
      let (idle, ok) = stop-IsIdle s c reliable in
      let (rest, ok') = stop_all-IsIdle (stop e s c).0 cs reliable in
      ground (arith, idle, ok, rest, ok')

  start-IsRunning :
      (s : e.State) (c : Life) → IsWhole c → (start e s c).2 ≡ false → IsRunning (start e s c).1
  unfolding start prepare
  start-IsRunning s c whole ok = ground arith

  -- All enabled controllers run.
  abbrev pub AllRunning : List Life → Type 0
  AllRunning cs = All (λ c. c.enable ≡ true → IsRunning c) cs

  next-running :
      (on : Bool) (c : Life) (cs : List Life) (r : Outcome e Life)
      (rest skipped : Outcome e (List Life))
      → c.enable ≡ on
      → (r.2 ≡ false → IsRunning r.1)
      → (rest.2 ≡ false → AllRunning rest.1)
      → (skipped.2 ≡ false → AllRunning skipped.1)
      → (if on then stop_or_next e cs r rest else cons_outcome e c skipped).2 ≡ false
      → AllRunning (if on then stop_or_next e cs r rest else cons_outcome e c skipped).1
  next-running true c cs (s, c', true) rest skipped on one more less ok = cc
  next-running true c cs (s, c', false) rest skipped on one more less ok =
      ((λ h. one refl), more ok)
  next-running false c cs r rest skipped on one more less ok = ((λ h. cc (h, on)), less ok)

  start_all-running :
      (s : e.State) (cs : List Life)
      → All IsWhole cs
      → (start_all e s cs).2 ≡ false
      → AllRunning (start_all e s cs).1
  unfolding start_all
  start_all-running s [] whole ok = tt
  start_all-running s (c ∷ cs) (here, whole) ok =
      next-running c.enable c cs (start e s c) (start_all e (start e s c).0 cs) (start_all e s cs)
        refl (start-IsRunning s c here) (start_all-running (start e s c).0 cs whole)
        (start_all-running s cs whole) ok

  prepare-IsIdle : (s : e.State) (c : Life) → IsIdle c → IsIdle (prepare e s c).1
  unfolding prepare
  prepare-IsIdle s c idle = ground arith

  next-IsIdle :
      (on : Bool) (c : Life) (cs : List Life) (r : Outcome e Life)
      (rest skipped : Outcome e (List Life))
      → IsIdle c
      → All IsIdle cs
      → IsIdle r.1
      → All IsIdle rest.1
      → All IsIdle skipped.1
      → All IsIdle (if on then stop_or_next e cs r rest else cons_outcome e c skipped).1
  next-IsIdle true c cs (s, c', true) rest skipped here idle one more less = (one, idle)
  next-IsIdle true c cs (s, c', false) rest skipped here idle one more less = (one, more)
  next-IsIdle false c cs r rest skipped here idle one more less = (here, less)

  pub prepare_all-IsIdle :
      (s : e.State) (cs : List Life) → All IsIdle cs → All IsIdle (prepare_all e s cs).1
  unfolding prepare_all
  prepare_all-IsIdle s [] idle = tt
  prepare_all-IsIdle s (c ∷ cs) (here, idle) =
      next-IsIdle c.enable c cs (prepare e s c) (prepare_all e (prepare e s c).0 cs)
        (prepare_all e s cs) here idle (prepare-IsIdle s c here)
        (prepare_all-IsIdle (prepare e s c).0 cs idle) (prepare_all-IsIdle s cs idle)

  idle-IsWhole : (cs : List Life) → All IsIdle cs → All IsWhole cs
  idle-IsWhole [] idle = tt
  idle-IsWhole (c ∷ cs) (here, idle) = ((λ on. cc (on, here.0)), idle-IsWhole cs idle)

  -- What is left when a start fails: nothing runs. When it succeeds: all that is enabled runs.
  abbrev pub AllOrNothing : Outcome e (Node e) → Type 0
  AllOrNothing r =
      (r.2 ≡ true → All IsIdle r.1.controllers)
      × (r.2 ≡ false → AllRunning r.1.controllers × (r.1.report_periodic ≡ true))

  after_start-outcome :
      (n : Node e) (r : Outcome e (List Life))
      → ((s : e.State) (id : ℕ) → (e.del_node s id).1 ≡ false)
      → (r.2 ≡ false → AllRunning r.1)
      → AllOrNothing (after_start e n r)
  unfolding node_stop
  after_start-outcome n (s, cs, true) reliable running =
      ((λ h. (stop_all-IsIdle s cs reliable).0), λ h. cc)
  after_start-outcome n (s, cs, false) reliable running = ((λ h. cc), λ h. (running refl, refl))

  after_prepares-outcome :
      (n : Node e) (r : Outcome e (List Life))
      → ((s : e.State) (id : ℕ) → (e.del_node s id).1 ≡ false)
      → All IsIdle r.1
      → AllOrNothing (after_prepares e n r)
  unfolding start_all node_stop
  after_prepares-outcome n (s, cs, true) reliable idle = ((λ h. idle), λ h. cc)
  after_prepares-outcome n (s, cs, false) reliable idle =
      after_start-outcome n (start_all e s cs) reliable
        (start_all-running s cs (idle-IsWhole cs idle))

  -- Starting an idle node is all or nothing, as long as xray removes inbounds without an error: if
  -- it fails, at whatever controller and step, nothing runs; if it succeeds, every enabled
  -- controller has its inbound and its user monitor, and the report task runs.
  pub node_start-AllOrNothing :
      (s : e.State) (n : Node e)
      → ((s' : e.State) (id : ℕ) → (e.del_node s' id).1 ≡ false)
      → All IsIdle n.controllers
      → ((node_start e s n).2 ≡ true → All IsIdle (node_start e s n).1.controllers)
        × ((node_start e s n).2 ≡ false
            → AllRunning (node_start e s n).1.controllers
              × ((node_start e s n).1.report_periodic ≡ true))
  unfolding node_start
  node_start-AllOrNothing s n reliable idle =
      after_prepares-outcome n (prepare_all e s n.controllers) reliable
        (prepare_all-IsIdle s n.controllers idle)

  -- A controller whose inbound cannot be removed stays started when it is stopped, but has lost its
  -- user monitor; starting it again succeeds and does not bring the monitor back.
  pub stop_failed-start :
      (s : e.State) (c : Life)
      → c.started ≡ true
      → (e.del_node s c.id).1 ≡ true
      → ((stop e s c).2 ≡ true)
        × (start e (stop e s c).0 (stop e s c).1 ≡ ((stop e s c).0, (stop e s c).1, false))
        × ((stop e s c).1.user_list_monitor ≡ false)
  unfolding stop start
  stop_failed-start s c on stuck = ground arith
