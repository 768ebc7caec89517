-- ===== src/Node/Lifecycle.antt =====
-- node/controller.go and node/node.go: the life of the controllers of a node. What a step needs of
-- the panel and of xray is the parameter `Env`, whose calls may fail and change its state.
pub mod Rollback
pub mod Reload
use ppanel_node.Base.{ℕ, List, [], ◌∷◌, Bool, true, false, not, ◌&&◌, ◌||◌, if◌then◌else◌}

-- The calls made for a controller, by its number; the Boolean is an error.
pub record Env : Type 1 where
  pub State : Type 0
  -- The requests of `Prepare` to the panel, and the certificate and inbound that it makes
  pub fetch : State → ℕ → State × Bool
  -- `LimiterManager.Add` and `Delete`
  pub add_limiter : State → ℕ → State
  pub delete_limiter : State → ℕ → State
  -- `AddNodeConfig`, `AddUsers`, `DelNode` and `collectTraffic(0)`
  pub add_node_config : State → ℕ → State × Bool
  pub add_users : State → ℕ → State × Bool
  pub del_node : State → ℕ → State × Bool
  pub collect_traffic : State → ℕ → State

-- `Controller`: whether its tag is set, its state flags, whether it has a limiter, and its two periodic tasks, non-nil while
-- they run. `enable` is `info.Protocol.Enable`; `renews` tells whether the certificate mode asks for
-- the renewal task.
pub record Life : Type 0 where
  pub id : ℕ
  pub enable : Bool
  pub renews : Bool
  pub tagged : Bool
  pub prepared : Bool
  pub started : Bool
  pub has_limiter : Bool
  pub user_list_monitor : Bool
  pub renew_cert : Bool

module _ (e : Env) where
  -- The environment and the controller afterwards, and whether an error is returned.
  abbrev pub Outcome {ℓ} : Type ℓ → Type ℓ
  Outcome A = e.State × A × Bool

  abbrev after_fetch : Life → e.State × Bool → Outcome Life
  after_fetch c (s, true) = (s, record c { tagged = true }, true)
  after_fetch c (s, false) = (s, record c { tagged = true; prepared = true }, false)

  unfoldable pub prepare : e.State → Life → Outcome Life
  prepare s c = if c.prepared then (s, c, false) else after_fetch c (e.fetch s c.id)

  abbrev start_tasks : Life → Life
  start_tasks c = record c { user_list_monitor = true; renew_cert = c.renews || c.renew_cert }

  abbrev after_users : Life → e.State × Bool → Outcome Life
  after_users c (s, true) = (s, c, true)
  after_users c (s, false) = (s, start_tasks c, false)

  abbrev after_config : Life → e.State × Bool → Outcome Life
  after_config c (s, true) = (s, c, true)
  after_config c (s, false) = after_users (record c { started = true }) (e.add_users s c.id)

  abbrev with_limiter : e.State → Life → e.State × Life
  with_limiter s c =
      if c.has_limiter then (s, c) else (e.add_limiter s c.id, record c { has_limiter = true })

  abbrev after_prepare : Outcome Life → Outcome Life
  after_prepare (s, c, true) = (s, c, true)
  after_prepare (s, c, false) =
      let (s', c') = with_limiter s c in after_config c' (e.add_node_config s' c'.id)

  unfoldable pub start : e.State → Life → Outcome Life
  unfolding prepare
  start s c = if c.started then (s, c, false) else after_prepare (prepare s c)

  abbrev close_tasks : Life → Life
  close_tasks c = record c { user_list_monitor = false; renew_cert = false }

  abbrev after_del : Life → e.State × Bool → Outcome Life
  after_del c (s, true) = (s, c, true)
  after_del c (s, false) = (e.collect_traffic s c.id, record c { started = false }, false)

  unfoldable pub stop : e.State → Life → Outcome Life
  stop s c =
      if c.started then after_del (close_tasks c) (e.del_node s c.id) else (s, close_tasks c, false)

  unfoldable pub close : e.State → Life → Outcome Life
  unfolding stop
  close s c =
      let (s', c', failed) = stop s c in
      (if c'.tagged then e.delete_limiter s' c'.id else s', c', failed)

  abbrev pub cons_outcome : Life → Outcome (List Life) → Outcome (List Life)
  cons_outcome c (s, cs, failed) = (s, c ∷ cs, failed)

  -- The first error ends the loop; the controllers behind stay as they are.
  abbrev pub stop_or_next : List Life → Outcome Life → Outcome (List Life) → Outcome (List Life)
  stop_or_next cs (s, c, true) rest = (s, c ∷ cs, true)
  stop_or_next cs (s, c, false) rest = cons_outcome c rest

  -- `Node.Prepare`: the enabled controllers, up to the first error.
  unfoldable pub prepare_all : e.State → List Life → Outcome (List Life)
  unfolding prepare
  prepare_all s [] = (s, [], false)
  prepare_all s (c ∷ cs) =
      let skipped = prepare_all s cs in
      let rest = prepare_all (prepare s c).0 cs in
      if c.enable then stop_or_next cs (prepare s c) rest else cons_outcome c skipped

  -- The loop of `Node.Start`, up to the first error.
  unfoldable pub start_all : e.State → List Life → Outcome (List Life)
  unfolding start
  start_all s [] = (s, [], false)
  start_all s (c ∷ cs) =
      let skipped = start_all s cs in
      let rest = start_all (start s c).0 cs in
      if c.enable then stop_or_next cs (start s c) rest else cons_outcome c skipped

  -- `errors.Join` over the controllers in `Node.Stop`
  abbrev join_outcome : Life → Bool → Outcome (List Life) → Outcome (List Life)
  join_outcome c failed (s, cs, later) = (s, c ∷ cs, failed || later)

  unfoldable pub stop_all : e.State → List Life → Outcome (List Life)
  unfolding stop
  stop_all s [] = (s, [], false)
  stop_all s (c ∷ cs) = let (s', c', failed) = stop s c in join_outcome c' failed (stop_all s' cs)

  unfoldable pub close_each : e.State → List Life → e.State × List Life
  unfolding close
  close_each s [] = (s, [])
  close_each s (c ∷ cs) =
      let (s', c', failed) = close s c in let (s'', cs') = close_each s' cs in (s'', c' ∷ cs')

  -- `Node`: its controllers, and whether the report task runs.
  pub record Node : Type 0 where
    pub controllers : List Life
    pub report_periodic : Bool

  unfoldable pub node_stop : e.State → Node → Outcome Node
  unfolding stop_all
  node_stop s n =
      let (s', cs, failed) = stop_all s n.controllers in
      (s', record { controllers = cs; report_periodic = false }, failed)

  abbrev after_start : Node → Outcome (List Life) → Outcome Node
  after_start n (s, cs, true) =
      let (s', n', failed) = node_stop s (record n { controllers = cs }) in (s', n', true)
  after_start n (s, cs, false) = (s, record { controllers = cs; report_periodic = true }, false)

  abbrev after_prepares : Node → Outcome (List Life) → Outcome Node
  after_prepares n (s, cs, true) = (s, record n { controllers = cs }, true)
  after_prepares n (s, cs, false) = after_start n (start_all s cs)

  unfoldable pub node_start : e.State → Node → Outcome Node
  unfolding prepare_all start_all node_stop
  node_start s n = after_prepares n (prepare_all s n.controllers)

  unfoldable pub node_close : e.State → Node → e.State × Node
  unfolding node_stop close_each
  node_close s n =
      let (s', n', failed) = node_stop s n in
      let (s'', closed) = close_each s' n'.controllers in
      (s'', record { controllers = []; report_periodic = false })
