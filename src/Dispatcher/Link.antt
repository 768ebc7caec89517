-- ===== src/Dispatcher/Link.antt =====
-- core/app/dispatcher/default.go: `getLink`, the first half of `DispatchLink`, and countreader.go: the
-- limiter is asked, and the readers and writers of a link are wrapped. `now` is the clock of
-- `CheckLimit`.
pub mod Laws
pub mod Given
use ppanel_node.Base.{
  ℕ, ◌+◌, String, Option, none, some, List, [], ◌∷◌, ◌++◌, Bool, true, false, ◌||◌, if◌then◌else◌,
  ltb, length,
}
use ppanel_node.Base.Eq.{◌==◌, string_eq}
use ppanel_node.Base.Int.{ℤ}
use ppanel_node.Base.Map.{Map, lookup, insert}
use ppanel_node.Limiter.{Bucket, Manager, manager_get}
use ppanel_node.Limiter.Check.{Checked, check_limit}
use ppanel_node.Traffic.Counter.{TrafficCounter, new_traffic_counter, get_counter, counter_add}
use ppanel_node.Core.Users.{LinkManager, add_link}

-- What `DefaultDispatcher` keeps, and the number of pipes that have been made.
pub record Dispatcher : Type 0 where
  pub counters : Map String TrafficCounter
  pub link_managers : Map String LinkManager
  pub limiter_manager : Manager
  pub pipes : ℕ

-- `session.Inbound` of a user.
pub record SessionInbound : Type 0 where
  pub tag : String
  pub email : String
  pub source_ip : String
  pub is_tcp : Bool
  pub can_splice_copy : ℕ

-- The counter of a user at an inbound.
pub data CounterOf : Type 0 where
  up_counter down_counter : String → String → CounterOf

-- Pipes are numbered. A managed writer has the number of its key in the link manager.
pub data Writer : Type 0 where
  pipe_writer : ℕ → Writer
  managed : ℕ → Writer → Writer
  rate_limited : Bucket → Writer → Writer
  size_stat : CounterOf → Writer → Writer

pub data Reader : Type 0 where
  pipe_reader : ℕ → Reader
  counter_reader : CounterOf → Reader → Reader

pub record Link : Type 0 where
  pub reader : Reader
  pub writer : Writer

-- Whether the limiter of the inbound lets the user in, and with which bucket.
pub data Admission : Type 0 where
  refused : Admission
  admitted : Option Bucket → Admission

abbrev admission : Option Bucket × Bool → Admission
admission (w, true) = refused
admission (w, false) = admitted w

abbrev store_check : Dispatcher → String → Checked → Dispatcher × Admission
store_check d tag (l, w, reject) =
    (record d { limiter_manager = insert tag l d.limiter_manager }, admission (w, reject))

unfoldable pub admit : Dispatcher → SessionInbound → ℤ → Dispatcher × Admission
unfolding manager_get check_limit
admit d s now = elim (manager_get d.limiter_manager s.tag) [
  | none ↦ (d, refused)
  | some l ↦ store_check d s.tag (check_limit l s.email s.source_ip s.is_tcp now)
]

abbrev pub links_or_new : Option LinkManager → LinkManager
links_or_new none = []
links_or_new (some links) = links

-- `d.LinkManagers.LoadOrStore(user.Email, …)`
unfoldable pub load_links : Dispatcher → String → Dispatcher × LinkManager
load_links d email =
    let links = links_or_new (lookup email d.link_managers) in
    (record d { link_managers = insert email links d.link_managers }, links)

abbrev counter_or_new : Option TrafficCounter → TrafficCounter
counter_or_new none = new_traffic_counter
counter_or_new (some c) = c

-- `d.Counter.LoadOrStore(sessionInbound.Tag, …)`, and `GetCounter` of the user.
unfoldable pub load_counter : Dispatcher → String → String → Dispatcher
unfolding get_counter
load_counter d tag email =
    let c = counter_or_new (lookup tag d.counters) in
    record d { counters = insert tag (get_counter c email).0 d.counters }

abbrev limit_writer : Option Bucket → Writer → Writer
limit_writer none w = w
limit_writer (some bucket) w = rate_limited bucket w

abbrev splice : Option Bucket → SessionInbound → SessionInbound
splice none s = s
splice (some bucket) s = record s { can_splice_copy = 3 }

-- The two ends of a link, or the pipes that are closed and interrupted.
pub data Linked : Type 0 where
  linked : Link → Link → Linked
  link_closed : List ℕ → Linked

abbrev plain_link : ℕ → ℕ → Linked
plain_link up down =
    linked (record { reader = pipe_reader down; writer = pipe_writer up })
      (record { reader = pipe_reader up; writer = pipe_writer down })

-- What `getLink` makes of a user who is let in.
unfoldable pub user_link :
    Dispatcher → SessionInbound → ℕ → ℕ → Option Bucket → Dispatcher × SessionInbound × Linked
unfolding load_links load_counter add_link
user_link d s up down w =
    let (d', links) = load_links d s.email in
    let added : Dispatcher = record d' {
      link_managers = insert s.email (add_link links up up) d'.link_managers;
    } in
    let to_up = limit_writer w (managed up (pipe_writer up)) in
    let to_down = limit_writer w (pipe_writer down) in
    (
      load_counter added s.tag s.email,
      splice w s,
      linked
          (record {
            reader = pipe_reader down;
            writer = size_stat (up_counter s.tag s.email) to_up;
          })
          (record {
            reader = pipe_reader up;
            writer = size_stat (down_counter s.tag s.email) to_down;
          }),
    )

abbrev admit_link :
    SessionInbound → ℕ → ℕ → Dispatcher × Admission → Dispatcher × SessionInbound × Linked
admit_link s up down (d, refused) = (d, s, link_closed (up ∷ down ∷ []))
admit_link s up down (d, admitted w) = user_link d s up down w

-- `user != nil && len(user.Email) > 0`; a session without an inbound or a user has no email.
abbrev pub has_user : SessionInbound → Bool
has_user s = if s.email == "" then false else true

unfoldable pub get_link : Dispatcher → SessionInbound → ℤ → Dispatcher × SessionInbound × Linked
unfolding admit user_link
get_link d s now =
    let up = d.pipes in
    let down = d.pipes + 1 in
    let made : Dispatcher = record d { pipes = d.pipes + 2 } in
    if has_user s then admit_link s up down (admit made s now) else (made, s, plain_link up down)

-- The link that `DispatchLink` hands on, or `none` where it is closed.
unfoldable pub wrap_link :
    Dispatcher → SessionInbound → Link → Option Bucket → Dispatcher × SessionInbound × Option Link
unfolding load_links load_counter
wrap_link d s link w =
    let (d', links) = load_links d s.email in
    let to_down = limit_writer w (managed d'.pipes link.writer) in
    (
      load_counter (record d' { pipes = d'.pipes + 1 }) s.tag s.email,
      splice w s,
      some (record {
        reader = counter_reader (up_counter s.tag s.email) link.reader;
        writer = size_stat (down_counter s.tag s.email) to_down;
      }),
    )

abbrev admit_given :
    SessionInbound → Link → Dispatcher × Admission → Dispatcher × SessionInbound × Option Link
admit_given s link (d, refused) = (d, s, none)
admit_given s link (d, admitted w) = wrap_link d s link w

unfoldable pub dispatch_link :
    Dispatcher → SessionInbound → Link → ℤ → Dispatcher × SessionInbound × Option Link
unfolding admit wrap_link
dispatch_link d s link now =
    if has_user s then admit_given s link (admit d s now) else (d, s, some link)

-- A read through a `CounterReader`: the counter afterwards.
unfoldable pub count_read : ℕ → List ℕ → ℕ
count_read counter bytes =
    if ltb 0 (length bytes) then (counter_add counter (length bytes)).1 else counter
