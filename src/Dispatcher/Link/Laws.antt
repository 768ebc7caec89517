-- ===== src/Dispatcher/Link/Laws.antt =====
-- Which links are let in, how they are limited and counted, and which of them the removal of their user
-- closes.
use ppanel_node.Base.{
  ℕ, ◌+◌, Option, none, some, List, [], ◌∷◌, ◌++◌, Bool, true, false, ◌≡◌, refl, inl, inr,
  Option-cases,
}
use ppanel_node.Base.Eq.{string_eq, nat_eq}
use ppanel_node.Base.Int.{ℤ}
use ppanel_node.Base.Map.{lookup, insert, lookup-insert_self}
use ppanel_node.Limiter.{Limiter, Bucket, manager_get}
use ppanel_node.Limiter.Check.{check_limit}
use ppanel_node.Core.Users.{LinkManager, add_link, UserManagers, Core, forget_user}
use ppanel_node.Core.Users.Laws.{forget_user-closed}
use ppanel_node.Dispatcher.Link.{
  Dispatcher, SessionInbound, CounterOf, up_counter, down_counter, Writer, pipe_writer, managed,
  rate_limited, size_stat, Link, Admission, refused, admitted, admission, admit, links_or_new,
  Linked, linked, link_closed, has_user, user_link, admit_link, get_link,
}

-- The buckets that a write passes, and the counters.
abbrev pub buckets_of : Writer → List Bucket
buckets_of (pipe_writer n) = []
buckets_of (managed n w) = buckets_of w
buckets_of (rate_limited bucket w) = bucket ∷ buckets_of w
buckets_of (size_stat c w) = buckets_of w

abbrev pub counters_of : Writer → List CounterOf
counters_of (pipe_writer n) = []
counters_of (managed n w) = counters_of w
counters_of (rate_limited bucket w) = counters_of w
counters_of (size_stat c w) = c ∷ counters_of w

abbrev pub as_list : Option Bucket → List Bucket
as_list none = []
as_list (some bucket) = bucket ∷ []

-- The limiter of the inbound knows the user and does not reject the link; `w` is the bucket it gives.
abbrev pub LetIn : Dispatcher → SessionInbound → ℤ → Option Bucket → Type 0
LetIn d s now w =
    (l : Limiter) × (manager_get d.limiter_manager s.tag ≡ some l)
    × ((check_limit l s.email s.source_ip s.is_tcp now).1 ≡ w)
    × ((check_limit l s.email s.source_ip s.is_tcp now).2 ≡ false)

-- Asking the limiter changes nothing but the limiter.
abbrev pub SameLinks : Dispatcher → Dispatcher → Type 0
SameLinks d d' =
    (d'.counters ≡ d.counters) × (d'.link_managers ≡ d.link_managers) × (d'.pipes ≡ d.pipes)

abbrev pub Admits : Dispatcher → SessionInbound → ℤ → Admission → Type 0
Admits d s now refused = Unit {0}
Admits d s now (admitted w) = LetIn d s now w

checked-Admits :
    (d : Dispatcher) (s : SessionInbound) (now : ℤ) (l : Limiter) (w : Option Bucket)
    (reject : Bool)
    → manager_get d.limiter_manager s.tag ≡ some l
    → (check_limit l s.email s.source_ip s.is_tcp now).1 ≡ w
    → (check_limit l s.email s.source_ip s.is_tcp now).2 ≡ reject
    → Admits d s now (admission (w, reject))
checked-Admits d s now l w true known same out = tt
checked-Admits d s now l w false known same out = (l, known, same, out)

pub admit-Admits :
    (d : Dispatcher) (s : SessionInbound) (now : ℤ)
    → SameLinks d (admit d s now).0 × Admits d s now (admit d s now).1
unfolding admit
admit-Admits d s now = elim (Option-cases (manager_get d.limiter_manager s.tag)) [
  | inl unknown ↦ rw (unknown, admit) ((refl, refl, refl), tt)
  | inr (l, known) ↦
      let checked = check_limit l s.email s.source_ip s.is_tcp now in
      let admits = checked-Admits d s now l checked.1 checked.2 known refl refl in
      rw (known, admit) ((refl, refl, refl), admits)
]

-- Both ends of a user's link: each direction passes the user's bucket once and is counted once.
pub record IsMetered (s : SessionInbound) (w : Option Bucket) (i o : Link) : Type 0 where
  pub in_bucket : buckets_of i.writer ≡ as_list w
  pub out_bucket : buckets_of o.writer ≡ as_list w
  pub in_counter : counters_of i.writer ≡ up_counter s.tag s.email ∷ []
  pub out_counter : counters_of o.writer ≡ down_counter s.tag s.email ∷ []

-- What `getLink` does for a user: a link that was let in, or nothing but closing its pipes.
abbrev pub IsAccounted : Dispatcher → SessionInbound → ℤ → Dispatcher → Linked → Type 0
IsAccounted d s now d' (linked i o) = (w : Option Bucket) × LetIn d s now w × IsMetered s w i o
IsAccounted d s now d' (link_closed pipes) =
    (pipes ≡ d.pipes ∷ (d.pipes + 1) ∷ [])
    × (d'.counters ≡ d.counters)
    × (d'.link_managers ≡ d.link_managers)

user_link-IsMetered :
    (d : Dispatcher) (s : SessionInbound) (now : ℤ) (d' : Dispatcher) (up down : ℕ)
    (w : Option Bucket)
    → LetIn d s now w
    → IsAccounted d s now (user_link d' s up down w).0 (user_link d' s up down w).2
unfolding user_link
user_link-IsMetered d s now d' up down none let_in = (
  none,
  let_in,
  record { in_bucket = refl; out_bucket = refl; in_counter = refl; out_counter = refl },
)
user_link-IsMetered d s now d' up down (some bucket) let_in = (
  some bucket,
  let_in,
  record { in_bucket = refl; out_bucket = refl; in_counter = refl; out_counter = refl },
)

abbrev fresh_pipes : Dispatcher → Dispatcher
fresh_pipes d = record d { pipes = d.pipes + 2 }

admit_link-IsAccounted :
    (d : Dispatcher) (s : SessionInbound) (now : ℤ) (d' : Dispatcher) (a : Admission)
    → SameLinks (fresh_pipes d) d'
    → Admits (fresh_pipes d) s now a
    → IsAccounted d s now
        (admit_link s d.pipes (d.pipes + 1) (d', a)).0
        (admit_link s d.pipes (d.pipes + 1) (d', a)).2
admit_link-IsAccounted d s now d' refused same admits = (refl, same.0, same.1)
admit_link-IsAccounted d s now d' (admitted w) same admits =
    user_link-IsMetered d s now d' d.pipes (d.pipes + 1) w admits

-- `getLink` gives a user a link only if the limiter of the inbound knows the user and lets the link in;
-- then each direction passes the user's bucket once, and is counted once, by its own counter. Otherwise
-- it closes both pipes, and no counter and no link manager changes.
pub get_link-IsAccounted :
    (d : Dispatcher) (s : SessionInbound) (now : ℤ)
    → has_user s ≡ true
    → IsAccounted d s now (get_link d s now).0 (get_link d s now).2
unfolding get_link
get_link-IsAccounted d s now user =
    let (same, admits) = admit-Admits (fresh_pipes d) s now in
    let (d', a) = admit (fresh_pipes d) s now in
    rw user (admit_link-IsAccounted d s now d' a same admits)

-- The link is among those that the removal of its user closes.
abbrev pub ClosedWith : (m : UserManagers) → Core m → SessionInbound → ℕ → Type 0
ClosedWith m c s writer =
    (links : LinkManager) × ((forget_user m s.tag s.email c).closed ≡ c.closed ++ links)
    × (lookup writer links ≡ some writer)

abbrev IsClosable : (m : UserManagers) → Core m → SessionInbound → ℕ → Linked → Type 0
IsClosable m c s writer (linked i o) = ClosedWith m c s writer
IsClosable m c s writer (link_closed pipes) = Unit {0}

user_link-ClosedWith :
    (m : UserManagers) (c : Core m) (d : Dispatcher) (s : SessionInbound) (up down : ℕ)
    (w : Option Bucket)
    → c.link_managers ≡ (user_link d s up down w).0.link_managers
    → ClosedWith m c s up
unfolding user_link
user_link-ClosedWith m c d s up down w same =
    let old = links_or_new (lookup s.email d.link_managers) in
    let known : lookup s.email c.link_managers ≡ some (add_link old up up) =
      rw same
        (lookup-insert_self s.email (add_link old up up) (insert s.email old d.link_managers)) in
    (
      add_link old up up,
      forget_user-closed m c s.tag s.email (add_link old up up) known,
      unfold add_link in lookup-insert_self up up old,
    )

admit_link-IsClosable :
    (m : UserManagers) (c : Core m) (s : SessionInbound) (up down : ℕ) (d : Dispatcher)
    (a : Admission)
    → c.link_managers ≡ (admit_link s up down (d, a)).0.link_managers
    → IsClosable m c s up (admit_link s up down (d, a)).2
unfolding user_link
admit_link-IsClosable m c s up down d refused same = tt
admit_link-IsClosable m c s up down d (admitted w) same =
    user_link-ClosedWith m c d s up down w same

-- A link that `getLink` gives a user is closed when the user is removed from the core, as far as no
-- other call has touched the link managers.
pub get_link-IsClosable :
    (m : UserManagers) (c : Core m) (d : Dispatcher) (s : SessionInbound) (now : ℤ)
    → has_user s ≡ true
    → c.link_managers ≡ (get_link d s now).0.link_managers
    → IsClosable m c s d.pipes (get_link d s now).2
unfolding get_link
get_link-IsClosable m c d s now user same =
    let (d', a) = admit (fresh_pipes d) s now in
    let same' : c.link_managers ≡ (admit_link s d.pipes (d.pipes + 1) (d', a)).0.link_managers =
      rw user at same in
    rw user (admit_link-IsClosable m c s d.pipes (d.pipes + 1) d' a same')
