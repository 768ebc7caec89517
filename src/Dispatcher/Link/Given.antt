-- ===== src/Dispatcher/Link/Given.antt =====
-- Links that `DispatchLink` is given: how they are limited and counted, and that no link manager has them.
use ppanel_node.Base.{Option, none, some, ◌∷◌, ◌++◌, true, ◌≡◌, refl, ap, ◌∙◌}
use ppanel_node.Base.Eq.{string_eq, nat_eq}
use ppanel_node.Base.Int.{ℤ}
use ppanel_node.Base.Map.{lookup, lookup-insert_self}
use ppanel_node.Limiter.{Bucket}
use ppanel_node.Core.Users.{UserManagers, Core, forget_user}
use ppanel_node.Core.Users.Laws.{forget_user-closed}
use ppanel_node.Dispatcher.Link.{
  Dispatcher, SessionInbound, up_counter, down_counter, Writer, managed, counter_reader, Link,
  Admission, refused, admitted, admit, links_or_new, limit_writer, has_user, wrap_link, admit_given,
  dispatch_link,
}
use ppanel_node.Dispatcher.Link.Laws.{buckets_of, counters_of, as_list, LetIn, Admits, admit-Admits}

-- The link of `DispatchLink` for a user: let in, its writes limited and counted, and its reads counted.
-- Removing the user closes exactly the links that were there before.
abbrev pub IsLeftOpen :
    (m : UserManagers) → Core m → Dispatcher → SessionInbound → Link → ℤ → Option Link → Type 0
IsLeftOpen m c d s link now none = Unit {0}
IsLeftOpen m c d s link now (some link') =
    ((w : Option Bucket) × LetIn d s now w
      × (buckets_of link'.writer ≡ as_list w ++ buckets_of link.writer)
      × (counters_of link'.writer ≡ down_counter s.tag s.email ∷ counters_of link.writer)
      × (link'.reader ≡ counter_reader (up_counter s.tag s.email) link.reader))
    × ((forget_user m s.tag s.email c).closed
        ≡ c.closed ++ links_or_new (lookup s.email d.link_managers))

limit_writer-buckets :
    (w : Option Bucket) (writer : Writer)
    → buckets_of (limit_writer w writer) ≡ as_list w ++ buckets_of writer
limit_writer-buckets none writer = refl
limit_writer-buckets (some bucket) writer = refl

limit_writer-counters :
    (w : Option Bucket) (writer : Writer) → counters_of (limit_writer w writer) ≡ counters_of writer
limit_writer-counters none writer = refl
limit_writer-counters (some bucket) writer = refl

wrap_link-IsLeftOpen :
    (m : UserManagers) (c : Core m) (d d' : Dispatcher) (s : SessionInbound) (link : Link) (now : ℤ)
    (w : Option Bucket)
    → d'.link_managers ≡ d.link_managers
    → LetIn d s now w
    → c.link_managers ≡ (wrap_link d' s link w).0.link_managers
    → IsLeftOpen m c d s link now (wrap_link d' s link w).2
unfolding wrap_link
wrap_link-IsLeftOpen m c d d' s link now w before let_in after =
    let old = links_or_new (lookup s.email d'.link_managers) in
    let known : lookup s.email c.link_managers ≡ some old =
      rw after (lookup-insert_self s.email old d'.link_managers) in
    let closed = forget_user-closed m c s.tag s.email old known in
    (
      (
        w,
        let_in,
        limit_writer-buckets w (managed d'.pipes link.writer),
        ap (λ cs. down_counter s.tag s.email ∷ cs)
            (limit_writer-counters w (managed d'.pipes link.writer)),
        refl,
      ),
      closed ∙ ap (λ ms. c.closed ++ links_or_new (lookup s.email ms)) before,
    )

admit_given-IsLeftOpen :
    (m : UserManagers) (c : Core m) (d d' : Dispatcher) (s : SessionInbound) (link : Link) (now : ℤ)
    (a : Admission)
    → d'.link_managers ≡ d.link_managers
    → Admits d s now a
    → c.link_managers ≡ (admit_given s link (d', a)).0.link_managers
    → IsLeftOpen m c d s link now (admit_given s link (d', a)).2
admit_given-IsLeftOpen m c d d' s link now refused before admits after = tt
admit_given-IsLeftOpen m c d d' s link now (admitted w) before admits after =
    wrap_link-IsLeftOpen m c d d' s link now w before admits after

-- `DispatchLink` lets a user's link in on the same condition as `getLink` and counts both directions,
-- but limits only what is written to the user, and does not enter the link in the user's link manager:
-- the removal of the user closes exactly the links that were there before, and not this one.
pub dispatch_link-IsLeftOpen :
    (m : UserManagers) (c : Core m) (d : Dispatcher) (s : SessionInbound) (link : Link) (now : ℤ)
    → has_user s ≡ true
    → c.link_managers ≡ (dispatch_link d s link now).0.link_managers
    → IsLeftOpen m c d s link now (dispatch_link d s link now).2
unfolding dispatch_link
dispatch_link-IsLeftOpen m c d s link now user after =
    let (same, admits) = admit-Admits d s now in
    let (d', a) = admit d s now in
    let after' : c.link_managers ≡ (admit_given s link (d', a)).0.link_managers =
      rw user at after in
    rw user (admit_given-IsLeftOpen m c d d' s link now a same.1 admits after')
