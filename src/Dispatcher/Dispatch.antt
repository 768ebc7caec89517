-- ===== src/Dispatcher/Dispatch.antt =====
-- core/app/dispatcher/default.go: `Dispatch` and `DispatchLink` as a whole. What they find in the
-- context is the argument `Env`; the goroutine of `Dispatch` is run to its end.
use ppanel_node.Base.{
  ℕ, ◌≤◌, String, Option, none, some, List, Bool, if◌then◌else◌, ◌≡◌, refl, length, Bool-cases, inl,
  inr,
}
use ppanel_node.Base.Int.{ℤ}
use ppanel_node.Dispatcher.Sniffer.{Answer}
use ppanel_node.Dispatcher.Sniffer.FakeDns.{FakeDns, Probes}
use ppanel_node.Dispatcher.Content.{CachedReader, Round, sniff_link}
use ppanel_node.Dispatcher.Content.Laws.{sniff_link_total}
use ppanel_node.Dispatcher.Override.{
  Addresses, Destination, SniffingRequest, Outbound, apply_sniffed, aim,
}
use ppanel_node.Dispatcher.Route.{Routing, Handlers, Routed, routed_dispatch}
use ppanel_node.Dispatcher.Link.{
  Dispatcher, SessionInbound, Link, Linked, linked, link_closed, get_link, dispatch_link,
}

module _ (a : Addresses) where
  pub record Env : Type 0 where
    pub is_valid : Destination a → Bool
    pub probes : Probes
    pub fake_dns : Destination a → Option FakeDns
    pub fake_pool : Option (a.Address → Bool)
    pub handlers : Handlers
    pub pick_route : Outbound a → Routing
    pub forced_tag : String
    pub capacity : ℕ

  -- The outbound of the session with its tag, the detour, what becomes of the link, the protocol of the
  -- content, and the reader that the handler is given.
  pub record Run : Type 0 where
    pub outbound : Outbound a
    pub detour : Option String
    pub routed : Routed
    pub protocol : Option String
    pub reader : CachedReader

  abbrev tagged : Outbound a → Option String → Outbound a
  tagged ob none = ob
  tagged ob (some tag) = record ob { tag = tag }

  unfoldable pub route_outbound : Env → String → CachedReader → Outbound a × Option String → Run
  unfolding routed_dispatch
  route_outbound env in_tag reader (ob, protocol) =
      let (tag, detour, routed) =
        routed_dispatch env.handlers (env.pick_route ob) env.forced_tag in_tag in
      record {
        outbound = tagged ob tag;
        detour = detour;
        routed = routed;
        protocol = protocol;
        reader = reader;
      }

  abbrev route_sniffed :
      Env
      → String
      → SniffingRequest a
      → Destination a
      → Outbound a
      → Option (CachedReader × Answer)
      → Option Run
  route_sniffed env in_tag request d ob none = none
  route_sniffed env in_tag request d ob (some (r, answer)) =
      some (route_outbound env in_tag r (apply_sniffed a env.fake_pool request d ob answer))

  -- From the link on: with sniffing or without. `none` when the passes of sniffing are used up.
  unfoldable pub sniff_and_route :
      Env
      → String
      → SniffingRequest a
      → Destination a
      → Outbound a
      → List Round
      → CachedReader
      → Option Run
  unfolding sniff_link route_outbound apply_sniffed
  sniff_and_route env in_tag request d ob rounds r =
      let answer =
        sniff_link env.capacity env.probes (env.fake_dns d) d.network request.metadata_only
          d.network rounds r in
      if request.enabled
      then route_sniffed env in_tag request d ob answer
      else some (route_outbound env in_tag r (ob, none))

  pub data Result : Type 0 where
    invalid_destination : Result
    not_linked : Result
    dispatched : Link → Option Run → Result

  abbrev with_link : Linked → Option Run → Result
  with_link (link_closed pipes) run = not_linked
  with_link (linked inbound outbound) run = dispatched inbound run

  -- `Dispatch`; `r` is the reader of the uplink. An invalid destination panics there.
  unfoldable pub dispatch :
      Env
      → Dispatcher
      → SessionInbound
      → SniffingRequest a
      → Destination a
      → Outbound a
      → ℤ
      → List Round
      → CachedReader
      → Dispatcher × Result
  unfolding get_link sniff_and_route
  dispatch env d s request destination ob now rounds r =
      let (d', s', ends) = get_link d s now in
      let run = sniff_and_route env s.tag request destination (aim a destination ob) rounds r in
      if env.is_valid destination then (d', with_link ends run) else (d, invalid_destination)

  abbrev with_given : Option Link → Option Run → Result
  with_given none run = not_linked
  with_given (some link) run = dispatched link run

  -- `DispatchLink`; `r` is the reader of the link that is given.
  unfoldable pub dispatch_given :
      Env
      → Dispatcher
      → SessionInbound
      → SniffingRequest a
      → Destination a
      → Outbound a
      → Link
      → ℤ
      → List Round
      → CachedReader
      → Dispatcher × Result
  unfolding dispatch_link sniff_and_route
  dispatch_given env d s request destination ob link now rounds r =
      let (d', s', given) = dispatch_link d s link now in
      let run = sniff_and_route env s.tag request destination (aim a destination ob) rounds r in
      if env.is_valid destination then (d', with_given given run) else (d, invalid_destination)

  route_sniffed_total :
      (env : Env) (in_tag : String) (request : SniffingRequest a) (d : Destination a)
      (ob : Outbound a) (o : Option (CachedReader × Answer)) (y : CachedReader × Answer)
      → o ≡ some y
      → (run : Run) × (route_sniffed env in_tag request d ob o ≡ some run)
  route_sniffed_total env in_tag request d ob none y e = cc
  route_sniffed_total env in_tag request d ob (some (r, answer)) y e =
      (route_outbound env in_tag r (apply_sniffed a env.fake_pool request d ob answer), refl)

  -- A link that is let in gets to its routing: sniffing holds it up for two passes at most.
  pub sniff_and_route_total :
      (env : Env) (in_tag : String) (request : SniffingRequest a) (d : Destination a)
      (ob : Outbound a) (rounds : List Round) (r : CachedReader)
      → 2 ≤ length rounds
      → (run : Run) × (sniff_and_route env in_tag request d ob rounds r ≡ some run)
  unfolding sniff_and_route
  sniff_and_route_total env in_tag request d ob rounds r enough =
      elim (Bool-cases request.enabled) [
        | inl sniffing ↦
            let (y, e) =
              sniff_link_total env.capacity env.probes (env.fake_dns d) d.network d.network
                request.metadata_only rounds r enough in
            rw sniffing (
              route_sniffed_total env in_tag request d ob
                (sniff_link env.capacity env.probes (env.fake_dns d) d.network request.metadata_only
                  d.network rounds r)
                y e)
        | inr plain ↦ rw plain (route_outbound env in_tag r (ob, none), refl)
      ]
