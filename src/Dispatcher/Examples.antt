-- ===== src/Dispatcher/Examples.antt =====
-- The dispatcher at concrete links: one user with a speed limit on one inbound.
use ppanel_node.Base.{
  ℕ, ◌≡◌, ◌≢◌, String, Option, none, some, List, [], ◌∷◌, true, false, refl, sym, ◌∙◌, arith,
  replicate, if◌then◌else◌, nat_beq,
}
use ppanel_node.Base.Eq.{◌==◌, string_eq}
use ppanel_node.Base.Int.{pos}
use ppanel_node.Base.Map.{lookup, insert}
use ppanel_node.Base.Text.{has_prefix, strip_prefix}
use ppanel_node.Panel.Types.{UserInfo}
use ppanel_node.Panel.Format.{user_tag}
use ppanel_node.Limiter.{manager_add, manager_get, user_limit, determine_speed_limit}
use ppanel_node.Limiter.Check.{check_limit, at_capacity, bytes_per_second}
use ppanel_node.Traffic.Counter.{get_counter}
use ppanel_node.Core.Users.{add_link, UserManagers, Core}
use ppanel_node.Dispatcher.Sniffer.{
  tcp, header, no_clue, need_more_data, read_timeout, read_failed, unknown_content,
  sniffing_timeout, Answer, ProtocolSniffer, sniff, sniff_each, verdict, is_skipped, give_up,
  protocol_for_domain, domain_of, protocol_of,
}
use ppanel_node.Dispatcher.Sniffer.FakeDns.{FakeDns, Probes, content_sniffers}
use ppanel_node.Dispatcher.Sniffer.Filters.{
  of_network, first_result, without_clue, concluded, sniff-first_result,
}
use ppanel_node.Dispatcher.Content.{
  CachedReader, Round, content_loop, cache_deadline, cache_read, sniff_round, after_sniff,
  check_attempts,
}
use ppanel_node.Dispatcher.Content.Laws.{remaining, content_loop-remaining}
use ppanel_node.Dispatcher.Content.Timeout.{reads, content_loop_timeout}
use ppanel_node.Dispatcher.Override.{
  Addresses, Destination, SniffingRequest, Outbound, apply_sniffed, aim, should_override, retarget,
  any_override,
}
use ppanel_node.Dispatcher.Override.Laws.{told, apply_sniffed_route_only}
use ppanel_node.Dispatcher.Route.{
  Handler, Handlers, no_route, route, closed, routed_dispatch, pick_handler, meant_for,
  dispatched_to, routed_dispatch_lem,
}
use ppanel_node.Dispatcher.Link.{
  Dispatcher, SessionInbound, Link, pipe_reader, pipe_writer, get_link, dispatch_link, user_link,
  admit, load_links, load_counter,
}
use ppanel_node.Dispatcher.Link.Laws.{IsAccounted, get_link-IsAccounted}
use ppanel_node.Dispatcher.Link.Given.{IsLeftOpen, dispatch_link-IsLeftOpen}
use ppanel_node.Dispatcher.Dispatch.{Env, Run, sniff_and_route, sniff_and_route_total}

abbrev alice : UserInfo
alice = record { id = pos 7; uuid = "alice"; speed_limit = pos 8; device_limit = pos 0 }

abbrev users : List UserInfo
users = alice ∷ []

dispatcher : Dispatcher
dispatcher = record {
  counters = [];
  link_managers = [];
  limiter_manager = (manager_add [] "in" users [] "vless").0;
  pipes = 4;
}

abbrev session : SessionInbound
session = record {
  tag = "in";
  email = "in|alice";
  source_ip = "10.0.0.1";
  is_tcp = true;
  can_splice_copy = 1;
}

-- A link is made and limited.
get_link_splice : (get_link dispatcher session (pos 0)).1.can_splice_copy ≡ 3
unfolding get_link user_link admit load_links load_counter dispatcher manager_add manager_get
    check_limit lookup insert user_tag get_counter add_link user_limit at_capacity bytes_per_second
    determine_speed_limit
get_link_splice = refl

get_link-IsAccounted_example :
    IsAccounted dispatcher session
      (pos 0)
      (get_link dispatcher session (pos 0)).0
      (get_link dispatcher session (pos 0)).2
get_link-IsAccounted_example = get_link-IsAccounted dispatcher session (pos 0) refl

abbrev managers : UserManagers
managers = record {
  State = ℕ;
  has_manager = λ s tag. true;
  remove_user = λ s tag user. (s, false);
  add_user = λ s tag user. (s, false);
  is_usable = λ user. true;
}

given : Link
given = record { reader = pipe_reader 1; writer = pipe_writer 2 }

core : Core managers
core = record {
  managers = 0;
  uid_map = [];
  counters = [];
  link_managers = (dispatch_link dispatcher session given (pos 0)).0.link_managers;
  closed = [];
}

dispatch_link-IsLeftOpen_example :
    IsLeftOpen managers core dispatcher session given
      (pos 0)
      (dispatch_link dispatcher session given (pos 0)).2
dispatch_link-IsLeftOpen_example =
    dispatch_link-IsLeftOpen managers core dispatcher session given (pos 0) refl
      (unfold core in refl)

-- A TLS sniffer that wants three bytes, and an HTTP sniffer that knows a G.
tls_answer : List ℕ → Answer
tls_answer (a ∷ b ∷ c ∷ rest) = (some (header "tls" "example.org"), none)
tls_answer _ = (none, some need_more_data)

http_answer : List ℕ → Answer
http_answer [] = (none, some no_clue)
http_answer (b ∷ bytes) =
    if nat_beq b 71 then (none, some no_clue) else (none, some unknown_content)

abbrev probes : Probes
probes = record {
  sniff_http = http_answer;
  sniff_tls = tls_answer;
  sniff_bittorrent = λ bytes. (none, some unknown_content);
  sniff_quic = λ bytes. (none, some unknown_content);
  sniff_utp = λ bytes. (none, some unknown_content);
}

sniff-first_result_example :
    sniff (content_sniffers probes) tcp (71 ∷ 2 ∷ [])
    ≡ concluded
        (content_sniffers probes)
        (without_clue (71 ∷ 2 ∷ []) (of_network tcp (content_sniffers probes)))
        (first_result (71 ∷ 2 ∷ []) (of_network tcp (content_sniffers probes)))
sniff-first_result_example = sniff-first_result (content_sniffers probes) tcp (71 ∷ 2 ∷ [])

abbrev tls_only : ProtocolSniffer
tls_only = record {
  protocol_sniffer = λ bytes. elim bytes [ none ↦ tls_answer [] | some b ↦ tls_answer b ];
  metadata_sniffer = false;
  network = tcp;
}

abbrev fake : FakeDns
fake = record { domain_from_fake_dns = ""; is_ip_in_ip_pool = some true }

-- Two bytes come first, then three.
reader : CachedReader
reader = record {
  source = (71 ∷ 2 ∷ [], none) ∷ (3 ∷ 4 ∷ 5 ∷ [], none) ∷ [];
  cache = [];
  error = none;
}

abbrev rounds : List Round
rounds = record { is_done = false; elapsed = 5 } ∷ record { is_done = false; elapsed = 5 } ∷ []

abbrev read_all : CachedReader
read_all = record { source = []; cache = 71 ∷ 2 ∷ 3 ∷ 4 ∷ 5 ∷ []; error = none }

content_loop_reads :
    content_loop 100 tcp rounds (content_sniffers probes, reader) cache_deadline 0
    ≡ some (read_all, (none, some sniffing_timeout))
unfolding content_loop sniff_round sniff sniff_each verdict is_skipped give_up after_sniff
    check_attempts cache_read reader http_answer tls_answer
content_loop_reads = refl

content_loop-remaining_example : remaining read_all ≡ remaining reader
content_loop-remaining_example =
    content_loop-remaining 100 tcp rounds (content_sniffers probes, reader) cache_deadline 0
      read_all (none, some sniffing_timeout) content_loop_reads

late : CachedReader
late = record {
  source = ([], some read_timeout) ∷ (71 ∷ 2 ∷ [], none) ∷ [];
  cache = [];
  error = none;
}

abbrev first_round : Round
first_round = record { is_done = false; elapsed = 200000000 }

content_loop_timeout_example :
    (r : CachedReader) × (content_loop 100 tcp
        (first_round ∷ [])
        (content_sniffers probes, late)
        cache_deadline
        0
      ≡ some (r, (none, some (read_failed read_timeout))))
    × (r.source ≡ (71 ∷ 2 ∷ [], none) ∷ [])
    × (reads 3 r ≡ replicate 3 ([], some read_timeout))
unfolding late
content_loop_timeout_example =
    content_loop_timeout 100 3 tcp first_round [] (content_sniffers probes, late) cache_deadline 0
      ((71 ∷ 2 ∷ [], none) ∷ []) refl refl refl

-- Addresses are numbers; a sniffed domain is the address 0.
abbrev numbers : Addresses
numbers = record { Address = ℕ; is_ip = λ n. false; parse_address = λ domain. 0 }

abbrev web : Destination numbers
web = record { address = 9; port = 443; network = tcp }

abbrev route_only : SniffingRequest numbers
route_only = record {
  enabled = true;
  metadata_only = false;
  route_only = true;
  exclude_for_domain = none;
  exclude_for_ip = none;
  override_destination_for_protocol = "tls" ∷ [];
}

abbrev fresh : Outbound numbers
fresh = record { original_target = web; target = web; route_target = none; tag = "" }

abbrev tls_header : Answer
tls_header = (some (header "tls" "example.org"), none)

-- The router is given the domain.
routed_by_domain :
    (apply_sniffed numbers none route_only web (aim numbers web fresh) tls_header).0.route_target
    ≡ some (record { address = 0; port = 443; network = tcp })
unfolding apply_sniffed should_override retarget any_override has_prefix strip_prefix
    protocol_for_domain domain_of protocol_of
routed_by_domain = refl

apply_sniffed_route_only_example :
    (apply_sniffed numbers none route_only web (aim numbers web fresh) tls_header).0
    ≡ record (aim numbers web fresh) {
      route_target = told numbers none route_only web fresh.route_target tls_header;
    }
unfolding protocol_for_domain protocol_of
apply_sniffed_route_only_example =
    apply_sniffed_route_only numbers none route_only web fresh tls_header refl refl
      (tls_ne "fakedns" refl, tls_ne "fakedns+others" refl)
  where
    tls_ne : (s : String) → ("tls" == s) ≡ false → "tls" ≢ s
    tls_ne s differ same =
        let clash : true ≡ false = sym ((string_eq.beq_iff "tls" s).1 same) ∙ differ in cc clash

abbrev direct : Handler
direct = record { number = 1; tag = "direct" }

find_handler : String → Option Handler
find_handler tag = if tag == "direct" then some direct else none

abbrev handlers : Handlers
handlers = record { get_handler = find_handler; default_handler = some direct }

routed_to_missing : (routed_dispatch handlers (route "warp") "" "in").2 ≡ closed
unfolding routed_dispatch pick_handler find_handler
routed_to_missing = refl

routed_dispatch_lem_example :
    (
      (routed_dispatch handlers (route "warp") "" "in").0,
      (routed_dispatch handlers (route "warp") "" "in").2,
    )
    ≡ dispatched_to (meant_for handlers (route "warp") "")
routed_dispatch_lem_example = routed_dispatch_lem handlers (route "warp") "" "in"

abbrev env : Env numbers
env = record {
  is_valid = λ d. true;
  probes = probes;
  fake_dns = λ d. none;
  fake_pool = none;
  handlers = handlers;
  pick_route = λ ob. no_route;
  forced_tag = "";
  capacity = 100;
}

sniff_and_route_total_example :
    (run : Run numbers) × (sniff_and_route numbers env "in" route_only web fresh rounds reader
      ≡ some run)
sniff_and_route_total_example =
    sniff_and_route_total numbers env "in" route_only web fresh rounds reader (omega arith)
