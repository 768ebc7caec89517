-- ===== src/Dispatcher/Route.antt =====
-- core/app/dispatcher/default.go: `routedDispatch`, the choice of the outbound handler. The handlers and
-- the router of xray-core are parameters.
use ppanel_node.Base.{
  ℕ, String, Option, none, some, if◌then◌else◌, ◌≡◌, inl, inr, arith, Bool-cases,
}
use ppanel_node.Base.Eq.{◌==◌, string_eq}
use Prim.Native.String.{◌++◌}

-- `outbound.Handler`, by a number and its `Tag`.
pub record Handler : Type 0 where
  pub number : ℕ
  pub tag : String

-- What the router says: `nil` for no router, an error, or the tag of an outbound.
pub data Routing : Type 0 where
  no_router no_route : Routing
  route : String → Routing

pub record Handlers : Type 0 where
  pub get_handler : String → Option Handler
  pub default_handler : Option Handler

-- How the handler was picked: `isPickRoute` is 0, 1 or 2; `missing` is an early return.
pub data Picked : Type 0 where
  missing : Picked
  by_default : Option Handler → Picked
  forced by_route : Handler → Picked

-- The link is closed and interrupted, or the handler dispatches it, with the forced tag that is left in
-- the context.
pub data Routed : Type 0 where
  closed : Routed
  handled : Handler → String → Routed

abbrev forced_or_missing : Option Handler → Picked
forced_or_missing none = missing
forced_or_missing (some h) = forced h

abbrev routed_or_missing : Option Handler → Picked
routed_or_missing none = missing
routed_or_missing (some h) = by_route h

abbrev pick_routed : Handlers → Routing → Picked
pick_routed hs no_router = by_default hs.default_handler
pick_routed hs no_route = by_default hs.default_handler
pick_routed hs (route tag) = routed_or_missing (hs.get_handler tag)

unfoldable pub pick_handler : Handlers → Routing → String → Picked
pick_handler hs routing forced_tag =
    if forced_tag == ""
    then pick_routed hs routing
    else forced_or_missing (hs.get_handler forced_tag)

-- `accessMessage.Detour`, `none` where it is left alone.
unfoldable pub detour : String → String → String → Option String
detour in_tag arrow tag =
    if tag == "" then none else if in_tag == "" then some tag else some (in_tag ++ (arrow ++ tag))

-- The tag written to the outbound, the detour, and what becomes of the link.
abbrev pub Dispatched : Type 0
Dispatched = Option String × Option String × Routed

abbrev dispatch_picked : String → Picked → Dispatched
dispatch_picked in_tag missing = (none, none, closed)
dispatch_picked in_tag (by_default none) = (none, none, closed)
dispatch_picked in_tag (by_default (some h)) =
    (some h.tag, detour in_tag " >> " h.tag, handled h "")
dispatch_picked in_tag (forced h) = (some h.tag, detour in_tag " ==> " h.tag, handled h "")
dispatch_picked in_tag (by_route h) = (some h.tag, detour in_tag " -> " h.tag, handled h "")

unfoldable pub routed_dispatch : Handlers → Routing → String → String → Dispatched
unfolding pick_handler detour
routed_dispatch hs routing forced_tag in_tag =
    dispatch_picked in_tag (pick_handler hs routing forced_tag)

-- The handler that a link is meant for: the one that is forced, else the one of the route, else the
-- default.
abbrev pub meant_for : Handlers → Routing → String → Option Handler
meant_for hs routing forced_tag =
    let routed : Option Handler = elim routing [
      | no_router ↦ hs.default_handler
      | no_route ↦ hs.default_handler
      | route tag ↦ hs.get_handler tag
    ] in
    if forced_tag == "" then routed else hs.get_handler forced_tag

abbrev pub dispatched_to : Option Handler → Option String × Routed
dispatched_to none = (none, closed)
dispatched_to (some h) = (some h.tag, handled h "")

pick_routed_lem :
    (hs : Handlers) (routing : Routing) (in_tag : String)
    → (
      (dispatch_picked in_tag (pick_routed hs routing)).0,
      (dispatch_picked in_tag (pick_routed hs routing)).2,
    )
      ≡ dispatched_to (elim routing [
        | no_router ↦ hs.default_handler
        | no_route ↦ hs.default_handler
        | route tag ↦ hs.get_handler tag
      ])
pick_routed_lem hs no_router in_tag = ground arith
pick_routed_lem hs no_route in_tag = ground arith
pick_routed_lem hs (route tag) in_tag = ground arith

-- A link goes to the handler that it is meant for, and no outbound tag stays forced. Where that handler
-- does not exist the link is closed: the default handler never takes a link that was forced or routed
-- to a tag that is missing.
pub routed_dispatch_lem :
    (hs : Handlers) (routing : Routing) (forced_tag in_tag : String)
    → (
      (routed_dispatch hs routing forced_tag in_tag).0,
      (routed_dispatch hs routing forced_tag in_tag).2,
    )
      ≡ dispatched_to (meant_for hs routing forced_tag)
unfolding routed_dispatch pick_handler
routed_dispatch_lem hs routing forced_tag in_tag = elim (Bool-cases (forced_tag == "")) [
  | inl free ↦ rw free (pick_routed_lem hs routing in_tag)
  | inr bound ↦ rw bound (ground arith)
]
