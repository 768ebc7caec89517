-- ===== src/Traffic/Slice.antt =====
-- core/user.go: `GetUserTrafficSlice`, which takes off the counters what is to be reported.
pub mod Laws
use ppanel_node.Base.{
  ℕ, String, Option, none, some, List, [], ◌∷◌, Bool, true, false, if◌then◌else◌,
}
use ppanel_node.Base.Eq.{◌==◌, string_eq}
use ppanel_node.Base.Int.{ℤ, pos, int_eq}
use ppanel_node.Base.Map.{Map, lookup, insert}
use ppanel_node.Panel.Types.{UserTraffic}
use ppanel_node.Traffic.Word.{add64, lt64}
use ppanel_node.Traffic.Counter.{TrafficStorage, TrafficCounter, zero_storage}

-- `uidMap[email]`, 0 for a user that is not there.
unfoldable pub uid_of : Map String ℤ → String → ℤ
uid_of uids email = elim (lookup email uids) [ none ↦ pos 0 | some uid ↦ uid ]

unfoldable pub is_known : Map String ℤ → String → Bool
unfolding uid_of
is_known uids email = if uid_of uids email == pos 0 then false else true

-- The traffic of an entry, with both counters swapped for zero.
abbrev pub swapped : Map String ℤ → String → TrafficStorage → UserTraffic
swapped uids email s = record {
  uid = uid_of uids email;
  upload = s.up_counter;
  download = s.down_counter;
}

-- `Range` over the counters: an entry above the threshold is emptied and reported, or deleted when
-- its user is gone; the others stay. `mintraffic` is the bit pattern of `int64(mintraffic)`.
unfoldable pub slice_entries : Map String ℤ → ℕ → TrafficCounter → TrafficCounter × List UserTraffic
slice_entries uids mintraffic [] = ([], [])
slice_entries uids mintraffic ((email, s) ∷ c) =
    let (c', out) = slice_entries uids mintraffic c in
    if lt64 mintraffic (add64 s.up_counter s.down_counter)
    then (if is_known uids email
        then ((email, zero_storage) ∷ c', swapped uids email s ∷ out)
        else (c', out))
    else ((email, s) ∷ c', out)

abbrev pub nil_if_empty : List UserTraffic → Option (List UserTraffic)
nil_if_empty [] = none
nil_if_empty (t ∷ ts) = some (t ∷ ts)

-- `none` is a nil slice.
unfoldable pub get_user_traffic_slice :
    Map String TrafficCounter
    → Map String ℤ
    → String
    → ℕ
    → Map String TrafficCounter × Option (List UserTraffic)
unfolding slice_entries is_known
get_user_traffic_slice counters uids tag mintraffic = elim (lookup tag counters) [
  | none ↦ (counters, none)
  | some c ↦
      let (c', out) = slice_entries uids mintraffic c in (insert tag c' counters, nil_if_empty out)
]
