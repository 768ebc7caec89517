-- ===== src/Limiter/Check.antt =====
-- limiter/limiter.go: `CheckLimit`, asked once for each new link of a user. `now` is the clock's
-- Unix time.
pub mod Speed
pub mod Tracking
pub mod Devices
use ppanel_node.Base.{
  ℕ, ◌*◌, ◌/◌, ◌%◌, ◌^◌, String, Option, none, some, List, [], Bool, true, false, not, ◌&&◌, ◌||◌,
  if◌then◌else◌, ltb,
}
use ppanel_node.Base.Eq.{◌==◌, string_eq}
use ppanel_node.Base.Int.{ℤ, int_lt, int_le, int_eq, to_word}
use ppanel_node.Base.Map.{Map, lookup, insert, delete}
use ppanel_node.Base.Text.{trim_prefix}
use ppanel_node.Limiter.{Limiter, UserLimitInfo, Bucket, zero_int, determine_speed_limit}

-- The speed limit of the user, and the limiter with what the expiry of a dynamic limit changes.
unfoldable pub resolve_speed : Limiter → String → UserLimitInfo → ℤ → Limiter × ℤ
resolve_speed l taguuid u now =
    if int_lt u.expire_time now && not (u.expire_time == zero_int)
    then (if not (u.speed_limit == zero_int)
        then (
          record l {
            user_limit_info =
                insert taguuid (record u { dynamic_speed_limit = zero_int; expire_time = zero_int })
                  l.user_limit_info;
          },
          u.speed_limit,
        )
        else (record l { user_limit_info = delete taguuid l.user_limit_info }, zero_int))
    else (l, determine_speed_limit u.speed_limit u.dynamic_speed_limit)

-- A read of a Go map of ints, 0 where the key is missing.
abbrev pub int_at : ℤ → Map ℤ ℤ → ℤ
int_at k m = elim (lookup k m) [ none ↦ zero_int | some v ↦ v ]

unfoldable pub at_capacity : ℤ → ℤ → Bool
at_capacity device_limit alive_ip = int_lt zero_int device_limit && int_le device_limit alive_ip

-- `ipMap.LoadOrStore(ip, uid)` on the map of a user that is already online.
unfoldable pub track_known : Limiter → String → String → ℤ → ℤ → Map String ℤ → Limiter × Bool
track_known l taguuid ip uid device_limit ips = elim (lookup ip ips) [
  | some v ↦ (l, false)
  | none ↦
      if at_capacity device_limit (int_at uid l.alive_list)
      then (
        record l {
          user_online_ip = insert taguuid (delete ip (insert ip uid ips)) l.user_online_ip;
        },
        true,
      )
      else (
        record l { user_online_ip = insert taguuid (insert ip uid ips) l.user_online_ip },
        false,
      )
]

-- The first address of a user since the last report: `OldUserOnline` holds the addresses reported.
unfoldable pub track_first : Limiter → String → String → ℤ → ℤ → Limiter × Bool
track_first l taguuid ip uid device_limit =
    let stored = insert taguuid (insert ip uid []) l.user_online_ip in
    elim (lookup ip l.old_user_online) [
      | some v ↦
          if v == uid
          then (
            record l { user_online_ip = stored; old_user_online = delete ip l.old_user_online },
            false,
          )
          else (record l { user_online_ip = stored }, false)
      | none ↦
          if at_capacity device_limit (int_at uid l.alive_list)
          then (record l { user_online_ip = delete taguuid stored }, true)
          else (record l { user_online_ip = stored }, false)
    ]

unfoldable pub track_device : Limiter → String → String → ℤ → ℤ → Limiter × Bool
unfolding track_known track_first
track_device l taguuid ip uid device_limit = elim (lookup taguuid l.user_online_ip) [
  | some ips ↦ track_known l taguuid ip uid device_limit ips
  | none ↦ track_first l taguuid ip uid device_limit
]

-- `int64(limit) * 1000000 / 8`, or 0 where that is not positive.
unfoldable pub bytes_per_second : ℤ → ℕ
bytes_per_second limit =
    let w = to_word limit * 1000000 % 2 ^ 64 in if ltb w (2 ^ 63) then w / 8 else 0

unfoldable pub get_bucket : Limiter → String → ℕ → Limiter × Option Bucket
get_bucket l taguuid limit =
    let bucket : Bucket = record { capacity = limit; quantum = limit } in
    if ltb 0 limit
    then elim (lookup taguuid l.speed_limiter) [
      | some old ↦ (l, some old)
      | none ↦ (record l { speed_limiter = insert taguuid bucket l.speed_limiter }, some bucket)
    ]
    else (l, none)

-- The protocols over UDP whose users are tracked by the addresses of their links.
unfoldable pub is_tracked : String → Bool → Bool
is_tracked node_type no_udp_source =
    no_udp_source || (node_type == "hysteria" || (node_type == "hysteria2" || node_type == "tuic"))

-- The limiter afterwards, the bucket or nil, and whether the link is rejected.
abbrev pub Checked : Type 0
Checked = Limiter × Option Bucket × Bool

abbrev pub finish_check : String → ℤ → Limiter × Bool → Checked
finish_check taguuid user_limit (l, true) = (l, none, true)
finish_check taguuid user_limit (l, false) =
    let (l', bucket) =
      get_bucket l taguuid (bytes_per_second (determine_speed_limit l.speed_limit user_limit)) in
    (l', bucket, false)

unfoldable pub check_user : Limiter → String → String → Bool → ℤ → UserLimitInfo → Checked
unfolding resolve_speed track_device is_tracked get_bucket
check_user l taguuid ip no_udp_source now u =
    let (l', user_limit) = resolve_speed l taguuid u now in
    finish_check taguuid user_limit (
      if is_tracked l.node_type no_udp_source
      then track_device l' taguuid ip u.uid u.device_limit
      else (l', false))

unfoldable pub check_limit : Limiter → String → String → Bool → ℤ → Checked
unfolding check_user
check_limit l taguuid ip no_udp_source now = elim (lookup taguuid l.user_limit_info) [
  | none ↦ (l, none, true)
  | some u ↦ check_user l taguuid (trim_prefix ip "::ffff:") no_udp_source now u
]
