-- ===== src/Limiter/Online.antt =====
-- limiter/limiter.go: `GetOnlineDevice`, which reports the addresses seen since the last call.
pub mod Report
use ppanel_node.Base.{String, List, [], ◌∷◌, ◌++◌}
use ppanel_node.Base.Eq.{string_eq}
use ppanel_node.Base.Int.{ℤ}
use ppanel_node.Base.Map.{Map, insert, delete}
use ppanel_node.Panel.Types.{OnlineUser}
use ppanel_node.Limiter.{Limiter}

-- The inner `Range`: each address goes to `OldUserOnline` and to the report.
unfoldable pub report_ips :
    Map String ℤ → Map String ℤ → List OnlineUser → Map String ℤ × List OnlineUser
report_ips [] old online = (old, online)
report_ips ((ip, uid) ∷ ips) old online =
    report_ips ips (insert ip uid old) (online ++ record { uid = uid; ip = ip } ∷ [])

-- The outer `Range`, over a snapshot of the entries; each entry is deleted after it is reported.
unfoldable pub report_users :
    Map String (Map String ℤ) → Limiter → List OnlineUser → Limiter × List OnlineUser
unfolding report_ips
report_users [] l online = (l, online)
report_users ((taguuid, ips) ∷ rest) l online =
    let (old, online') = report_ips ips l.old_user_online online in
    report_users rest
      (record l { old_user_online = old; user_online_ip = delete taguuid l.user_online_ip }) online'

unfoldable pub get_online_device : Limiter → Limiter × List OnlineUser
unfolding report_users
get_online_device l = report_users l.user_online_ip l []
