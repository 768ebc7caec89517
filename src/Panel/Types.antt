-- ===== src/Panel/Types.antt =====
-- api/panel/user.go: users, online users and traffic. Ids are Go's `int`; a traffic count is the
-- bit pattern of an `int64`.
use ppanel_node.Base.{ℕ, String, []}
use ppanel_node.Base.Int.{ℤ}
use ppanel_node.Base.Map.{Map}

pub record UserInfo : Type 0 where
  pub id : ℤ
  pub uuid : String
  pub speed_limit : ℤ
  pub device_limit : ℤ

pub record OnlineUser : Type 0 where
  pub uid : ℤ
  pub ip : String

pub record UserTraffic : Type 0 where
  pub uid : ℤ
  pub upload : ℕ
  pub download : ℕ

-- `GetUserAlive`: the request to the panel is commented out, and the map is always empty.
abbrev pub get_user_alive : Map ℤ ℤ
get_user_alive = []
