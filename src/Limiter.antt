-- ===== src/Limiter.antt =====
-- limiter/limiter.go and limiter/dynamic.go: per-inbound limiters of devices and speed. Calls are
-- modelled one at a time; a `sync.Map` is a map.
pub mod Check
pub mod Users
pub mod Expiry
pub mod Online
mod Examples
use ppanel_node.Base.{
  ℕ, ◌*◌, ◌/◌, ◌%◌, ◌^◌, String, Option, none, some, List, [], ◌∷◌, ◌++◌, Bool, true, false, not,
  ◌&&◌, ◌||◌, if◌then◌else◌, ltb,
}
use ppanel_node.Base.Eq.{◌==◌, string_eq}
use ppanel_node.Base.Int.{ℤ, pos, negsuc, int_lt, int_le, int_eq, to_word}
use ppanel_node.Base.Map.{Map, lookup, insert, delete}
use ppanel_node.Base.Text.{trim_prefix}
use ppanel_node.Panel.Types.{UserInfo, OnlineUser}
use ppanel_node.Panel.Format.{user_tag}

pub record UserLimitInfo : Type 0 where
  pub uid : ℤ
  pub speed_limit : ℤ
  pub device_limit : ℤ
  pub dynamic_speed_limit : ℤ
  pub expire_time : ℤ
  pub over_limit : Bool

-- A bucket of github.com/juju/ratelimit, by the arguments that it is made with; the fill interval is
-- one second.
pub record Bucket : Type 0 where
  pub capacity : ℕ
  pub quantum : ℕ

pub record Limiter : Type 0 where
  pub node_type : String
  pub speed_limit : ℤ
  pub user_online_ip : Map String (Map String ℤ)
  pub old_user_online : Map String ℤ
  pub uuid_to_uid : Map String ℤ
  pub user_limit_info : Map String UserLimitInfo
  pub speed_limiter : Map String Bucket
  pub alive_list : Map ℤ ℤ

abbrev pub zero_int : ℤ
zero_int = pos 0

unfoldable pub determine_speed_limit : ℤ → ℤ → ℤ
determine_speed_limit limit1 limit2 =
    if limit1 == zero_int || limit2 == zero_int
    then (if int_lt limit2 limit1
        then limit1
        else if int_lt limit1 limit2
        then limit2
        else zero_int)
    else if int_lt limit2 limit1
    then limit2
    else if int_lt limit1 limit2
    then limit1
    else limit1

-- The assignments under `!= 0` leave the zero that is there, so they copy the field.
unfoldable pub user_limit : UserInfo → UserLimitInfo
user_limit u = record {
  uid = u.id;
  speed_limit = u.speed_limit;
  device_limit = u.device_limit;
  dynamic_speed_limit = zero_int;
  expire_time = zero_int;
  over_limit = false;
}

abbrev store_user : String → UserInfo → Limiter → Limiter
store_user tag u l = record l {
  user_limit_info = insert (user_tag tag u.uuid) (user_limit u) l.user_limit_info;
  uuid_to_uid = insert u.uuid u.id l.uuid_to_uid;
}

unfoldable pub store_users : String → List UserInfo → Limiter → Limiter
store_users tag [] l = l
store_users tag (u ∷ us) l = store_users tag us (store_user tag u l)

abbrev empty_limiter : String → Map ℤ ℤ → Limiter
empty_limiter node_type alive_list = record {
  node_type = node_type;
  speed_limit = zero_int;
  user_online_ip = [];
  old_user_online = [];
  uuid_to_uid = [];
  user_limit_info = [];
  speed_limiter = [];
  alive_list = alive_list;
}

abbrev pub Manager : Type 0
Manager = Map String Limiter

unfoldable pub manager_add : Manager → String → List UserInfo → Map ℤ ℤ → String → Manager × Limiter
unfolding store_users
manager_add m tag users alive_list node_type =
    let info = store_users tag users (empty_limiter node_type alive_list) in
    (insert tag info m, info)

-- `none` is the error "not found".
unfoldable pub manager_get : Manager → String → Option Limiter
manager_get m tag = lookup tag m

unfoldable pub manager_delete : Manager → String → Manager
manager_delete m tag = delete tag m

abbrev forget_user : String → UserInfo → Limiter → Limiter
forget_user tag u l = record l {
  user_limit_info = delete (user_tag tag u.uuid) l.user_limit_info;
  user_online_ip = delete (user_tag tag u.uuid) l.user_online_ip;
  speed_limiter = delete (user_tag tag u.uuid) l.speed_limiter;
  uuid_to_uid = delete u.uuid l.uuid_to_uid;
  alive_list = delete u.id l.alive_list;
}

unfoldable pub forget_users : String → List UserInfo → Limiter → Limiter
forget_users tag [] l = l
forget_users tag (u ∷ us) l = forget_users tag us (forget_user tag u l)

unfoldable pub update_user : Limiter → String → List UserInfo → List UserInfo → Limiter
unfolding store_users forget_users
update_user l tag added deleted = store_users tag added (forget_users tag deleted l)
