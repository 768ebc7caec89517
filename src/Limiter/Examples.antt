-- ===== src/Limiter/Examples.antt =====
-- The theorems on the limiter at concrete inputs.
use ppanel_node.Base.{◌*◌, ◌≡◌, refl, none, some, [], ◌∷◌, true, false, ◌&&◌, arith}
use ppanel_node.Base.Eq.{string_eq}
use ppanel_node.Base.Int.{pos, int_eq}
use ppanel_node.Base.Map.{lookup, insert}
use ppanel_node.Base.Text.{trim_prefix}
use ppanel_node.Panel.Types.{UserInfo, get_user_alive}
use ppanel_node.Panel.Format.{user_tag}
use ppanel_node.Limiter.{
  Limiter, manager_add, user_limit, store_users, update_user, determine_speed_limit,
}
use ppanel_node.Limiter.Check.{
  check_limit, check_user, resolve_speed, is_tracked, track_device, track_known, at_capacity,
  get_bucket, bytes_per_second,
}
use ppanel_node.Limiter.Check.Speed.{bytes_per_second_pos}
use ppanel_node.Limiter.Check.Tracking.{online_at, must_refuse}
use ppanel_node.Limiter.Check.Devices.{checked, check_limit_rejects, check_limit_rejected_unchanged}
use ppanel_node.Limiter.Users.{last_user, has_uuid, deleted_user_rejected}
use ppanel_node.Limiter.Expiry.{
  NeverExpires, manager_add-NeverExpires, update_user-NeverExpires, device_limit_never_bites,
}

abbrev alice : UserInfo
alice = record { id = pos 7; uuid = "alice"; speed_limit = pos 8; device_limit = pos 1 }

-- Alice is online from one address, and the panel counts one device of hers.
abbrev busy : Limiter
busy = record {
  node_type = "tuic";
  speed_limit = pos 0;
  user_online_ip = ("in|alice", ("10.0.0.1", pos 7) ∷ []) ∷ [];
  old_user_online = [];
  uuid_to_uid = ("alice", pos 7) ∷ [];
  user_limit_info =
      (
        "in|alice",
        record {
          uid = pos 7;
          speed_limit = pos 8;
          device_limit = pos 1;
          dynamic_speed_limit = pos 0;
          expire_time = pos 0;
          over_limit = false;
        },
      )
      ∷ [];
  speed_limiter = [];
  alive_list = (pos 7, pos 1) ∷ [];
}

bytes_per_second_pos_example : bytes_per_second (pos 8) ≡ 8 * 125000
bytes_per_second_pos_example = bytes_per_second_pos 8 (omega arith)

-- A second address is refused, the first one is let through again.
second_refused : (checked busy "in|alice" "10.0.0.2" false (pos 100)).2 ≡ true
unfolding check_limit check_user resolve_speed is_tracked track_device track_known at_capacity
    lookup trim_prefix determine_speed_limit
second_refused = refl

first_accepted : (checked busy "in|alice" "10.0.0.1" false (pos 100)).2 ≡ false
unfolding check_limit check_user resolve_speed is_tracked track_device track_known at_capacity
    lookup trim_prefix determine_speed_limit get_bucket bytes_per_second
first_accepted = refl

check_limit_rejects_example :
    (checked busy "in|alice" "10.0.0.2" false (pos 100)).2
    ≡ elim (lookup "in|alice" busy.user_limit_info) [
      | none ↦ true
      | some u ↦
          is_tracked busy.node_type false
          && must_refuse busy "in|alice" (trim_prefix "10.0.0.2" "::ffff:") u.uid u.device_limit
    ]
check_limit_rejects_example = check_limit_rejects busy "in|alice" "10.0.0.2" false (pos 100)

check_limit_rejected_unchanged_example :
    online_at (checked busy "in|alice" "10.0.0.2" false (pos 100)).0 "in|alice" "10.0.0.2"
    ≡ online_at busy "in|alice" "10.0.0.2"
check_limit_rejected_unchanged_example =
    check_limit_rejected_unchanged busy "in|alice" "10.0.0.2" false (pos 100) "in|alice" "10.0.0.2"
      second_refused

tuic_tracked : is_tracked "tuic" false ≡ true
unfolding is_tracked
tuic_tracked = refl

alice_deleted : has_uuid "alice" (alice ∷ []) ≡ true
unfolding has_uuid
alice_deleted = refl

alice_absent : last_user "alice" [] ≡ none
unfolding last_user
alice_absent = refl

deleted_user_rejected_example :
    check_limit
      (update_user busy "in" [] (alice ∷ []))
      (user_tag "in" "alice")
      "10.0.0.1"
      false
      (pos 100)
    ≡ (update_user busy "in" [] (alice ∷ []), none, true)
deleted_user_rejected_example =
    deleted_user_rejected "in" "alice" busy [] (alice ∷ []) "10.0.0.1" false (pos 100) alice_deleted
      alice_absent

abbrev fresh : Limiter
fresh = (manager_add [] "in" (alice ∷ []) get_user_alive "tuic").1

update_user-NeverExpires_example : NeverExpires (update_user fresh "in" (alice ∷ []) (alice ∷ []))
update_user-NeverExpires_example =
    update_user-NeverExpires fresh "in" (alice ∷ []) (alice ∷ [])
      (manager_add-NeverExpires [] "in" (alice ∷ []) get_user_alive "tuic")

fresh_alive : fresh.alive_list ≡ get_user_alive
unfolding manager_add store_users
fresh_alive = refl

fresh_alice : lookup "in|alice" fresh.user_limit_info ≡ some (user_limit alice)
unfolding manager_add store_users lookup insert user_tag
fresh_alice = refl

device_limit_never_bites_example :
    (check_limit fresh "in|alice" "10.0.0.9" false (pos 100)).2 ≡ false
device_limit_never_bites_example =
    device_limit_never_bites fresh "in|alice" "10.0.0.9" false (pos 100) (user_limit alice)
      fresh_alive fresh_alice
