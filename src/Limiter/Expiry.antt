-- ===== src/Limiter/Expiry.antt =====
-- Two facts about what never happens: no limit that this code stores expires, and while the panel
-- reports no alive addresses no device limit bites.
use ppanel_node.Base.{
  ◌≡◌, refl, ◌∙◌, String, some, List, [], ◌∷◌, Bool, false, arith, Option-cases, inl, inr,
}
use ppanel_node.Base.Eq.{string_eq}
use ppanel_node.Base.Int.{ℤ, int_eq}
use ppanel_node.Base.Map.{Map, lookup, lookup-insert, lookup-delete, lookup-empty}
use ppanel_node.Base.Text.{trim_prefix}
use ppanel_node.Panel.Types.{UserInfo, get_user_alive}
use ppanel_node.Panel.Format.{user_tag}
use ppanel_node.Limiter.{
  Limiter, UserLimitInfo, Manager, manager_add, user_limit, store_users, forget_users, update_user,
  zero_int,
}
use ppanel_node.Limiter.Check.{check_limit, check_user, track_known, track_first, at_capacity}
use ppanel_node.Limiter.Check.Devices.{check_limit_rejects}
use ppanel_node.Limiter.Check.Tracking.{must_refuse}

-- No stored limit has an expiry time.
pub record NeverExpires (l : Limiter) : Type 0 where
  pub at_key :
      (k : String) (u : UserLimitInfo)
      → lookup k l.user_limit_info ≡ some u
      → u.expire_time ≡ zero_int

store_users-NeverExpires :
    (tag : String) (us : List UserInfo) (l : Limiter)
    → NeverExpires l
    → NeverExpires (store_users tag us l)
unfolding store_users
store_users-NeverExpires tag [] l n = n
store_users-NeverExpires tag (u ∷ us) l n = store_users-NeverExpires tag us _ (record {
  at_key = λ k v e. ground (
    arith,
    n.at_key k v,
    lookup-insert (user_tag tag u.uuid) k (user_limit u) l.user_limit_info,
    limit-zero u,
  );
})
  where
    limit-zero : (w : UserInfo) → (user_limit w).expire_time ≡ zero_int
    limit-zero w = unfold user_limit in refl

forget_users-NeverExpires :
    (tag : String) (us : List UserInfo) (l : Limiter)
    → NeverExpires l
    → NeverExpires (forget_users tag us l)
unfolding forget_users
forget_users-NeverExpires tag [] l n = n
forget_users-NeverExpires tag (u ∷ us) l n = forget_users-NeverExpires tag us _ (record {
  at_key = λ k v e.
      ground (arith, n.at_key k v, lookup-delete (user_tag tag u.uuid) k l.user_limit_info);
})

-- A new limiter holds no limit that expires.
pub manager_add-NeverExpires :
    (m : Manager) (tag : String) (us : List UserInfo) (alive : Map ℤ ℤ) (node_type : String)
    → NeverExpires (manager_add m tag us alive node_type).1
unfolding manager_add
manager_add-NeverExpires m tag us alive node_type =
    store_users-NeverExpires tag us _
      (record { at_key = λ k u e. cc (lookup-empty {V = UserLimitInfo} k) })

-- Nor does one after an update.
pub update_user-NeverExpires :
    (l : Limiter) (tag : String) (added deleted : List UserInfo)
    → NeverExpires l
    → NeverExpires (update_user l tag added deleted)
unfolding update_user
update_user-NeverExpires l tag added deleted n =
    store_users-NeverExpires tag added _ (forget_users-NeverExpires tag deleted l n)

known_info :
    (l : Limiter) (taguuid ip : String) (no_udp_source : Bool) (now : ℤ) (u : UserLimitInfo)
    → u.expire_time ≡ zero_int
    → (check_user l taguuid ip no_udp_source now u).0.user_limit_info ≡ l.user_limit_info
unfolding check_user track_known track_first
known_info l taguuid ip no_udp_source now u e = ground arith

module _ (l : Limiter) (taguuid ip : String) (no_udp_source : Bool) (now : ℤ) where
  -- While no limit expires, no check removes or changes the limits of any user.
  pub check_limit_info :
      NeverExpires l
      → (check_limit l taguuid ip no_udp_source now).0.user_limit_info ≡ l.user_limit_info
  unfolding check_limit
  check_limit_info n = elim (Option-cases (lookup taguuid l.user_limit_info)) [
    | inl unknown ↦ rw (unknown, check_limit) refl
    | inr (u, known) ↦
        rw (known, check_limit)
          (known_info l taguuid (trim_prefix ip "::ffff:") no_udp_source now u
            (n.at_key taguuid u known))
  ]

  -- With the alive list that `GetUserAlive` gives, a user whom the limiter knows is never rejected,
  -- however low the device limit and however many addresses are online.
  pub device_limit_never_bites :
      (u : UserLimitInfo)
      → l.alive_list ≡ get_user_alive
      → lookup taguuid l.user_limit_info ≡ some u
      → (check_limit l taguuid ip no_udp_source now).2 ≡ false
  unfolding must_refuse at_capacity
  device_limit_never_bites u alive known =
      check_limit_rejects l taguuid ip no_udp_source now
      ∙ rw known (ground (arith, alive, lookup-empty {V = ℤ} u.uid))
