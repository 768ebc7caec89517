-- ===== src/Limiter/Users.antt =====
-- limiter/limiter.go: what `Add` and `UpdateUser` make of the user table, key by key.
use ppanel_node.Base.{
  ◌≡◌, refl, ap, ◌∙◌, String, Option, none, some, List, [], ◌∷◌, Bool, true, false, ◌||◌,
  if◌then◌else◌, arith,
}
use ppanel_node.Base.Eq.{◌==◌, string_eq}
use ppanel_node.Base.Int.{ℤ, int_eq}
use ppanel_node.Base.Map.{Map, lookup, insert, lookup-insert, lookup-delete, lookup-empty}
use ppanel_node.Panel.Types.{UserInfo}
use ppanel_node.Panel.Format.{user_tag, user_tag-beq}
use ppanel_node.Limiter.{
  Limiter, UserLimitInfo, Manager, manager_add, user_limit, store_users, forget_users, update_user,
}
use ppanel_node.Limiter.Check.{check_limit}

-- The last user of a list with the given uuid.
unfoldable pub last_user : String → List UserInfo → Option UserInfo
last_user uuid [] = none
last_user uuid (u ∷ us) = elim (last_user uuid us) [
  | some v ↦ some v
  | none ↦ if u.uuid == uuid then some u else none
]

unfoldable pub has_uuid : String → List UserInfo → Bool
has_uuid uuid [] = false
has_uuid uuid (u ∷ us) = u.uuid == uuid || has_uuid uuid us

abbrev limit_or : Option UserLimitInfo → Option UserInfo → Option UserLimitInfo
limit_or old none = old
limit_or old (some u) = some (user_limit u)

module _ (tag uuid : String) where
  store_users_info :
      (us : List UserInfo) (l : Limiter)
      → lookup (user_tag tag uuid) (store_users tag us l).user_limit_info
        ≡ limit_or (lookup (user_tag tag uuid) l.user_limit_info) (last_user uuid us)
  unfolding store_users last_user
  store_users_info [] l = refl
  store_users_info (u ∷ us) l = ground (
    arith,
    store_users_info us (record l {
      user_limit_info = insert (user_tag tag u.uuid) (user_limit u) l.user_limit_info;
      uuid_to_uid = insert u.uuid u.id l.uuid_to_uid;
    }),
    lookup-insert (user_tag tag u.uuid) (user_tag tag uuid) (user_limit u) l.user_limit_info,
    user_tag-beq tag u.uuid uuid,
  )

  store_users_bucket :
      (us : List UserInfo) (l : Limiter) → (store_users tag us l).speed_limiter ≡ l.speed_limiter
  unfolding store_users
  store_users_bucket [] l = refl
  store_users_bucket (u ∷ us) l = store_users_bucket us (record l {
    user_limit_info = insert (user_tag tag u.uuid) (user_limit u) l.user_limit_info;
    uuid_to_uid = insert u.uuid u.id l.uuid_to_uid;
  })

  abbrev without : UserInfo → Limiter → Limiter
  without u l = forget_users tag (u ∷ []) l

  forget_users_info :
      (us : List UserInfo) (l : Limiter)
      → lookup (user_tag tag uuid) (forget_users tag us l).user_limit_info
        ≡ (if has_uuid uuid us then none else lookup (user_tag tag uuid) l.user_limit_info)
  unfolding forget_users has_uuid
  forget_users_info [] l = refl
  forget_users_info (u ∷ us) l = ground (
    arith,
    forget_users_info us (without u l),
    lookup-delete (user_tag tag u.uuid) (user_tag tag uuid) l.user_limit_info,
    user_tag-beq tag u.uuid uuid,
  )

  forget_users_bucket :
      (us : List UserInfo) (l : Limiter)
      → lookup (user_tag tag uuid) (forget_users tag us l).speed_limiter
        ≡ (if has_uuid uuid us then none else lookup (user_tag tag uuid) l.speed_limiter)
  unfolding forget_users has_uuid
  forget_users_bucket [] l = refl
  forget_users_bucket (u ∷ us) l = ground (
    arith,
    forget_users_bucket us (without u l),
    lookup-delete (user_tag tag u.uuid) (user_tag tag uuid) l.speed_limiter,
    user_tag-beq tag u.uuid uuid,
  )

  -- After an update a user of the inbound has the limits of its last entry among those added; one
  -- that is deleted and not added has none; the others keep theirs.
  pub update_user_info :
      (l : Limiter) (added deleted : List UserInfo)
      → lookup (user_tag tag uuid) (update_user l tag added deleted).user_limit_info
        ≡ elim (last_user uuid added) [
          | some u ↦ some (user_limit u)
          | none ↦
              if has_uuid uuid deleted then none else lookup (user_tag tag uuid) l.user_limit_info
        ]
  unfolding update_user
  update_user_info l added deleted =
      ground
        (arith, store_users_info added (forget_users tag deleted l), forget_users_info deleted l)

  -- A user among those deleted loses the bucket, so that a changed speed limit takes effect.
  pub update_user_bucket :
      (l : Limiter) (added deleted : List UserInfo)
      → lookup (user_tag tag uuid) (update_user l tag added deleted).speed_limiter
        ≡ (if has_uuid uuid deleted then none else lookup (user_tag tag uuid) l.speed_limiter)
  unfolding update_user
  update_user_bucket l added deleted =
      ground (
        arith,
        store_users_bucket added (forget_users tag deleted l),
        forget_users_bucket deleted l,
      )

  -- A user that an update deletes and does not add is turned away on every later link, and those
  -- checks change nothing.
  pub deleted_user_rejected :
      (l : Limiter) (added deleted : List UserInfo) (ip : String) (no_udp_source : Bool) (now : ℤ)
      → has_uuid uuid deleted ≡ true
      → last_user uuid added ≡ none
      → check_limit (update_user l tag added deleted) (user_tag tag uuid) ip no_udp_source now
        ≡ (update_user l tag added deleted, none, true)
  unfolding check_limit
  deleted_user_rejected l added deleted ip no_udp_source now gone absent =
      let e : lookup (user_tag tag uuid) (update_user l tag added deleted).user_limit_info ≡ none =
        ground (arith, update_user_info l added deleted) in
      rw (e, check_limit) refl

  -- A new limiter knows exactly the users that it is made with, at their last limits.
  pub manager_add_info :
      (m : Manager) (users : List UserInfo) (alive : Map ℤ ℤ) (node_type : String)
      → lookup (user_tag tag uuid) (manager_add m tag users alive node_type).1.user_limit_info
        ≡ limit_or none (last_user uuid users)
  unfolding manager_add
  manager_add_info m users alive node_type =
      store_users_info users _
      ∙ ap (λ o. limit_or o (last_user uuid users)) (lookup-empty {V = UserLimitInfo} _)
