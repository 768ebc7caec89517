-- ===== src/Node/Controller/Monitor/Laws.antt =====
-- What a round of `userListMonitor` of node/task.go does.
use ppanel_node.Base.{
  ℕ, ◌≡◌, refl, ap, sym, ◌∙◌, ◌⊎◌, inl, inr, String, Option, none, some, List, [], ◌∷◌, Bool, true,
  false, if◌then◌else◌, Bool-cases, Option-cases,
}
use mathlib.Core.Path.{ap₂}
use mathlib.Core.Option.{some_inj}
use ppanel_node.Base.Map.{lookup}
use ppanel_node.Base.Int.{ℤ}
use ppanel_node.Base.Eq.{string_eq}
use ppanel_node.Panel.Format.{user_tag}
use ppanel_node.Limiter.Users.{has_uuid, last_user}
use ppanel_node.Core.Users.Laws.{id_or, del_users-uid, add_users-uid}
use ppanel_node.Panel.Types.{UserInfo, get_user_alive}
use ppanel_node.Limiter.{Limiter, update_user}
use ppanel_node.Core.Users.{
  UserManagers, Core, del_users, add_users, Added, added_users, add_failed, add_panicked,
}
use ppanel_node.Node.UserList.{compare_user_list}
use ppanel_node.Node.UserList.Compare.{DistinctKeys, compare_user_list-same}
use ppanel_node.Node.Controller.{Controller, collect_traffic}
use ppanel_node.Node.Controller.Monitor.{
  fetched, Part, apply_deleted, apply_added, added_part, updated_limiter, finish_round, add_after,
  user_list_monitor,
}

module _ (m : UserManagers) where
  abbrev pub refreshed : Controller m → Controller m
  refreshed c = record c { limiter = record c.limiter { alive_list = get_user_alive } }

  -- A round that fetches a list of the same users changes nothing but the alive list and the stored
  -- list.
  pub monitor_same :
      (c : Controller m)
      → DistinctKeys c.user_list
      → user_list_monitor m c (fetched c.user_list) ≡ some (refreshed c)
  unfolding user_list_monitor apply_deleted apply_added
  monitor_same c d = rw (compare_user_list-same c.user_list d) refl

  apply_deleted-keeps :
      (c : Controller m) (us : List UserInfo)
      → ((apply_deleted m c us).0.user_list ≡ c.user_list)
        × ((apply_deleted m c us).0.limiter ≡ c.limiter)
  unfolding apply_deleted collect_traffic
  apply_deleted-keeps c [] = (refl, refl)
  apply_deleted-keeps c (u ∷ us) = (refl, refl)

  added_part-server :
      (c c' : Controller m) (r : Core m × Added) (failed : Bool)
      → added_part m c r ≡ some (c', failed)
      → c' ≡ record c { server = r.0 }
  added_part-server c c' (server, added_users n) failed e = cc
  added_part-server c c' (server, add_failed) failed e = cc
  added_part-server c c' (server, add_panicked) failed e = cc

  -- What the core answers when users are to be deleted, after the traffic is collected, and then added.
  abbrev pub deletion : Controller m → List UserInfo → Core m × Bool
  deletion c [] = (c.server, false)
  deletion c (u ∷ us) = del_users m (collect_traffic m c 0).0.server (u ∷ us) c.tag

  abbrev pub addition : Controller m → Core m → List UserInfo → Core m × Added
  addition c server [] = (server, added_users 0)
  addition c server (u ∷ us) = add_users m server c.tag c.info (u ∷ us)

  apply_deleted-deletion :
      (c : Controller m) (us : List UserInfo)
      → (apply_deleted m (refreshed c) us).1 ≡ (deletion c us).1
  unfolding apply_deleted collect_traffic
  apply_deleted-deletion c [] = refl
  apply_deleted-deletion c (u ∷ us) = refl

  added_part_kind :
      (d a : Controller m) (r : Core m × Added)
      → (added_part m d r ≡ some (a, true) → r.1 ≡ add_failed)
        × (added_part m d r ≡ some (a, false) → (n : ℕ) × (r.1 ≡ added_users n))
  added_part_kind d a (server, added_users n) = (λ e. cc e, λ e. (n, refl))
  added_part_kind d a (server, add_failed) = (λ e. refl, λ e. cc e)
  added_part_kind d a (server, add_panicked) = (λ e. cc e, λ e. cc e)

  apply_added-addition :
      (d a : Controller m) (us : List UserInfo)
      → (apply_added m d us ≡ some (a, true) → (addition d d.server us).1 ≡ add_failed)
        × (apply_added m d us ≡ some (a, false)
            → (n : ℕ) × ((addition d d.server us).1 ≡ added_users n))
  unfolding apply_added
  apply_added-addition d a [] = (λ e. cc e, λ e. (0, refl))
  apply_added-addition d a (u ∷ us) =
      added_part_kind d a (add_users m d.server d.tag d.info (u ∷ us))

  -- After the deletion users are added as they would be before, but to the core that it leaves.
  addition_after :
      (c : Controller m) (deleted more : List UserInfo)
      → (addition c (deletion c deleted).0 more).1
        ≡ (addition
            (apply_deleted m (refreshed c) deleted).0
            (apply_deleted m (refreshed c) deleted).0.server
            more).1
  unfolding apply_deleted collect_traffic
  addition_after c [] [] = refl
  addition_after c [] (u ∷ more) = refl
  addition_after c (d ∷ deleted) [] = refl
  addition_after c (d ∷ deleted) (u ∷ more) = refl

  module _ (uuid : String) where
    abbrev uid_in : Controller m → Option ℤ
    uid_in c = lookup (user_tag c.tag uuid) c.server.uid_map

    apply_deleted-uid :
        (c : Controller m) (us : List UserInfo)
        → (apply_deleted m c us).1 ≡ false
        → ((apply_deleted m c us).0.tag ≡ c.tag)
          × (uid_in (apply_deleted m c us).0 ≡ (if has_uuid uuid us then none else uid_in c))
    unfolding apply_deleted collect_traffic
    apply_deleted-uid c [] ok = (refl, unfold has_uuid in refl)
    apply_deleted-uid c (u ∷ us) ok =
        (refl, (del_users-uid m c.tag uuid (collect_traffic m c 0).0.server (u ∷ us) ok).0)

    apply_added-uid :
        (c c' : Controller m) (us : List UserInfo) (failed : Bool)
        → apply_added m c us ≡ some (c', failed)
        → (c'.tag ≡ c.tag)
          × (c'.user_list ≡ c.user_list)
          × (c'.limiter ≡ c.limiter)
          × (uid_in c' ≡ id_or (uid_in c) (last_user uuid us))
    unfolding apply_added
    apply_added-uid c c' [] failed e = unfold last_user in (cc, cc, cc, cc)
    apply_added-uid c c' (u ∷ us) failed e =
        let r = add_users m c.server c.tag c.info (u ∷ us) in
        let same = added_part-server c c' r failed e in
        (cc, cc, cc, ap uid_in same ∙ add_users-uid m c.tag uuid c.server c.info (u ∷ us))

  -- A round that gives up, since the core did not delete or did not add the users: the stored users and
  -- their limits are as before.
  abbrev pub IsHeld : Controller m → List UserInfo → List UserInfo → Controller m → Type 0
  IsHeld c deleted more c' =
      (((deletion c deleted).1 ≡ true)
        ⊎ (((deletion c deleted).1 ≡ false)
            × ((addition c (deletion c deleted).0 more).1 ≡ add_failed)))
      × (c'.user_list ≡ c.user_list)
      × (c'.limiter ≡ record c.limiter { alive_list = get_user_alive })

  -- A round that is carried out, since the core deleted and added the users.
  abbrev pub IsSynced :
      Controller m → List UserInfo → List UserInfo → List UserInfo → Controller m → Type 0
  IsSynced c new deleted more c' =
      ((deletion c deleted).1 ≡ false)
      × ((n : ℕ) × ((addition c (deletion c deleted).0 more).1 ≡ added_users n))
      × (c'.user_list ≡ new)
      × (c'.limiter
          ≡ update_user (record c.limiter { alive_list = get_user_alive }) c.tag more deleted)
      × ((uuid : String)
          → lookup (user_tag c.tag uuid) c'.server.uid_map
            ≡ id_or
                (if has_uuid uuid deleted
                  then none
                  else lookup (user_tag c.tag uuid) c.server.uid_map)
                (last_user uuid more))

  abbrev Round : Controller m → List UserInfo → Controller m → Type 0
  Round c new c' =
      (deleted more : List UserInfo) × (compare_user_list c.user_list new ≡ some (deleted, more))
      × (IsHeld c deleted more c' ⊎ IsSynced c new deleted more c')

  updated_limiter-update_user :
      (c : Controller m) (tag : String) (deleted more : List UserInfo)
      → tag ≡ c.tag
      → updated_limiter m c deleted more ≡ update_user c.limiter tag more deleted
  unfolding update_user
  updated_limiter-update_user c tag [] [] e = refl
  updated_limiter-update_user c tag [] (u ∷ us) e = cc
  updated_limiter-update_user c tag (u ∷ us) more e = cc

  finish_round-Round :
      (c c' : Controller m) (new deleted more : List UserInfo) (r : Option (Part m))
      → compare_user_list c.user_list new ≡ some (deleted, more)
      → (apply_deleted m (refreshed c) deleted).1 ≡ false
      → apply_added m (apply_deleted m (refreshed c) deleted).0 more ≡ r
      → finish_round m new deleted more r ≡ some c'
      → Round c new c'
  finish_round-Round c c' new deleted more none cmp del add e = cc
  finish_round-Round c c' new deleted more (some (a, true)) cmp del add e =
      let flag = apply_deleted-deletion c deleted in
      let refused = (apply_added-addition (apply_deleted m (refreshed c) deleted).0 a more).0 add in
      let (list, limiter) = apply_deleted-keeps (refreshed c) deleted in
      let (tag, list', limiter', uids) =
        apply_added-uid "" (apply_deleted m (refreshed c) deleted).0 a more true add in
      let same : a ≡ c' = cc in
      (
        deleted,
        more,
        cmp,
        inl (
          inr (sym flag ∙ del, addition_after c deleted more ∙ refused),
          ap (λ (x : Controller m). x.user_list) (sym same) ∙ list' ∙ list,
          ap (λ (x : Controller m). x.limiter) (sym same) ∙ limiter' ∙ limiter,
        ),
      )
  finish_round-Round c c' new deleted more (some (a, false)) cmp del add e =
      let d = (apply_deleted m (refreshed c) deleted).0 in
      let (list, limiter) = apply_deleted-keeps (refreshed c) deleted in
      let tag : a.tag ≡ c.tag =
        (apply_added-uid "" d a more false add).0
        ∙ (apply_deleted-uid "" (refreshed c) deleted del).0 in
      let same : record a { limiter = updated_limiter m a deleted more; user_list = new } ≡ c' =
        cc in
      let flag = apply_deleted-deletion c deleted in
      let (n, accepted) = (apply_added-addition d a more).1 add in
      (
        deleted,
        more,
        cmp,
        inr (
          sym flag ∙ del,
          (n, addition_after c deleted more ∙ accepted),
          ap (λ (x : Controller m). x.user_list) (sym same),
          ap (λ (x : Controller m). x.limiter) (sym same)
              ∙ updated_limiter-update_user a a.tag deleted more refl
              ∙ ap₂ (λ (l : Limiter) (t : String). update_user l t more deleted)
                  ((apply_added-uid "" d a more false add).2 ∙ limiter) tag,
          λ uuid.
              let (gone_tag, gone) = apply_deleted-uid uuid (refreshed c) deleted del in
              let (new_tag, users, limits, given) = apply_added-uid uuid d a more false add in
              ap (λ (x : Controller m). lookup (user_tag c.tag uuid) x.server.uid_map) (sym same)
              ∙ ap (λ (t : String). lookup (user_tag t uuid) a.server.uid_map) (sym tag)
              ∙ given
              ∙ ap (λ o. id_or o (last_user uuid more)) gone,
        ),
      )

  finish_failed :
      (new deleted more : List UserInfo) (r : Part m)
      → r.1 ≡ true
      → finish_round m new deleted more (add_after m more r) ≡ some r.0
  finish_failed new deleted more (d, true) e = refl
  finish_failed new deleted more (d, false) e = cc

  finish_ok :
      (new deleted more : List UserInfo) (r : Part m)
      → r.1 ≡ false
      → finish_round m new deleted more (add_after m more r)
        ≡ finish_round m new deleted more (apply_added m r.0 more)
  finish_ok new deleted more (d, true) e = cc
  finish_ok new deleted more (d, false) e = refl

  changed_Round :
      (c c' : Controller m) (new deleted more : List UserInfo)
      → compare_user_list c.user_list new ≡ some (deleted, more)
      → finish_round m new deleted more (add_after m more (apply_deleted m (refreshed c) deleted))
        ≡ some c'
      → Round c new c'
  changed_Round c c' new deleted more cmp e =
      let r : Part m = apply_deleted m (refreshed c) deleted in
      elim (Bool-cases r.1) [
        | inl failed ↦
            let given_up : finish_round m new deleted more (add_after m more r) ≡ some r.0 =
              finish_failed new deleted more r failed in
            let (list, limiter) = apply_deleted-keeps (refreshed c) deleted in
            let same : r.0 ≡ c' = some_inj.0 (sym given_up ∙ e) in
            (
              deleted,
              more,
              cmp,
              inl (
                inl (sym (apply_deleted-deletion c deleted) ∙ failed),
                ap (λ (x : Controller m). x.user_list) (sym same) ∙ list,
                ap (λ (x : Controller m). x.limiter) (sym same) ∙ limiter,
              ),
            )
        | inr ok ↦
            finish_round-Round c c' new deleted more (apply_added m r.0 more) cmp ok refl
              (sym (finish_ok new deleted more r ok) ∙ e)
      ]

  -- A round that fetches a list and does not panic is one of two kinds. If the core fails to delete the
  -- users that are gone or to add those that are new, the stored users and their limits stay as they
  -- were, apart from the alive list; and if it succeeds in both, the new list is stored, the limiter is
  -- updated by the users deleted and added between the two lists, and the core has the ids of exactly
  -- those changes.
  pub user_list_monitor-Round :
      (c c' : Controller m) (new : List UserInfo)
      → user_list_monitor m c (fetched new) ≡ some c'
      → (deleted more : List UserInfo) × (compare_user_list c.user_list new ≡ some (deleted, more))
        × (IsHeld c deleted more c' ⊎ IsSynced c new deleted more c')
  unfolding user_list_monitor
  user_list_monitor-Round c c' new e = elim (Option-cases (compare_user_list c.user_list new)) [
    | inl panic ↦ cc (rw panic at e)
    | inr (changes, cmp) ↦ changed_Round c c' new changes.0 changes.1 cmp (rw cmp at e)
  ]
