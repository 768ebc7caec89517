-- ===== src/Core/Users/Laws.antt =====
-- What `DelUsers` and `AddUsers` of core/user.go do to the tables of the core.
use mathlib.Core.Path.{subst}
use mathlib.Core.List.{append-nil, append_assoc}
use ppanel_node.Base.{
  ℕ, ◌≡◌, refl, ap, sym, ◌∙◌, Bool, Option-cases, String, Option, none, some, List, [], ◌∷◌, ◌++◌,
  false, if◌then◌else◌, arith, ◌||◌, Bool-cases, inl, inr, length,
}
use ppanel_node.Base.Eq.{◌==◌, string_eq}
use ppanel_node.Base.Int.{ℤ, int_eq}
use ppanel_node.Base.Map.{Map, lookup, insert, lookup-insert, lookup-delete}
use ppanel_node.Panel.Types.{UserInfo}
use ppanel_node.Panel.Format.{user_tag, user_tag-beq}
use ppanel_node.Panel.Protocol.{NodeInfo}
use ppanel_node.Limiter.Users.{last_user, has_uuid}
use ppanel_node.Core.Accounts.{ProtocolUser, Built, unsupported, panicked, built, build_users}
use ppanel_node.Core.Accounts.Emails.{build_users-length}
use ppanel_node.Core.Users.{
  UserManagers, LinkManager, Core, close_all, close_links, forget_user, del_each, del_users,
  store_uids, register, added_users, finish_add, add_users,
}

abbrev pub id_or : Option ℤ → Option UserInfo → Option ℤ
id_or old none = old
id_or old (some u) = some u.id

module _ (m : UserManagers) (tag uuid : String) where
  forgotten_uid :
      (key : String) (c : Core m)
      → lookup (user_tag tag uuid) (forget_user m tag key c).uid_map
        ≡ (if key == user_tag tag uuid then none else lookup (user_tag tag uuid) c.uid_map)
  unfolding forget_user
  forgotten_uid key c = ground (arith, lookup-delete key (user_tag tag uuid) c.uid_map)

  forgotten_links :
      (key : String) (c : Core m)
      → lookup (user_tag tag uuid) (forget_user m tag key c).link_managers
        ≡ (if key == user_tag tag uuid then none else lookup (user_tag tag uuid) c.link_managers)
  unfolding forget_user close_all
  forgotten_links key c = ground (
    arith,
    lookup-delete key (user_tag tag uuid) (insert key [] c.link_managers),
    lookup-insert {V = LinkManager} key (user_tag tag uuid) [] c.link_managers,
    string_eq.beq_iff key (user_tag tag uuid),
  )

  forgotten_manager : (key : String) (c : Core m) → (forget_user m tag key c).managers ≡ c.managers
  unfolding forget_user close_all
  forgotten_manager key c = ground arith

  del_each-uid :
      (us : List UserInfo) (c : Core m)
      → (del_each m tag us c).1 ≡ false
      → (lookup (user_tag tag uuid) (del_each m tag us c).0.uid_map
          ≡ (if has_uuid uuid us then none else lookup (user_tag tag uuid) c.uid_map))
        × (lookup (user_tag tag uuid) (del_each m tag us c).0.link_managers
            ≡ (if has_uuid uuid us then none else lookup (user_tag tag uuid) c.link_managers))
  unfolding del_each has_uuid
  del_each-uid [] c ok = (refl, refl)
  del_each-uid (u ∷ us) c ok =
      let key = user_tag tag u.uuid in
      let removed : Core m = record c { managers = (m.remove_user c.managers tag key).0 } in
      elim (Bool-cases (m.remove_user c.managers tag key).1) [
        | inl failed ↦ cc (rw failed at ok)
        | inr done ↦
            let (uids, links) = del_each-uid us (forget_user m tag key removed) (rw done at ok) in
            rw done (
              ground (arith, uids, forgotten_uid key removed, user_tag-beq tag u.uuid uuid),
              ground (arith, links, forgotten_links key removed, user_tag-beq tag u.uuid uuid),
            )
      ]

  -- The links of a link manager, if there is one.
  abbrev pub links_of : Option LinkManager → LinkManager
  links_of none = []
  links_of (some links) = links

  forgotten_closed :
      (key : String) (c : Core m)
      → (forget_user m tag key c).closed ≡ c.closed ++ links_of (lookup key c.link_managers)
  unfolding forget_user close_all
  forgotten_closed key c = elim (Option-cases (lookup key c.link_managers)) [
    | inl none_ ↦ rw (none_, close_links) (sym (append-nil c.closed))
    | inr (links, known) ↦ rw (known, close_links) refl
  ]

  del_each-closed_more :
      (us : List UserInfo) (c : Core m)
      → (more : LinkManager) × ((del_each m tag us c).0.closed ≡ c.closed ++ more)
  unfolding del_each
  del_each-closed_more [] c = ([], sym (append-nil c.closed))
  del_each-closed_more (u ∷ us) c =
      let key = user_tag tag u.uuid in
      let removed : Core m = record c { managers = (m.remove_user c.managers tag key).0 } in
      elim (Bool-cases (m.remove_user c.managers tag key).1) [
        | inl failed ↦ rw failed ([], sym (append-nil c.closed))
        | inr done ↦
            let (more, e) = del_each-closed_more us (forget_user m tag key removed) in
            rw done (
              links_of (lookup key c.link_managers) ++ more,
              e
                  ∙ ap (λ xs. xs ++ more) (forgotten_closed key removed)
                  ∙ append_assoc c.closed (links_of (lookup key c.link_managers)) more,
            )
      ]

  -- What is closed has the links of the user in it, if the user is deleted.
  abbrev pub IsClosed : Core m → Bool → Core m → Type 0
  IsClosed c deleted c' =
      (before : LinkManager) × (after : LinkManager) × (c'.closed
        ≡ before
          ++ ((if deleted then links_of (lookup (user_tag tag uuid) c.link_managers) else [])
              ++ after))

  -- The first of the users, which is the one in question or another one.
  first-IsClosed :
      (c forgotten c' : Core m) (first : String) (us : List UserInfo)
      → forgotten.closed ≡ c.closed ++ links_of (lookup (user_tag tag first) c.link_managers)
      → lookup (user_tag tag uuid) forgotten.link_managers ≡ (
          if user_tag tag first == user_tag tag uuid
          then none
          else lookup (user_tag tag uuid) c.link_managers)
      → (more : LinkManager) × (c'.closed ≡ forgotten.closed ++ more)
      → IsClosed forgotten (has_uuid uuid us) c'
      → IsClosed c (first == uuid || has_uuid uuid us) c'
  first-IsClosed c forgotten c' first us closed links (more, e) (b, a, later) =
      elim (Bool-cases (first == uuid)) [
        | inl same ↦
            let it : first ≡ uuid = (string_eq.beq_iff first uuid).0 same in
            let all : c'.closed
                ≡ c.closed ++ (links_of (lookup (user_tag tag first) c.link_managers) ++ more) =
              e
              ∙ ap (λ xs. xs ++ more) closed
              ∙ append_assoc c.closed (links_of (lookup (user_tag tag first) c.link_managers))
                  more in
            rw same (
              c.closed,
              more,
              subst
                  (λ v.
                    c'.closed
                    ≡ c.closed ++ (links_of (lookup (user_tag tag v) c.link_managers) ++ more))
                  it all,
            )
        | inr other ↦
            let kept : lookup (user_tag tag uuid) forgotten.link_managers
                ≡ lookup (user_tag tag uuid) c.link_managers =
              rw (user_tag-beq tag first uuid, other) at links in
            rw other (b, a, rw kept at later)
      ]

  del_each-IsClosed :
      (us : List UserInfo) (c : Core m)
      → (del_each m tag us c).1 ≡ false
      → IsClosed c (has_uuid uuid us) (del_each m tag us c).0
  unfolding del_each has_uuid
  del_each-IsClosed [] c ok = (c.closed, [], sym (append-nil c.closed))
  del_each-IsClosed (u ∷ us) c ok =
      let key = user_tag tag u.uuid in
      let removed : Core m = record c { managers = (m.remove_user c.managers tag key).0 } in
      let forgotten = forget_user m tag key removed in
      elim (Bool-cases (m.remove_user c.managers tag key).1) [
        | inl failed ↦ cc (rw failed at ok)
        | inr done ↦
            let rest = rw done at ok in
            rw done (
              first-IsClosed c forgotten (del_each m tag us forgotten).0 u.uuid us
                (forgotten_closed key removed) (forgotten_links key removed)
                (del_each-closed_more us forgotten) (del_each-IsClosed us forgotten rest))
      ]

  -- When `DelUsers` succeeds, the deleted users have neither an id nor a link manager any more, all
  -- links that their link managers held are among those that are closed, and every other user of the
  -- inbound keeps its id and its links.
  pub del_users-uid :
      (c : Core m) (us : List UserInfo)
      → (del_users m c us tag).1 ≡ false
      → (lookup (user_tag tag uuid) (del_users m c us tag).0.uid_map
          ≡ (if has_uuid uuid us then none else lookup (user_tag tag uuid) c.uid_map))
        × (lookup (user_tag tag uuid) (del_users m c us tag).0.link_managers
            ≡ (if has_uuid uuid us then none else lookup (user_tag tag uuid) c.link_managers))
        × IsClosed c (has_uuid uuid us) (del_users m c us tag).0
  unfolding del_users
  del_users-uid c us ok = elim (Bool-cases (m.has_manager c.managers tag)) [
    | inl here ↦
        let ok' = rw here at ok in
        let (uids, links) = del_each-uid us c ok' in
        rw here (uids, links, del_each-IsClosed us c ok')
    | inr missing ↦ cc (rw missing at ok)
  ]

  store_uids-uid :
      (us : List UserInfo) (uids : Map String ℤ)
      → lookup (user_tag tag uuid) (store_uids m tag us uids)
        ≡ id_or (lookup (user_tag tag uuid) uids) (last_user uuid us)
  unfolding store_uids last_user
  store_uids-uid [] uids = refl
  store_uids-uid (u ∷ us) uids = ground (
    arith,
    store_uids-uid us (insert (user_tag tag u.uuid) u.id uids),
    lookup-insert (user_tag tag u.uuid) (user_tag tag uuid) u.id uids,
    user_tag-beq tag u.uuid uuid,
  )

  finish_add-uid : (c : Core m) (b : Built) → (finish_add m tag c b).0.uid_map ≡ c.uid_map
  unfolding register
  finish_add-uid c unsupported = refl
  finish_add-uid c panicked = refl
  finish_add-uid c (built ps) = ground arith

  -- `AddUsers` gives every user the id of its last entry, whether it succeeds or not, and leaves the
  -- other ids of the inbound as they were.
  pub add_users-uid :
      (c : Core m) (info : NodeInfo) (us : List UserInfo)
      → lookup (user_tag tag uuid) (add_users m c tag info us).0.uid_map
        ≡ id_or (lookup (user_tag tag uuid) c.uid_map) (last_user uuid us)
  unfolding add_users
  add_users-uid c info us =
      ap (λ uids. lookup (user_tag tag uuid) uids)
        (finish_add-uid (record c { uid_map = store_uids m tag us c.uid_map })
          (build_users info.kind info.protocol.flow info.protocol.cipher info.protocol.server_key
            tag us))
      ∙ store_uids-uid us c.uid_map

  finish_add-count :
      (c : Core m) (b : Built) (n : ℕ)
      → (finish_add m tag c b).1 ≡ added_users n
      → (ps : List ProtocolUser) × (b ≡ built ps) × (n ≡ length ps)
  unfolding register
  finish_add-count c unsupported n ok = cc
  finish_add-count c panicked n ok = cc
  finish_add-count c (built ps) n ok = (ps, refl, ground arith)

  -- The number that `AddUsers` returns is the number of users that it was given.
  pub add_users-count :
      (c : Core m) (info : NodeInfo) (us : List UserInfo) (n : ℕ)
      → (add_users m c tag info us).1 ≡ added_users n
      → n ≡ length us
  unfolding add_users
  add_users-count c info us n ok =
      let (ps, e, count) =
        finish_add-count (record c { uid_map = store_uids m tag us c.uid_map })
          (build_users info.kind info.protocol.flow info.protocol.cipher info.protocol.server_key
            tag us)
          n ok in
      count
      ∙ build_users-length tag info.kind info.protocol.flow info.protocol.cipher
          info.protocol.server_key us ps e

-- Forgetting a user closes the links of the user's link manager.
pub forget_user-closed :
    (m : UserManagers) (c : Core m) (tag user : String) (links : LinkManager)
    → lookup user c.link_managers ≡ some links
    → (forget_user m tag user c).closed ≡ c.closed ++ links
unfolding forget_user close_all
forget_user-closed m c tag user links known = rw (known, close_links) refl
