-- ===== src/Core/Accounts/Emails.antt =====
-- Whatever the node type, the users that are built stand for the panel's users, one for one.
use ppanel_node.Base.{
  ◌≡◌, ◌≢◌, ◌≤◌, sym, ap, ◌∙◌, String, Option, none, some, List, [], ◌∷◌, map, arith, All, length,
  length-map, Option-cases, inl, inr,
}
use ppanel_node.Base.Eq.{string_eq}
use ppanel_node.Panel.Types.{UserInfo}
use ppanel_node.Panel.Format.{user_tag}
use ppanel_node.Core.Accounts.{
  ProtocolUser, panicked, built, build_each, build_users, build_vmess_user, build_vless_user,
  build_trojan_user, build_ss_user, build_hysteria2_user, build_tuic_user, build_any_tls_user,
  bytes_of, key_length,
}

module _ (tag : String) where
  abbrev pub Names : (UserInfo → Option ProtocolUser) → Type 0
  Names build =
      (u : UserInfo) (p : ProtocolUser)
      → build u ≡ some p
      → (p.email ≡ user_tag tag u.uuid) × (p.level ≡ 0)

  build_each-emails :
      (build : UserInfo → Option ProtocolUser) (us : List UserInfo) (ps : List ProtocolUser)
      → Names build
      → build_each build us ≡ some ps
      → (map (λ p. p.email) ps ≡ map (λ u. user_tag tag u.uuid) us) × All (λ p. p.level ≡ 0) ps
  unfolding build_each
  build_each-emails build [] ps names e = ground arith
  build_each-emails build (u ∷ us) ps names e = elim (Option-cases (build u)) [
    | inl failed ↦ cc (rw failed at e)
    | inr (p, one) ↦ elim (Option-cases (build_each build us)) [
      | inl failed ↦ cc (rw (one, failed) at e)
      | inr (more, rest) ↦
          let shape : some (p ∷ more) ≡ some ps = rw (one, rest) at e in
          let (emails, levels) = build_each-emails build us more names rest in
          let (email, level) = names u p one in ground (arith, shape, emails, levels, email, level)
    ]
  ]

  vmess-Names : Names (λ u. some (build_vmess_user tag u))
  unfolding build_vmess_user
  vmess-Names u p e = ground arith

  vless-Names : (flow : String) → Names (λ u. some (build_vless_user tag u flow))
  unfolding build_vless_user
  vless-Names flow u p e = ground arith

  trojan-Names : Names (λ u. some (build_trojan_user tag u))
  unfolding build_trojan_user
  trojan-Names u p e = ground arith

  ss-Names : (cipher server_key : String) → Names (λ u. build_ss_user tag u cipher server_key)
  unfolding build_ss_user
  ss-Names cipher server_key u p e = ground arith

  hysteria2-Names : Names (λ u. some (build_hysteria2_user tag u))
  unfolding build_hysteria2_user
  hysteria2-Names u p e = ground arith

  tuic-Names : Names (λ u. some (build_tuic_user tag u))
  unfolding build_tuic_user
  tuic-Names u p e = ground arith

  any_tls-Names : Names (λ u. some (build_any_tls_user tag u))
  unfolding build_any_tls_user
  any_tls-Names u p e = ground arith

  -- The xray users that are built, whatever the node type, carry the keys of the panel's users in
  -- the same order, one for each, and have level 0.
  pub build_users-emails :
      (kind flow cipher server_key : String) (us : List UserInfo) (ps : List ProtocolUser)
      → build_users kind flow cipher server_key tag us ≡ built ps
      → (map (λ p. p.email) ps ≡ map (λ u. user_tag tag u.uuid) us) × All (λ p. p.level ≡ 0) ps
  unfolding build_users
  build_users-emails kind flow cipher server_key us ps e = ground (
    arith,
    build_each-emails (λ u. some (build_vmess_user tag u)) us ps vmess-Names,
    build_each-emails (λ u. some (build_vless_user tag u flow)) us ps (vless-Names flow),
    build_each-emails (λ u. some (build_trojan_user tag u)) us ps trojan-Names,
    build_each-emails (λ u. build_ss_user tag u cipher server_key) us ps
        (ss-Names cipher server_key),
    build_each-emails (λ u. some (build_hysteria2_user tag u)) us ps hysteria2-Names,
    build_each-emails (λ u. some (build_tuic_user tag u)) us ps tuic-Names,
    build_each-emails (λ u. some (build_any_tls_user tag u)) us ps any_tls-Names,
  )

  pub build_users-length :
      (kind flow cipher server_key : String) (us : List UserInfo) (ps : List ProtocolUser)
      → build_users kind flow cipher server_key tag us ≡ built ps
      → length ps ≡ length us
  build_users-length kind flow cipher server_key us ps e =
      sym (length-map ps (λ p. p.email))
      ∙ ap length (build_users-emails kind flow cipher server_key us ps e).0
      ∙ length-map us (λ u. user_tag tag u.uuid)

  build_each-total :
      (build : UserInfo → Option ProtocolUser) (us : List UserInfo)
      → ((u : UserInfo) → 32 ≤ length (bytes_of u.uuid) → build u ≢ none)
      → All (λ u. 32 ≤ length (bytes_of u.uuid)) us
      → build_each build us ≢ none
  unfolding build_each
  build_each-total build [] safe long e = cc
  build_each-total build (u ∷ us) safe (here, long) e = elim (Option-cases (build u)) [
    | inl failed ↦ safe u here failed
    | inr (p, one) ↦ elim (Option-cases (build_each build us)) [
      | inl failed ↦ build_each-total build us safe long failed
      | inr (more, rest) ↦ cc (rw (one, rest) at e)
    ]
  ]

  ss-safe :
      (cipher server_key : String) (u : UserInfo)
      → 32 ≤ length (bytes_of u.uuid)
      → build_ss_user tag u cipher server_key ≢ none
  unfolding build_ss_user key_length
  ss-safe cipher server_key u long e = ground arith

  -- When every uuid has at least 32 bytes, as those of the panel with their 36 characters do, no
  -- builder panics on a slice, whatever the node type and the cipher.
  pub build_users-safe :
      (kind flow cipher server_key : String) (us : List UserInfo)
      → All (λ u. 32 ≤ length (bytes_of u.uuid)) us
      → build_users kind flow cipher server_key tag us ≢ panicked
  unfolding build_users
  build_users-safe kind flow cipher server_key us long e = ground (
    arith,
    build_each-total (λ u. some (build_vmess_user tag u)) us (λ u h p. cc) long,
    build_each-total (λ u. some (build_vless_user tag u flow)) us (λ u h p. cc) long,
    build_each-total (λ u. some (build_trojan_user tag u)) us (λ u h p. cc) long,
    build_each-total (λ u. build_ss_user tag u cipher server_key) us (ss-safe cipher server_key)
        long,
    build_each-total (λ u. some (build_hysteria2_user tag u)) us (λ u h p. cc) long,
    build_each-total (λ u. some (build_tuic_user tag u)) us (λ u h p. cc) long,
    build_each-total (λ u. some (build_any_tls_user tag u)) us (λ u h p. cc) long,
  )
