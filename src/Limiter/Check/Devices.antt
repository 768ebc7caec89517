-- ===== src/Limiter/Check/Devices.antt =====
-- Devices: which addresses count as online after a check, and when a link is rejected.
use ppanel_node.Base.{
  ◌≡◌, refl, ap, ◌∙◌, String, none, some, Bool, true, false, ◌&&◌, if◌then◌else◌, arith,
  Option-cases, inl, inr,
}
use ppanel_node.Base.Eq.{string_eq}
use ppanel_node.Base.Int.{ℤ, int_eq}
use ppanel_node.Base.Map.{lookup}
use ppanel_node.Base.Text.{trim_prefix}
use ppanel_node.Limiter.{Limiter, UserLimitInfo}
use ppanel_node.Limiter.Check.{
  check_limit, check_user, finish_check, Checked, resolve_speed, track_device, get_bucket,
  is_tracked,
}
use ppanel_node.Limiter.Check.Tracking.{
  online_at, same_entry, must_refuse, track_rejected, track_others, track_online, track_refuses,
}

module _ (l : Limiter) (taguuid ip : String) (no_udp_source : Bool) (now : ℤ) where
  abbrev pub checked : Checked
  checked = check_limit l taguuid ip no_udp_source now

  abbrev pub address : String
  address = trim_prefix ip "::ffff:"

  -- `finish_check` passes on the verdict and leaves the addresses alone.
  finish_online :
      (limit : ℤ) (r : Limiter × Bool) (t a : String)
      → online_at (finish_check taguuid limit r).0 t a ≡ online_at r.0 t a
  unfolding get_bucket online_at
  finish_online limit (l', true) t a = refl
  finish_online limit (l', false) t a = ground arith

  finish_verdict : (limit : ℤ) (r : Limiter × Bool) → (finish_check taguuid limit r).2 ≡ r.1
  finish_verdict limit (l', true) = refl
  finish_verdict limit (l', false) = refl

  resolve_online :
      (u : UserLimitInfo)
      → ((resolve_speed l taguuid u now).0.user_online_ip ≡ l.user_online_ip)
        × ((resolve_speed l taguuid u now).0.old_user_online ≡ l.old_user_online)
        × ((resolve_speed l taguuid u now).0.alive_list ≡ l.alive_list)
  unfolding resolve_speed
  resolve_online u = ground arith

  abbrev resolved : UserLimitInfo → Limiter
  resolved u = (resolve_speed l taguuid u now).0

  tracked : UserLimitInfo → Limiter × Bool
  tracked u =
      if is_tracked l.node_type no_udp_source
      then track_device (resolved u) taguuid address u.uid u.device_limit
      else (resolved u, false)

  online_resolved :
      (u : UserLimitInfo) (t a : String) → online_at (resolved u) t a ≡ online_at l t a
  unfolding online_at
  online_resolved u t a = cc (resolve_online u).0

  refuse_resolved :
      (u : UserLimitInfo)
      → must_refuse (resolved u) taguuid address u.uid u.device_limit
        ≡ must_refuse l taguuid address u.uid u.device_limit
  unfolding must_refuse
  refuse_resolved u = let (on, old, alive) = resolve_online u in ground (arith, on, old, alive)

  checked_known :
      (u : UserLimitInfo)
      → lookup taguuid l.user_limit_info ≡ some u
      → checked ≡ finish_check taguuid (resolve_speed l taguuid u now).1 (tracked u)
  unfolding check_limit tracked check_user
  checked_known u known = rw (known, check_limit) refl

  -- Exactly these links are rejected: those of a user that the limiter does not know, and tracked
  -- links of a user at capacity from an address that is new.
  pub check_limit_rejects : checked.2 ≡ elim (lookup taguuid l.user_limit_info) [
    | none ↦ true
    | some u ↦
        is_tracked l.node_type no_udp_source && must_refuse l taguuid address u.uid u.device_limit
  ]
  unfolding tracked
  check_limit_rejects = elim (Option-cases (lookup taguuid l.user_limit_info)) [
    | inl unknown ↦ rw unknown (unfold check_limit in (rw (unknown, check_limit) refl))
    | inr (u, known) ↦ rw known (
        ap (λ (c : Checked). c.2) (checked_known u known)
        ∙ finish_verdict _ (tracked u)
        ∙ ground (
          arith,
          track_refuses (resolved u) taguuid address u.uid u.device_limit,
          refuse_resolved u,
        ))
  ]

  check_limit-online :
      (u : UserLimitInfo) (t a : String)
      → lookup taguuid l.user_limit_info ≡ some u
      → online_at checked.0 t a ≡ online_at (tracked u).0 t a
  check_limit-online u t a known =
      ap (λ (c : Checked). online_at c.0 t a) (checked_known u known)
      ∙ finish_online _ (tracked u) t a

  verdict_known :
      (u : UserLimitInfo) → lookup taguuid l.user_limit_info ≡ some u → checked.2 ≡ (tracked u).1
  verdict_known u known =
      ap (λ (c : Checked). c.2) (checked_known u known) ∙ finish_verdict _ (tracked u)

  -- A rejected link leaves the addresses of every user as they were.
  pub check_limit_rejected_unchanged :
      (t a : String) → checked.2 ≡ true → online_at checked.0 t a ≡ online_at l t a
  unfolding tracked
  check_limit_rejected_unchanged t a r = elim (Option-cases (lookup taguuid l.user_limit_info)) [
    | inl unknown ↦ unfold check_limit in (rw (unknown, check_limit) refl)
    | inr (u, known) ↦
        check_limit-online u t a known
        ∙ ground (
          arith,
          verdict_known u known,
          track_rejected (resolved u) taguuid address u.uid u.device_limit t a,
          online_resolved u t a,
        )
  ]

  -- A link that is let through and tracked has its address online for its user, and every other
  -- address is as before.
  pub check_limit_accepted_online :
      checked.2 ≡ false
      → is_tracked l.node_type no_udp_source ≡ true
      → ((v : ℤ) × (online_at checked.0 taguuid address ≡ some v))
        × ((t a : String)
            → same_entry taguuid address t a ≡ false
            → online_at checked.0 t a ≡ online_at l t a)
  unfolding tracked
  check_limit_accepted_online r t = elim (Option-cases (lookup taguuid l.user_limit_info)) [
    | inl unknown ↦ unfold check_limit in cc (rw (unknown, check_limit) at r)
    | inr (u, known) ↦
        let accepted : (track_device (resolved u) taguuid address u.uid u.device_limit).1 ≡ false =
          ground (arith, verdict_known u known) in
        let same : (tracked u) ≡ track_device (resolved u) taguuid address u.uid u.device_limit =
          rw t refl in
        let (v, e) = track_online (resolved u) taguuid address u.uid u.device_limit accepted in
        (
          (
            v,
            check_limit-online u taguuid address known
                ∙ ap (λ r. online_at r.0 taguuid address) same
                ∙ e,
          ),
          λ s a other.
              check_limit-online u s a known
              ∙ ap (λ r. online_at r.0 s a) same
              ∙ track_others (resolved u) taguuid address u.uid u.device_limit s a accepted other
              ∙ online_resolved u s a,
        )
  ]
