-- ===== src/Limiter/Check/Tracking.antt =====
-- limiter/limiter.go: the tracking of devices inside `CheckLimit`.
use ppanel_node.Base.{
  ◌≡◌, String, Option, none, some, [], Bool, true, false, not, ◌&&◌, arith, Option-cases, inl, inr,
}
use ppanel_node.Base.Eq.{◌==◌, string_eq}
use ppanel_node.Base.Int.{ℤ, int_eq, int_lt}
use ppanel_node.Base.Map.{
  Map, lookup, insert, delete, lookup-insert, lookup-delete, lookup-empty, lookup-insert_self,
}
use ppanel_node.Limiter.{Limiter, zero_int}
use ppanel_node.Limiter.Check.{track_device, track_known, track_first, at_capacity, int_at}

-- The user id under which an address of a user is online.
unfoldable pub online_at : Limiter → String → String → Option ℤ
online_at l taguuid ip = elim (lookup taguuid l.user_online_ip) [
  | none ↦ none
  | some ips ↦ lookup ip ips
]

abbrev pub is_new : Option ℤ → Bool
is_new none = true
is_new (some v) = false

-- An address of a user, told apart from every other.
abbrev pub same_entry : String → String → String → String → Bool
same_entry taguuid ip t a = taguuid == t && ip == a

module _ (l : Limiter) (taguuid ip : String) (uid device_limit : ℤ) where
  module _ (ips : Map String ℤ) (online : lookup taguuid l.user_online_ip ≡ some ips) where
    known_rejected :
        (t a : String)
        → (track_known l taguuid ip uid device_limit ips).1 ≡ true
        → online_at (track_known l taguuid ip uid device_limit ips).0 t a ≡ online_at l t a
    unfolding track_known online_at
    known_rejected t a r = ground (
      arith,
      lookup-insert taguuid t (delete ip (insert ip uid ips)) l.user_online_ip,
      lookup-delete ip a (insert ip uid ips),
      lookup-insert ip a uid ips,
      string_eq.beq_iff taguuid t,
      string_eq.beq_iff ip a,
    )

    known_others :
        (t a : String)
        → (track_known l taguuid ip uid device_limit ips).1 ≡ false
        → same_entry taguuid ip t a ≡ false
        → online_at (track_known l taguuid ip uid device_limit ips).0 t a ≡ online_at l t a
    unfolding track_known online_at
    known_others t a r other = ground (
      arith,
      lookup-insert taguuid t (insert ip uid ips) l.user_online_ip,
      lookup-insert ip a uid ips,
      string_eq.beq_iff taguuid t,
      string_eq.beq_iff ip a,
    )

    known_online :
        (track_known l taguuid ip uid device_limit ips).1 ≡ false
        → (v : ℤ) × (online_at (track_known l taguuid ip uid device_limit ips).0 taguuid ip
            ≡ some v)
    unfolding track_known online_at
    known_online r = elim (Option-cases (lookup ip ips)) [
      | inr (v, old) ↦ (v, ground arith)
      | inl new ↦ (
        uid,
        ground (
          arith,
          lookup-insert_self taguuid (insert ip uid ips) l.user_online_ip,
          lookup-insert_self ip uid ips,
        ),
      )
    ]

  module _ (offline : lookup taguuid l.user_online_ip ≡ none) where
    first_rejected :
        (t a : String)
        → (track_first l taguuid ip uid device_limit).1 ≡ true
        → online_at (track_first l taguuid ip uid device_limit).0 t a ≡ online_at l t a
    unfolding track_first online_at
    first_rejected t a r = ground (
      arith,
      lookup-delete taguuid t (insert taguuid (insert ip uid []) l.user_online_ip),
      lookup-insert taguuid t (insert ip uid []) l.user_online_ip,
      string_eq.beq_iff taguuid t,
    )

    first_others :
        (t a : String)
        → (track_first l taguuid ip uid device_limit).1 ≡ false
        → same_entry taguuid ip t a ≡ false
        → online_at (track_first l taguuid ip uid device_limit).0 t a ≡ online_at l t a
    unfolding track_first online_at
    first_others t a r other = ground (
      arith,
      lookup-insert taguuid t (insert ip uid []) l.user_online_ip,
      lookup-insert {V = ℤ} ip a uid [],
      lookup-empty {V = ℤ} a,
      string_eq.beq_iff taguuid t,
      string_eq.beq_iff ip a,
    )

    first_online :
        (track_first l taguuid ip uid device_limit).1 ≡ false
        → online_at (track_first l taguuid ip uid device_limit).0 taguuid ip ≡ some uid
    unfolding track_first online_at
    first_online r = ground (
      arith,
      lookup-insert_self taguuid (insert ip uid []) l.user_online_ip,
      lookup-insert_self {V = ℤ} ip uid [],
    )

  pub track_rejected :
      (t a : String)
      → (track_device l taguuid ip uid device_limit).1 ≡ true
      → online_at (track_device l taguuid ip uid device_limit).0 t a ≡ online_at l t a
  unfolding track_device
  track_rejected t a r = elim (Option-cases (lookup taguuid l.user_online_ip)) [
    | inl off ↦ rw (off, track_device) (first_rejected off t a (rw (off, track_device) at r))
    | inr (ips, on) ↦ rw (on, track_device) (known_rejected ips on t a (rw (on, track_device) at r))
  ]

  pub track_others :
      (t a : String)
      → (track_device l taguuid ip uid device_limit).1 ≡ false
      → same_entry taguuid ip t a ≡ false
      → online_at (track_device l taguuid ip uid device_limit).0 t a ≡ online_at l t a
  unfolding track_device
  track_others t a r other = elim (Option-cases (lookup taguuid l.user_online_ip)) [
    | inl off ↦ rw (off, track_device) (first_others off t a (rw (off, track_device) at r) other)
    | inr (ips, on) ↦
        rw (on, track_device) (known_others ips on t a (rw (on, track_device) at r) other)
  ]

  pub track_online :
      (track_device l taguuid ip uid device_limit).1 ≡ false
      → (v : ℤ) × (online_at (track_device l taguuid ip uid device_limit).0 taguuid ip ≡ some v)
  unfolding track_device
  track_online r = elim (Option-cases (lookup taguuid l.user_online_ip)) [
    | inl off ↦ (uid, rw (off, track_device) (first_online off (rw (off, track_device) at r)))
    | inr (ips, on) ↦ rw (on, track_device) (known_online ips on (rw (on, track_device) at r))
  ]

  -- A user at capacity is refused an address that is neither online nor, for the first address
  -- since the last report, among those reported.
  unfoldable pub must_refuse : Bool
  must_refuse =
      (int_lt zero_int device_limit && not (int_lt (int_at uid l.alive_list) device_limit))
      && elim (lookup taguuid l.user_online_ip) [
        | none ↦ is_new (lookup ip l.old_user_online)
        | some ips ↦ is_new (lookup ip ips)
      ]

  pub track_refuses : (track_device l taguuid ip uid device_limit).1 ≡ must_refuse
  unfolding track_device track_known track_first must_refuse at_capacity
  track_refuses = ground arith
