-- ===== src/SelfUpdate/Apply/Laws.antt =====
-- The back-off after failures, and what a switch of versions can put on disk.
use ppanel_node.Base.{
  ℕ, zero, suc, ◌+◌, ◌-◌, ◌*◌, ◌^◌, ◌≤◌, ◌<◌, min, String, none, some, List, true, false, not, ltb,
  ◌≡◌, refl, ap, inl, inr, arith, Bool-cases,
}
use ppanel_node.Base.Eq.{◌==◌, string_eq, beq_refl}
use ppanel_node.SelfUpdate.Version.{resolve_repo, should_switch_version}
use ppanel_node.SelfUpdate.Release.{Sources, restart_failed, ok, ◌>>=◌, fetch_release}
use ppanel_node.SelfUpdate.Replace.{Files, System, replace_verified}
use ppanel_node.SelfUpdate.Apply.{
  Attempts, minute, max_attempt_backoff, should_attempt, backoff, note_failure, Machine,
  fetch_payload, attempt, apply_target_version,
}

pow_bounds : (k : ℕ) → k ≤ 5 → (1 ≤ 2 ^ k) × (2 ^ k ≤ 32)
pow_bounds zero h = (omega arith, omega arith)
pow_bounds (suc zero) h = (omega arith, omega arith)
pow_bounds (suc (suc zero)) h = (omega arith, omega arith)
pow_bounds (suc (suc (suc zero))) h = (omega arith, omega arith)
pow_bounds (suc (suc (suc (suc zero)))) h = (omega arith, omega arith)
pow_bounds (suc (suc (suc (suc (suc zero))))) h = (omega arith, omega arith)
pow_bounds (suc (suc (suc (suc (suc (suc k)))))) h = absurd (omega arith)

backoff_bounds : (fails : ℕ) → (minute ≤ backoff fails) × (backoff fails ≤ max_attempt_backoff)
unfolding backoff
backoff_bounds fails =
    let b = pow_bounds (min (fails - 1) 5) (omega arith) in
    let p = 2 ^ min (fails - 1) 5 in
    let scaled : minute ≤ p * minute = omega (arith, b.0) in (omega (arith, scaled), omega arith)

pub note_failure-should_attempt :
    (a : Attempts) (now later : ℕ)
    → (later < now + minute
        → (should_attempt (note_failure a a.target now) a.target later).1 ≡ false)
      × (now + max_attempt_backoff ≤ later
          → (should_attempt (note_failure a a.target now) a.target later).1 ≡ true)
      × ((other : String)
          → (other == a.target) ≡ false
          → (should_attempt (note_failure a a.target now) other later).1 ≡ true)
unfolding note_failure should_attempt
note_failure-should_attempt a now later =
    let b = backoff_bounds (a.fails + 1) in
    rw (beq_refl a.target) (
      rw (beq_refl a.target) (λ h. ground arith, λ h. ground arith, λ other h. rw h (ground arith)))

-- The state that `should_attempt` leaves when it allows an attempt allows another at any later time.
allowed-again :
    (a : Attempts) (target : String) (now later : ℕ)
    → (should_attempt a target now).1 ≡ true
    → now ≤ later
    → (should_attempt (should_attempt a target now).0 target later).1 ≡ true
unfolding should_attempt
allowed-again a target now later due after = elim (Bool-cases (target == a.target)) [
  | inl same ↦
      let passed : not (ltb now a.next) ≡ true = rw same at due in rw same (rw same (ground arith))
  | inr other ↦ rw other (rw (beq_refl target) (ground arith))
]

module _ (w : Sources) (y : System) (k : Machine) (a : Attempts) (fs fs' : Files) (now : ℕ)
    (current target repo self : String) (payload : List ℕ)
    (switch : should_switch_version current target ≡ true)
    (due : (should_attempt a target now).1 ≡ true) where
  due-eq : should_attempt a target now ≡ ((should_attempt a target now).0, true)
  due-eq = ap (λ b. ((should_attempt a target now).0, b)) due

  -- A failure to restart is not counted: the new binary is in place, the error is returned, and at any
  -- later time the same switch is attempted again, without a back-off.
  pub apply_restart_failed :
      (fetch_release w (resolve_repo repo "") target >>= λ r. fetch_payload w k r)
        ≡ ok (self, payload)
      → replace_verified y fs self k.temporary payload target ≡ (fs', none)
      → k.restart_works ≡ false
      → ((apply_target_version w y k a fs now current target repo).1 ≡ fs')
        × ((apply_target_version w y k a fs now current target repo).2 ≡ some restart_failed)
        × ((later : ℕ)
            → now ≤ later
            → (should_attempt
                (apply_target_version w y k a fs now current target repo).0
                target
                later).1
              ≡ true)
  unfolding apply_target_version attempt
  apply_restart_failed fetched replaced stuck =
      rw (switch, due-eq, fetched, replaced, stuck)
        (refl, refl, λ later after. allowed-again a target now later due after)
