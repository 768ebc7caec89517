-- ===== src/Traffic/Slice/Laws.antt =====
-- What leaves the counters is what is reported.
use ppanel_node.Base.{
  ℕ, ◌+◌, ◌%◌, ◌^◌, ◌≡◌, ◌≢◌, String, List, [], ◌∷◌, true, false, if◌then◌else◌, arith, All,
  Bool-cases, inl, inr, refl,
}
use ppanel_node.Base.Eq.{string_eq}
use ppanel_node.Base.Int.{ℤ, pos, int_eq, int_beq_iff}
use ppanel_node.Base.Map.{Map}
use ppanel_node.Panel.Types.{UserTraffic}
use ppanel_node.Traffic.Word.{add64, lt64}
use ppanel_node.Traffic.Counter.{TrafficStorage, TrafficCounter}
use ppanel_node.Traffic.Slice.{uid_of, is_known, slice_entries}

module _ (uids : Map String ℤ) where
  -- The wrapping sum of a count over the users that the core knows, and over a report.
  unfoldable pub known_sum : (TrafficStorage → ℕ) → TrafficCounter → ℕ
  known_sum count [] = 0
  known_sum count ((email, s) ∷ c) =
      let rest = known_sum count c in if is_known uids email then add64 (count s) rest else rest

unfoldable pub report_sum : (UserTraffic → ℕ) → List UserTraffic → ℕ
report_sum count [] = 0
report_sum count (t ∷ ts) = add64 (count t) (report_sum count ts)

module _ (uids : Map String ℤ) (mintraffic : ℕ) where
  -- For the users that the core knows, uploads before are uploads left and uploads reported; so are
  -- downloads.
  pub slice_entries_conserves :
      (c : TrafficCounter)
      → (known_sum uids (λ s. s.up_counter) c
          ≡ add64
              (known_sum uids (λ s. s.up_counter) (slice_entries uids mintraffic c).0)
              (report_sum (λ t. t.upload) (slice_entries uids mintraffic c).1))
        × (known_sum uids (λ s. s.down_counter) c
            ≡ add64
                (known_sum uids (λ s. s.down_counter) (slice_entries uids mintraffic c).0)
                (report_sum (λ t. t.download) (slice_entries uids mintraffic c).1))
  unfolding slice_entries known_sum report_sum add64
  slice_entries_conserves [] = (refl, refl)
  slice_entries_conserves ((email, s) ∷ c) =
      let (up, down) = slice_entries_conserves c in
      elim (Bool-cases (lt64 mintraffic ((s.up_counter + s.down_counter) % 2 ^ 64))) [
        | inl above ↦ elim (Bool-cases (is_known uids email)) [
          | inl known ↦ rw (above, known) (rw known (omega arith, omega arith))
          | inr gone ↦ rw (above, gone) (omega arith, omega arith)
        ]
        | inr below ↦ elim (Bool-cases (is_known uids email)) [
          | inl known ↦ rw below (rw known (omega arith, omega arith))
          | inr gone ↦ rw below (rw gone (omega arith, omega arith))
        ]
      ]

  -- Every report line is above the threshold and has a user id that is not 0.
  pub slice_entries_above :
      (c : TrafficCounter)
      → All
          (λ t. (lt64 mintraffic (add64 t.upload t.download) ≡ true) × (t.uid ≢ pos 0))
          (slice_entries uids mintraffic c).1
  unfolding slice_entries is_known
  slice_entries_above [] = tt
  slice_entries_above ((email, s) ∷ c) =
      ground (arith, slice_entries_above c, int_beq_iff (uid_of uids email) (pos 0))

  -- With a threshold that is not negative, no entry above it is left behind.
  pub slice_entries_left :
      (c : TrafficCounter)
      → lt64 mintraffic 0 ≡ false
      → All
          (λ (e : String × TrafficStorage).
            lt64 mintraffic (add64 e.1.up_counter e.1.down_counter) ≡ false)
          (slice_entries uids mintraffic c).0
  unfolding slice_entries add64
  slice_entries_left [] h = tt
  slice_entries_left ((email, s) ∷ c) h = ground (arith, slice_entries_left c h)
