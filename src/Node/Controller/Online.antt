-- ===== src/Node/Controller/Online.antt =====
-- node/task.go: which online users `reportOnlineAndStatus` reports.
use ppanel_node.Base.{
  ℕ, ◌≡◌, ◌≢◌, refl, ap, String, List, [], ◌∷◌, Bool, true, false, ◌||◌, if◌then◌else◌, arith, All,
}
use ppanel_node.Base.Eq.{◌==◌, string_eq}
use ppanel_node.Base.Int.{ℤ, pos, int_eq}
use ppanel_node.Base.Map.{Map}
use ppanel_node.Panel.Types.{OnlineUser, UserTraffic}
use ppanel_node.Traffic.Word.{add64, lt64}
use ppanel_node.Traffic.Counter.{TrafficCounter}
use ppanel_node.Traffic.Slice.{slice_entries}
use ppanel_node.Traffic.Slice.Laws.{slice_entries_above}

-- `nocountUID`: the users of a traffic line whose total is not positive.
unfoldable pub is_uncounted : List UserTraffic → ℤ → Bool
is_uncounted [] uid = false
is_uncounted (t ∷ ts) uid =
    let later = is_uncounted ts uid in
    if lt64 0 (add64 t.upload t.download) then later else t.uid == uid || later

unfoldable pub online_report : List UserTraffic → List OnlineUser → List OnlineUser
unfolding is_uncounted
online_report traffic [] = []
online_report traffic (o ∷ online) =
    let rest = online_report traffic online in if is_uncounted traffic o.uid then rest else o ∷ rest

positive_counts :
    (threshold : ℕ) (ts : List UserTraffic) (uid : ℤ)
    → lt64 threshold 0 ≡ false
    → All (λ (t : UserTraffic). lt64 threshold (add64 t.upload t.download) ≡ true) ts
    → is_uncounted ts uid ≡ false
unfolding is_uncounted lt64 add64
positive_counts threshold [] uid h a = refl
positive_counts threshold (t ∷ ts) uid h (above, a) =
    ground (arith, positive_counts threshold ts uid h a)

above_only :
    (threshold : ℕ) (ts : List UserTraffic)
    → All
        (λ (t : UserTraffic). (lt64 threshold (add64 t.upload t.download) ≡ true) × (t.uid ≢ pos 0))
        ts
    → All (λ (t : UserTraffic). lt64 threshold (add64 t.upload t.download) ≡ true) ts
above_only threshold [] a = tt
above_only threshold (t ∷ ts) (p, a) = (p.0, above_only threshold ts a)

-- The report leaves out nobody: the traffic that it is given was taken off the counters above a
-- threshold that is not negative, so no line of it has a total of zero.
pub online_report-everybody :
    (uids : Map String ℤ) (threshold : ℕ) (c : TrafficCounter) (online : List OnlineUser)
    → lt64 threshold 0 ≡ false
    → online_report (slice_entries uids threshold c).1 online ≡ online
unfolding online_report
online_report-everybody uids threshold c [] h = refl
online_report-everybody uids threshold c (o ∷ online) h =
    let counted : is_uncounted (slice_entries uids threshold c).1 o.uid ≡ false =
      positive_counts threshold (slice_entries uids threshold c).1 o.uid h (
        above_only threshold (slice_entries uids threshold c).1
          (slice_entries_above uids threshold c)) in
    rw counted (ap (λ os. o ∷ os) (online_report-everybody uids threshold c online h))
