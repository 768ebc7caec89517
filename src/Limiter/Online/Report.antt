-- ===== src/Limiter/Online/Report.antt =====
-- `GetOnlineDevice` reports every online address once and starts the next period with none.
use ppanel_node.Base.{
  ◌≡◌, refl, ap, sym, ◌∙◌, String, List, [], ◌∷◌, ◌++◌, Bool, true, false, ◌||◌, arith, All,
}
use mathlib.Core.List.{append_assoc, append-nil}
use ppanel_node.Base.Eq.{◌==◌, string_eq, beq_refl}
use ppanel_node.Base.Int.{ℤ, int_eq}
use ppanel_node.Base.Map.{Map, insert, delete}
use ppanel_node.Panel.Types.{OnlineUser}
use ppanel_node.Limiter.{Limiter}
use ppanel_node.Limiter.Online.{report_ips, report_users, get_online_device}

-- The online addresses, user by user.
abbrev ips_online : Map String ℤ → List OnlineUser
ips_online [] = []
ips_online ((ip, uid) ∷ ips) = record { uid = uid; ip = ip } ∷ ips_online ips

unfoldable pub all_online : Map String (Map String ℤ) → List OnlineUser
all_online [] = []
all_online ((taguuid, ips) ∷ rest) = ips_online ips ++ all_online rest

nobody_online : all_online [] ≡ []
unfolding all_online
nobody_online = refl

report_ips_list :
    (ips old : Map String ℤ) (online : List OnlineUser)
    → (report_ips ips old online).1 ≡ online ++ ips_online ips
unfolding report_ips
report_ips_list [] old online = sym (append-nil online)
report_ips_list ((ip, uid) ∷ ips) old online =
    report_ips_list ips (insert ip uid old) (online ++ record { uid = uid; ip = ip } ∷ [])
    ∙ append_assoc online (record { uid = uid; ip = ip } ∷ []) (ips_online ips)

report_users_list :
    (entries : Map String (Map String ℤ)) (l : Limiter) (online : List OnlineUser)
    → (report_users entries l online).1 ≡ online ++ all_online entries
unfolding report_users all_online
report_users_list [] l online = sym (append-nil online)
report_users_list ((taguuid, ips) ∷ rest) l online =
    report_users_list rest _ _
    ∙ ap (λ r. r ++ all_online rest) (report_ips_list ips l.old_user_online online)
    ∙ append_assoc online (ips_online ips) (all_online rest)

-- Deleting the keys of `entries` one after another.
abbrev delete_keys :
    Map String (Map String ℤ) → Map String (Map String ℤ) → Map String (Map String ℤ)
delete_keys [] m = m
delete_keys ((k, v) ∷ entries) m = delete_keys entries (delete k m)

report_users_left :
    (entries : Map String (Map String ℤ)) (l : Limiter) (online : List OnlineUser)
    → (report_users entries l online).0.user_online_ip ≡ delete_keys entries l.user_online_ip
unfolding report_users
report_users_left [] l online = refl
report_users_left ((taguuid, ips) ∷ rest) l online = report_users_left rest _ _

has_key : String → Map String (Map String ℤ) → Bool
has_key k [] = false
has_key k ((j, v) ∷ m) = j == k || has_key k m

abbrev Covered : Map String (Map String ℤ) → Map String (Map String ℤ) → Type 0
Covered es m = All (λ (p : String × Map String ℤ). has_key p.0 es ≡ true) m

delete-Covered :
    (k : String) (v : Map String ℤ) (es m : Map String (Map String ℤ))
    → Covered ((k, v) ∷ es) m
    → Covered es (delete k m)
unfolding delete has_key
delete-Covered k v es [] c = tt
delete-Covered k v es ((j, w) ∷ m) c =
    ground (arith, delete-Covered k v es m c.1, string_eq.beq_iff j k, string_eq.beq_iff k j)

delete_keys-Covered : (es m : Map String (Map String ℤ)) → Covered es m → delete_keys es m ≡ []
unfolding has_key
delete_keys-Covered [] [] c = refl
delete_keys-Covered [] (p ∷ m) c = cc (c.0)
delete_keys-Covered ((k, v) ∷ es) m c =
    delete_keys-Covered es (delete k m) (delete-Covered k v es m c)

Covered-cons :
    (p : String × Map String ℤ) (es m : Map String (Map String ℤ))
    → Covered es m
    → Covered (p ∷ es) m
unfolding has_key
Covered-cons p es [] c = tt
Covered-cons p es (q ∷ m) c = ground (arith, Covered-cons p es m c.1)

Covered-refl : (m : Map String (Map String ℤ)) → Covered m m
unfolding has_key
Covered-refl [] = tt
Covered-refl ((k, v) ∷ m) = (ground (arith, beq_refl k), Covered-cons (k, v) m m (Covered-refl m))

-- The report lists the addresses of every user, each once, and leaves none online, so that a second
-- call reports nothing.
pub get_online_device_reports :
    (l : Limiter)
    → ((get_online_device l).1 ≡ all_online l.user_online_ip)
      × ((get_online_device l).0.user_online_ip ≡ [])
      × ((get_online_device (get_online_device l).0).1 ≡ [])
unfolding get_online_device
get_online_device_reports l =
    let left : (report_users l.user_online_ip l []).0.user_online_ip ≡ [] =
      report_users_left l.user_online_ip l []
      ∙ delete_keys-Covered l.user_online_ip l.user_online_ip (Covered-refl l.user_online_ip) in
    (
      report_users_list l.user_online_ip l [],
      left,
      report_users_list _ _ [] ∙ ap all_online left ∙ nobody_online,
    )
