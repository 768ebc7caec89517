-- ===== src/Node/UserList/Compare.antt =====
-- What `compareUserList` of node/task.go finds: deleted and added users, by key.
use ppanel_node.Base.{
  if◌then◌else◌, ℕ, suc, ◌+◌, ◌≡◌, refl, ◌∙◌, String, some, List, [], ◌∷◌, Bool, true, false, not,
  ◌&&◌, ◌||◌, arith, get_elem?, All, Bool-cases, inl, inr,
}
use ppanel_node.Base.Eq.{◌==◌, string_eq, beq_refl}
use ppanel_node.Base.Map.{Map, lookup, insert, delete, member, lookup-insert, lookup-delete}
use ppanel_node.Base.Map.Distinct.{insert-All, delete-All}
use ppanel_node.Panel.Types.{UserInfo}
use ppanel_node.Node.UserList.{user_key, index_users, find_added, pick_deleted, compare_user_list}

unfoldable pub has_key : String → List UserInfo → Bool
has_key k [] = false
has_key k (u ∷ us) = user_key u == k || has_key k us

-- No key twice.
abbrev pub DistinctKeys : List UserInfo → Type 0
DistinctKeys [] = Unit {0}
DistinctKeys (u ∷ us) = (has_key (user_key u) us ≡ false) × DistinctKeys us

-- An entry of the map tells where in the old list the user with its key stands.
abbrev StandsAt : List UserInfo → String → ℕ → Type 0
StandsAt old k i = (u : UserInfo) × (get_elem? old i ≡ some u) × (user_key u ≡ k)

abbrev Indexed : List UserInfo → Map String ℕ → Type 0
Indexed old m = All (λ (p : String × ℕ). StandsAt old p.0 p.1) m

index_users-Indexed :
    (old us : List UserInfo) (i : ℕ) (m : Map String ℕ)
    → ((t : ℕ) (u : UserInfo) → get_elem? us t ≡ some u → get_elem? old (i + t) ≡ some u)
    → Indexed old m
    → Indexed old (index_users i us m)
unfolding index_users
index_users-Indexed old [] i m stands w = w
index_users-Indexed old (u ∷ us) i m stands w =
    let here : i + 0 ≡ i = omega arith in
    let first : get_elem? old i ≡ some u = rw here at (stands 0 u refl) in
    index_users-Indexed old us (suc i) (insert (user_key u) i m)
      (λ t v e. let shift : suc i + t ≡ i + suc t = omega arith in rw shift (stands (suc t) v e))
      (insert-All (StandsAt old) (user_key u) i m (u, first, refl) w)

member-index_users :
    (k : String) (us : List UserInfo) (i : ℕ) (m : Map String ℕ)
    → member k (index_users i us m) ≡ (has_key k us || member k m)
unfolding index_users has_key
member-index_users k [] i m = refl
member-index_users k (u ∷ us) i m = ground (
  arith,
  member-index_users k us (suc i) (insert (user_key u) i m),
  lookup-insert (user_key u) k i m,
)

find_added-Indexed :
    (old us : List UserInfo) (m : Map String ℕ) → Indexed old m → Indexed old (find_added us m).1
unfolding find_added
find_added-Indexed old [] m w = w
find_added-Indexed old (u ∷ us) m w = elim (Bool-cases (member (user_key u) m)) [
  | inl old_user ↦ rw old_user (
      find_added-Indexed old us (delete (user_key u) m)
        (delete-All (StandsAt old) (user_key u) m w))
  | inr new_user ↦ rw new_user (find_added-Indexed old us m w)
]

member-find_added :
    (k : String) (us : List UserInfo) (m : Map String ℕ)
    → member k (find_added us m).1 ≡ (not (has_key k us) && member k m)
unfolding find_added has_key
member-find_added k [] m = refl
member-find_added k (u ∷ us) m = ground (
  arith,
  member-find_added k us m,
  member-find_added k us (delete (user_key u) m),
  lookup-delete (user_key u) k m,
  string_eq.beq_iff (user_key u) k,
)

-- A key that the map lacks is among the users added as often as among all.
has_key-find_added_new :
    (k : String) (us : List UserInfo) (m : Map String ℕ)
    → member k m ≡ false
    → has_key k (find_added us m).0 ≡ has_key k us
unfolding find_added has_key
has_key-find_added_new k [] m missing = refl
has_key-find_added_new k (u ∷ us) m missing = ground (
  arith,
  has_key-find_added_new k us m missing,
  has_key-find_added_new k us (delete (user_key u) m),
  lookup-delete (user_key u) k m,
  string_eq.beq_iff (user_key u) k,
)

-- A key that stands more than once in a list.
unfoldable pub repeats : String → List UserInfo → Bool
unfolding has_key
repeats k [] = false
repeats k (u ∷ us) = if user_key u == k then has_key k us else repeats k us

-- A key that the map has is among the users added if it occurs again.
has_key-find_added_old :
    (k : String) (us : List UserInfo) (m : Map String ℕ)
    → member k m ≡ true
    → has_key k (find_added us m).0 ≡ repeats k us
unfolding find_added has_key repeats
has_key-find_added_old k [] m here = refl
has_key-find_added_old k (u ∷ us) m here = ground (
  arith,
  has_key-find_added_old k us m here,
  has_key-find_added_old k us (delete (user_key u) m),
  has_key-find_added_new k us (delete (user_key u) m),
  lookup-delete (user_key u) k m,
  string_eq.beq_iff (user_key u) k,
)

pick_deleted-keys :
    (old : List UserInfo) (m : Map String ℕ)
    → Indexed old m
    → (ds : List UserInfo) × (pick_deleted old m ≡ some ds)
      × ((k : String) → has_key k ds ≡ member k m)
unfolding pick_deleted has_key lookup
pick_deleted-keys old [] w = ([], refl, λ k. refl)
pick_deleted-keys old ((key, index) ∷ m) ((u, at, same), w) =
    let (ds, picked, keys) = pick_deleted-keys old m w in
    (u ∷ ds, ground (arith, at, picked), λ k. ground (arith, same, keys k))

repeats-DistinctKeys : (k : String) (us : List UserInfo) → DistinctKeys us → repeats k us ≡ false
unfolding repeats has_key
repeats-DistinctKeys k [] d = refl
repeats-DistinctKeys k (u ∷ us) (once, d) =
    ground (arith, once, repeats-DistinctKeys k us d, string_eq.beq_iff (user_key u) k)

-- `compareUserList` does not panic. A key is among those deleted when it is in the old list and not in
-- the new one, and among those added when it is in the new list and not in the old one, or when it is in
-- the old list and stands more than once in the new one.
pub compare_user_list-keys :
    (old new : List UserInfo)
    → (deleted added : List UserInfo) × (compare_user_list old new ≡ some (deleted, added))
      × ((k : String) → has_key k deleted ≡ (not (has_key k new) && has_key k old))
      × ((k : String) → has_key k added ≡ (if has_key k old then repeats k new else has_key k new))
unfolding compare_user_list has_key lookup
compare_user_list-keys old new =
    let m = index_users 0 old [] in
    let indexed : Indexed old m =
      index_users-Indexed old old 0 [] (λ t u e. let at : 0 + t ≡ t = omega arith in rw at e) tt in
    let (ds, picked, keys) =
      pick_deleted-keys old (find_added new m).1 (find_added-Indexed old new m indexed) in
    (
      ds,
      (find_added new m).0,
      ground (arith, picked),
      λ k. ground (arith, keys k, member-find_added k new m, member-index_users k old 0 []),
      λ k. ground (
        arith,
        has_key-find_added_new k new m,
        has_key-find_added_old k new m,
        member-index_users k old 0 [],
      ),
    )

no_keys : (us : List UserInfo) → ((k : String) → has_key k us ≡ false) → us ≡ []
unfolding has_key
no_keys [] h = refl
no_keys (u ∷ us) h = absurd (ground (arith, h (user_key u), beq_refl (user_key u)))

-- A list without repeated keys, compared with itself, has no user deleted and none added, so that a
-- round of the monitor that finds nothing new changes nothing.
pub compare_user_list-same :
    (us : List UserInfo) → DistinctKeys us → compare_user_list us us ≡ some ([], [])
compare_user_list-same us d =
    let (deleted, added, e, gone, new) = compare_user_list-keys us us in
    let none_gone = no_keys deleted (λ k. gone k ∙ ground arith) in
    let none_new = no_keys added (λ k. new k ∙ ground (arith, repeats-DistinctKeys k us d)) in cc
