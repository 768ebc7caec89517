-- ===== src/Tuic/Defrag/Slots.antt =====
-- Slots of a packet item: how many are occupied, and what is in them once all are.
use ppanel_node.Base.{
  ℕ, zero, suc, ◌+◌, ◌≤◌, ◌<◌, ◌≡◌, refl, ap, Option, none, some, List, [], ◌∷◌, arith, length,
  get_elem?, set, replicate,
}
use ppanel_node.Tuic.Message.{UdpMessage}
use ppanel_node.Tuic.Defrag.{collect}

module _ {ℓ} {A : Type ℓ} where
  unfoldable pub occupied : List (Option A) → ℕ
  occupied [] = 0
  occupied (none ∷ rest) = occupied rest
  occupied (some a ∷ rest) = suc (occupied rest)

  pub occupied-le-length : (xs : List (Option A)) → occupied xs ≤ length xs
  unfolding occupied
  occupied-le-length [] = omega arith
  occupied-le-length (none ∷ rest) = omega (arith, occupied-le-length rest)
  occupied-le-length (some a ∷ rest) = omega (arith, occupied-le-length rest)

  pub occupied-set :
      (xs : List (Option A)) (i : ℕ) (a : A)
      → get_elem? xs i ≡ some none
      → occupied (set xs i (some a)) ≡ occupied xs + 1
  unfolding occupied
  occupied-set [] i a h = cc
  occupied-set (none ∷ rest) zero a h = omega arith
  occupied-set (some b ∷ rest) zero a h = ground arith
  occupied-set (none ∷ rest) (suc i) a h = occupied-set rest i a h
  occupied-set (some b ∷ rest) (suc i) a h = omega (arith, occupied-set rest i a h)

  pub get_elem?-replicate : (n i : ℕ) (a : A) → i < n → get_elem? (replicate n a) i ≡ some a
  get_elem?-replicate zero i a h = absurd (omega arith)
  get_elem?-replicate (suc n) zero a h = refl
  get_elem?-replicate (suc n) (suc i) a h = get_elem?-replicate n i a (omega arith)

  pub get_elem?-some : (xs : List A) (i : ℕ) → i < length xs → (a : A) × (get_elem? xs i ≡ some a)
  get_elem?-some [] i h = absurd (omega arith)
  get_elem?-some (x ∷ xs) zero h = (x, refl)
  get_elem?-some (x ∷ xs) (suc i) h = get_elem?-some xs i (omega arith)

pub occupied-replicate {ℓ} : (A : Type ℓ) (n : ℕ) → occupied (replicate {A = Option A} n none) ≡ 0
unfolding occupied
occupied-replicate A zero = refl
occupied-replicate A (suc n) = occupied-replicate A n

pub collect_full :
    {D : Type 0} (xs : List (Option (UdpMessage D)))
    → occupied xs ≡ length xs
    → (ms : List (UdpMessage D)) × (collect xs ≡ some ms) × (length ms ≡ length xs)
unfolding occupied collect
collect_full [] h = ([], refl, refl)
collect_full (none ∷ rest) h = absurd (omega (arith, occupied-le-length rest))
collect_full (some m ∷ rest) h =
    let (ms, e, l) = collect_full rest (omega arith) in (m ∷ ms, rw e refl, ap suc l)
