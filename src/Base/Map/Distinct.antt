-- ===== src/Base/Map/Distinct.antt =====
-- Maps that hold each key once, as those built by `insert` and `delete` do.
use mathlib.Core.Path.{◌≡◌, refl, subst₂}
use mathlib.Core.Logic.{inl, inr}
use mathlib.Core.Option.{none, some}
use mathlib.Core.List.{[], ◌∷◌}
use native.Mathlib.Omega.{arith}
use ppanel_node.Base.Tests.{Bool-cases}
use ppanel_node.Base.Lists.{All}
use ppanel_node.Base.Eq.{Eq, ◌==◌}
use ppanel_node.Base.Map.{Map, lookup, insert, delete, lookup-insert, lookup-delete}

module _ {ℓ κ} {K : Type ℓ} {V : Type κ} ⦃e : Eq K⦄ where
  abbrev pub Distinct : Map K V → Type κ
  Distinct [] = Unit {κ}
  Distinct ((k, v) ∷ m) = (lookup k m ≡ none) × Distinct m

  pub insert-Distinct : (k : K) (v : V) (m : Map K V) → Distinct m → Distinct (insert k v m)
  unfolding lookup insert
  insert-Distinct k v [] d = (refl, tt)
  insert-Distinct k v ((j, w) ∷ m) (new, d) = elim (Bool-cases (j == k)) [
    | inl hit ↦ rw hit (ground (arith, e.beq_iff j k), d)
    | inr miss ↦ rw miss (
      ground (arith, lookup-insert k j v m, e.beq_iff k j, e.beq_iff j k),
      insert-Distinct k v m d,
    )
  ]

  pub delete-Distinct : (k : K) (m : Map K V) → Distinct m → Distinct (delete k m)
  unfolding lookup delete
  delete-Distinct k [] d = tt
  delete-Distinct k ((j, w) ∷ m) (new, d) = elim (Bool-cases (j == k)) [
    | inl hit ↦ rw hit (delete-Distinct k m d)
    | inr miss ↦ rw miss (ground (arith, lookup-delete k j m), delete-Distinct k m d)
  ]

  -- Every entry of `m` is what `m'` holds under its key.
  abbrev pub Agrees : Map K V → Map K V → Type κ
  Agrees [] m' = Unit {κ}
  Agrees ((k, v) ∷ m) m' = (lookup k m' ≡ some v) × Agrees m m'

  pub Agrees-insert :
      (k : K) (v : V) (m m' : Map K V) → lookup k m ≡ none → Agrees m m' → Agrees m (insert k v m')
  unfolding lookup
  Agrees-insert k v [] m' new a = tt
  Agrees-insert k v ((j, w) ∷ m) m' new (at, a) = (
    ground (arith, lookup-insert k j v m', e.beq_iff j k, e.beq_iff k j),
    Agrees-insert k v m m' (ground arith) a,
  )

  pub Agrees-delete :
      (k : K) (m m' : Map K V) → lookup k m ≡ none → Agrees m m' → Agrees m (delete k m')
  unfolding lookup
  Agrees-delete k [] m' new a = tt
  Agrees-delete k ((j, w) ∷ m) m' new (at, a) = (
    ground (arith, lookup-delete k j m', e.beq_iff j k, e.beq_iff k j),
    Agrees-delete k m m' (ground arith) a,
  )

  Agrees-cons :
      (k : K) (v : V) (m m' : Map K V) → lookup k m ≡ none → Agrees m m' → Agrees m ((k, v) ∷ m')
  unfolding lookup
  Agrees-cons k v [] m' new a = tt
  Agrees-cons k v ((j, w) ∷ m) m' new (at, a) =
      (ground (arith, e.beq_iff j k, e.beq_iff k j), Agrees-cons k v m m' (ground arith) a)

  pub Agrees-refl : (m : Map K V) → Distinct m → Agrees m m
  unfolding lookup
  Agrees-refl [] d = tt
  Agrees-refl ((k, v) ∷ m) (new, d) =
      (ground (arith, e.beq_iff k k), Agrees-cons k v m m new (Agrees-refl m d))

  -- What holds of every entry holds of the value that is found.
  pub All-lookup {μ} :
      (P : K → V → Type μ) (m : Map K V) (k : K) (v : V)
      → All (λ (p : K × V). P p.0 p.1) m
      → lookup k m ≡ some v
      → P k v
  unfolding lookup
  All-lookup P [] k v a found = cc
  All-lookup P ((j, w) ∷ m) k v (p, a) found = elim (Bool-cases (j == k)) [
    | inl hit ↦ let same : w ≡ v = ground arith in subst₂ P ((e.beq_iff j k).0 hit) same p
    | inr miss ↦ All-lookup P m k v a (ground arith)
  ]

  pub insert-All {μ} :
      (P : K → V → Type μ) (k : K) (v : V) (m : Map K V)
      → P k v
      → All (λ (p : K × V). P p.0 p.1) m
      → All (λ (p : K × V). P p.0 p.1) (insert k v m)
  unfolding insert
  insert-All P k v [] p a = (p, tt)
  insert-All P k v ((j, w) ∷ m) p (q, a) = elim (Bool-cases (j == k)) [
    | inl hit ↦ rw hit (p, a)
    | inr miss ↦ rw miss (q, insert-All P k v m p a)
  ]

  pub delete-All {μ} :
      (P : K → V → Type μ) (k : K) (m : Map K V)
      → All (λ (p : K × V). P p.0 p.1) m
      → All (λ (p : K × V). P p.0 p.1) (delete k m)
  unfolding delete
  delete-All P k [] a = tt
  delete-All P k ((j, w) ∷ m) (q, a) = elim (Bool-cases (j == k)) [
    | inl hit ↦ rw hit (delete-All P k m a)
    | inr miss ↦ rw miss (q, delete-All P k m a)
  ]
