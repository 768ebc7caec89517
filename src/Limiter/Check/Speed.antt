-- ===== src/Limiter/Check/Speed.antt =====
-- Speed limits: how two limits combine, and the bucket that a link gets.
use ppanel_node.Base.{
  ℕ, zero, suc, ◌*◌, ◌<◌, ◌^◌, ◌≡◌, ◌⊎◌, refl, String, none, some, arith, min, Option-cases, inl,
  inr,
}
use ppanel_node.Base.Eq.{string_eq}
use ppanel_node.Base.Int.{pos, negsuc, int_eq}
use ppanel_node.Base.Map.{lookup, lookup-insert_self}
use ppanel_node.Limiter.{Limiter, Bucket, determine_speed_limit}
use ppanel_node.Limiter.Check.{bytes_per_second, get_bucket}

-- The smaller of two limits of which 0 means none.
unfoldable pub min_limit : ℕ → ℕ → ℕ
min_limit zero b = b
min_limit (suc a) zero = suc a
min_limit (suc a) (suc b) = min (suc a) (suc b)

-- On limits that are not negative the code returns the smaller one, where 0 means no limit.
pub determine_speed_limit_min :
    (a b : ℕ) → determine_speed_limit (pos a) (pos b) ≡ pos (min_limit a b)
unfolding determine_speed_limit min_limit
determine_speed_limit_min zero zero = ground arith
determine_speed_limit_min zero (suc b) = ground arith
determine_speed_limit_min (suc a) zero = ground arith
determine_speed_limit_min (suc a) (suc b) = ground arith

-- A limit of `n` megabits a second, short of overflow, is `n` times 125000 bytes a second.
pub bytes_per_second_pos : (n : ℕ) → n * 1000000 < 2 ^ 63 → bytes_per_second (pos n) ≡ n * 125000
unfolding bytes_per_second
bytes_per_second_pos n h = ground arith

-- A limit below zero is no limit.
pub bytes_per_second_negative : (n : ℕ) → n * 1000000 < 2 ^ 62 → bytes_per_second (negsuc n) ≡ 0
unfolding bytes_per_second
bytes_per_second_negative n h = ground arith

module _ (l : Limiter) (taguuid : String) (limit : ℕ) where
  -- A link gets the bucket of its user that is there already, or a new one of the given rate, which
  -- is then the bucket of every later link of the user.
  pub get_bucket_shared :
      0 < limit
      → (b : Bucket) × ((get_bucket l taguuid limit).1 ≡ some b)
        × (lookup taguuid (get_bucket l taguuid limit).0.speed_limiter ≡ some b)
        × ((lookup taguuid l.speed_limiter ≡ some b)
            ⊎ (lookup taguuid l.speed_limiter ≡ none) × (b.quantum ≡ limit))
  unfolding get_bucket
  get_bucket_shared h = elim (Option-cases (lookup taguuid l.speed_limiter)) [
    | inl e ↦ (
      record { capacity = limit; quantum = limit },
      ground (arith),
      ground (
        arith,
        lookup-insert_self taguuid (record { capacity = limit; quantum = limit }) l.speed_limiter,
      ),
      inr (e, refl),
    )
    | inr (b, e) ↦ (b, ground arith, ground arith, inl e)
  ]
