-- ===== src/Verify/NextAction/Worst.antt =====
-- The category that failed most often, as `get_next_action_state` seeks it.
use agent_it.Base.{
  ℕ, ◌≤◌, String, Option, none, some, List, [], ◌∷◌, ◌≡◌, inl, inr, refl, arith, ltb, In, All,
  Bool-cases,
}
use agent_it.Registry.{FindingKey}
use agent_it.Verify.NextAction.{worse, worst_from}

-- The count of the worst category so far, 0 where there is none.
abbrev pub worst_count : Option (String × ℕ) → ℕ
worst_count none = 0
worst_count (some (c, n)) = n

module _ (count : String → ℕ) where
  abbrev pub IsCounted : List FindingKey → Option (String × ℕ) → Type 0
  IsCounted keys none = Unit
  IsCounted keys (some (c, n)) = (n ≡ count c) × ((k : FindingKey) × In k keys × (k.0 ≡ c))

  worse-le :
      (k : FindingKey) (w : Option (String × ℕ))
      → (worst_count w ≤ worst_count (worse count k w))
        × (count k.0 ≤ worst_count (worse count k w))
  worse-le k none = (omega arith, omega arith)
  worse-le k (some (c, n)) = ground arith

  pub worst_from-le :
      (w : Option (String × ℕ)) (keys : List FindingKey)
      → (worst_count w ≤ worst_count (worst_from count w keys))
        × All (λ (k : FindingKey). count k.0 ≤ worst_count (worst_from count w keys)) keys
  worst_from-le w [] = (omega arith, tt)
  worst_from-le w (k ∷ keys) =
      let (le, all_le) = worst_from-le (worse count k w) keys in
      let (a, b) = worse-le k w in (omega (arith, le, a), (omega (arith, le, b), all_le))

  worse-IsCounted :
      (keys : List FindingKey) (k : FindingKey) (w : Option (String × ℕ))
      → In k keys
      → IsCounted keys w
      → IsCounted keys (worse count k w)
  worse-IsCounted keys k none m h = (refl, (k, m, refl))
  worse-IsCounted keys k (some (c, n)) m h = elim (Bool-cases (ltb n (count k.0))) [
    | inl more ↦ rw more (refl, (k, m, refl))
    | inr less ↦ rw less h
  ]

  pub worst_from-IsCounted :
      (all_keys keys : List FindingKey) (w : Option (String × ℕ))
      → ((k : FindingKey) → In k keys → In k all_keys)
      → IsCounted all_keys w
      → IsCounted all_keys (worst_from count w keys)
  worst_from-IsCounted all_keys [] w sub h = h
  worst_from-IsCounted all_keys (k ∷ keys) w sub h =
      worst_from-IsCounted all_keys keys (worse count k w) (λ j m. sub j (inr m))
        (worse-IsCounted all_keys k w (sub k (inl refl)) h)
