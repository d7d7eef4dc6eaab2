-- ===== src/Denom/Backed.antt =====
-- Tables of reachable sums from which every sum can be walked back, with indices that add up to it.
use fupi.Common.{
  ℕ, suc, ◌+◌, ◌≤◌, ◌≡◌, refl, inl, inr, false, some, List, ◌∷◌, arith, ltb, ◌==◌, ==_iff, subst,
  ==_refl, Bool-cases, is_some,
}
use fupi.Denom.{Reach, lookup, add_sum, walk}
use fupi.Denom.Reach.{
  value_at, IsFalling, total_at, IsKey, IsFalling-le, Extends, Extends-refl, Extends-cons,
  walk-next, walk_fuel, walk-Extends,
}

module _ (values : List ℕ) where
  -- A walk back from `k` ends, with indices below `b` and values that add up to `k`.
  pub record Backed (b : ℕ) (reach : Reach) (k : ℕ) : Type 0 where
    pub idx : List ℕ
    pub walks : walk (suc k) reach k ≡ some idx
    pub falling : IsFalling b idx
    pub adds : total_at values idx ≡ k

  pub record Sound (b : ℕ) (reach : Reach) : Type 0 where
    pub backed : (k : ℕ) → IsKey k reach → Backed b reach k

  pub Backed-le : (a b : ℕ) (reach : Reach) (k : ℕ) → a ≤ b → Backed a reach k → Backed b reach k
  Backed-le a b reach k le w = record {
    idx = w.idx;
    walks = w.walks;
    falling = IsFalling-le a b w.idx le w.falling;
    adds = w.adds;
  }

  pub Backed-Extends :
      (b : ℕ) (reach later : Reach) (k : ℕ)
      → Extends reach later
      → Backed b reach k
      → Backed b later k
  Backed-Extends b reach later k x w = record {
    idx = w.idx;
    walks = walk-Extends (suc k) k reach later w.idx x w.walks;
    falling = w.falling;
    adds = w.adds;
  }

  -- The entry of a new sum `s + v` walks on from `s`.
  Backed-new :
      (i v s : ℕ) (reach : Reach)
      → (v == 0) ≡ false
      → value_at values i ≡ v
      → lookup (s + v) reach ≡ some (s, i)
      → Backed i reach s
      → Backed (suc i) reach (s + v)
  Backed-new i v s reach pos at found w = record {
    idx = i ∷ w.idx;
    walks =
        walk-next (s + v) (s + v) s i reach w.idx (ground arith) found
          (walk_fuel (suc s) (s + v) s reach w.idx (ground arith) w.walks);
    falling = (omega arith, w.falling);
    adds = omega (arith, w.adds, at);
  }

  lookup-head : (k : ℕ) (e : ℕ × ℕ) (reach : Reach) → lookup k ((k, e.0, e.1) ∷ reach) ≡ some e
  lookup-head k e reach = rw (==_refl k) refl

  add_sum-new :
      (target i v s : ℕ) (reach : Reach)
      → ltb target (s + v) ≡ false
      → is_some (lookup (s + v) reach) ≡ false
      → (v == 0) ≡ false
      → value_at values i ≡ v
      → Backed i reach s
      → Sound (suc i) reach
      → Sound (suc i) ((s + v, s, i) ∷ reach)
  add_sum-new target i v s reach fits fresh pos at w sound =
      let x : Extends reach ((s + v, s, i) ∷ reach) = Extends-cons (s + v) s i reach fresh in
      record {
        backed = λ k key. elim (Bool-cases (s + v == k)) [
          | inl same ↦ subst (Backed (suc i) ((s + v, s, i) ∷ reach)) ((==_iff (s + v) k).0 same) (
              Backed-new i v s ((s + v, s, i) ∷ reach) pos at (lookup-head (s + v) (s, i) reach)
                (Backed-Extends i reach ((s + v, s, i) ∷ reach) s x w))
          | inr other ↦
              Backed-Extends (suc i) reach ((s + v, s, i) ∷ reach) k x
                (sound.backed k (rw other at key))
        ];
      }

  pub add_sum-Sound :
      (target i v s : ℕ) (reach : Reach)
      → (v == 0) ≡ false
      → value_at values i ≡ v
      → Backed i reach s
      → Sound (suc i) reach
      → Sound (suc i) (add_sum target i v s reach)
  unfolding add_sum
  add_sum-Sound target i v s reach pos at w sound = elim (Bool-cases (ltb target (s + v))) [
    | inl over ↦ rw over sound
    | inr fits ↦ elim (Bool-cases (is_some (lookup (s + v) reach))) [
      | inl old ↦ rw (fits, old) sound
      | inr fresh ↦ rw (fits, fresh) (add_sum-new target i v s reach fits fresh pos at w sound)
    ]
  ]

pub add_sum-Extends :
    (target i v s : ℕ) (reach : Reach) → Extends reach (add_sum target i v s reach)
unfolding add_sum
add_sum-Extends target i v s reach = elim (Bool-cases (ltb target (s + v))) [
  | inl over ↦ rw over (Extends-refl reach)
  | inr fits ↦ elim (Bool-cases (is_some (lookup (s + v) reach))) [
    | inl old ↦ rw (fits, old) (Extends-refl reach)
    | inr fresh ↦ rw (fits, fresh) (Extends-cons (s + v) s i reach fresh)
  ]
]
