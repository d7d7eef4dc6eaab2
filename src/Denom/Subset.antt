-- ===== src/Denom/Subset.antt =====
-- `exact_subset` finds a set of coins that adds up exactly whenever there is one.
use fupi.Common.{
  subst, ℕ, suc, ◌≤◌, ◌≡◌, refl, inl, inr, false, ◌||◌, none, some, List, [], ◌∷◌, arith, length,
  drop, ltb, ◌==◌, ==_iff, Bool-cases, is_some, if◌then◌else◌, All,
}
use fupi.Denom.{
  Reach, start, max_exact_target, lookup, add_sum, add_value, fill, walk, exact_subset,
}
use fupi.Denom.Reach.{value_at, IsFalling, total_at, IsKey, drop-cons, Extends}
use fupi.Denom.Backed.{Sound, Backed, Backed-le, Backed-Extends, add_sum-Sound, add_sum-Extends}
use fupi.Denom.Fill.{
  keys, keys-All, fill-nil, fill-skip, round, fill-break, fill-round, IsSubsetSum, fill-IsKey,
}

module _ (values : List ℕ) where
  All-Backed-Extends :
      (i : ℕ) (reach later : Reach) (sums : List ℕ)
      → Extends reach later
      → All (Backed values i reach) sums
      → All (Backed values i later) sums
  All-Backed-Extends i reach later [] x h = tt
  All-Backed-Extends i reach later (s ∷ sums) x h =
      (Backed-Extends values i reach later s x h.0, All-Backed-Extends i reach later sums x h.1)

  add_value-Sound :
      (target i v : ℕ) (sums : List ℕ) (reach : Reach)
      → (v == 0) ≡ false
      → value_at values i ≡ v
      → All (Backed values i reach) sums
      → Sound values (suc i) reach
      → Sound values (suc i) (add_value target i v sums reach)
  unfolding add_value
  add_value-Sound target i v [] reach pos at h sound = sound
  add_value-Sound target i v (s ∷ sums) reach pos at h sound =
      add_value-Sound target i v sums (add_sum target i v s reach) pos at
        (All-Backed-Extends i reach (add_sum target i v s reach) sums
          (add_sum-Extends target i v s reach) h.1)
        (add_sum-Sound values target i v s reach pos at h.0 sound)

  Sound-le : (a b : ℕ) (reach : Reach) → a ≤ b → Sound values a reach → Sound values b reach
  Sound-le a b reach le sound = record {
    backed = λ k key. Backed-le values a b reach k le (sound.backed k key);
  }

module _ (values : List ℕ) where
  All-Backed :
      (b : ℕ) (reach : Reach) (ks : List ℕ)
      → Sound values b reach
      → All (λ k. IsKey k reach) ks
      → All (Backed values b reach) ks
  All-Backed b reach [] sound h = tt
  All-Backed b reach (k ∷ ks) sound h = (sound.backed k h.0, All-Backed b reach ks sound h.1)

  round-Sound :
      (target i v : ℕ) (vs : List ℕ) (reach : Reach)
      → (v == 0 || ltb target v) ≡ false
      → drop i values ≡ v ∷ vs
      → Sound values i reach
      → Sound values (suc i) (round target i v reach)
  round-Sound target i v vs reach use_v at sound =
      add_value-Sound values target i v (keys reach) reach (ground arith)
        (drop-cons values i v vs at).0 (All-Backed i reach (keys reach) sound (keys-All reach))
        (Sound-le values i (suc i) reach (omega arith) sound)

  fill-Sound :
      (target i : ℕ) (vs : List ℕ) (reach : Reach)
      → drop i values ≡ vs
      → i ≤ length values
      → Sound values i reach
      → Sound values (length values) (fill target i vs reach)
  fill-Sound target i [] reach at le sound =
      rw (fill-nil target i reach) (Sound-le values i (length values) reach le sound)
  fill-Sound target i (v ∷ vs) reach at le sound =
      let (_, next, room) = drop-cons values i v vs at in
      elim (Bool-cases (v == 0 || ltb target v)) [
        | inl skip ↦ rw (fill-skip target i v vs reach skip) (
            fill-Sound target (suc i) vs reach next room
              (Sound-le values i (suc i) reach (omega arith) sound))
        | inr use_v ↦
            let later : Sound values (suc i) (round target i v reach) =
              round-Sound target i v vs reach use_v at sound in
            elim (Bool-cases (is_some (lookup target (round target i v reach)))) [
              | inl found ↦
                  rw (fill-break target i v vs reach use_v found)
                    (Sound-le values (suc i) (length values) (round target i v reach) room later)
              | inr more ↦
                  rw (fill-round target i v vs reach use_v more)
                    (fill-Sound target (suc i) vs (round target i v reach) next room later)
            ]
      ]

  start_key : (k : ℕ) → IsKey k start → 0 ≡ k
  start_key k h = ground arith

  start-Sound : Sound values 0 start
  unfolding walk
  start-Sound = record {
    backed = λ k key.
        subst (Backed values 0 start) (start_key k key)
          (record { idx = []; walks = refl; falling = tt; adds = refl });
  }

  table : ℕ → Reach
  table target = fill target 0 values start

  table-Sound : (target : ℕ) → Sound values (length values) (table target)
  unfolding table
  table-Sound target = fill-Sound target 0 values start refl (omega arith) start-Sound

  exact_subset_lem :
      (target : ℕ)
      → exact_subset values target ≡ (
          if target == 0
          then some []
          else if ltb max_exact_target target
          then none
          else if is_some (lookup target (table target))
          then walk (suc target) (table target) target
          else none)
  unfolding exact_subset table
  exact_subset_lem target = refl

  -- What the search returns are distinct indices of values that add up to the target.
  pub exact_subset_sound :
      (target : ℕ) (idx : List ℕ)
      → exact_subset values target ≡ some idx
      → IsFalling (length values) idx × (total_at values idx ≡ target)
  exact_subset_sound target idx h = elim (Bool-cases (target == 0)) [
    | inl nothing ↦
        let e : [] ≡ idx = cc (rw (exact_subset_lem target, nothing) at h) in
        rw (← e, (==_iff target 0).0 nothing) (tt, refl)
    | inr some_target ↦ elim (Bool-cases (ltb max_exact_target target)) [
      | inl over ↦ cc (rw (exact_subset_lem target, some_target, over) at h)
      | inr within ↦ elim (Bool-cases (is_some (lookup target (table target)))) [
        | inl found ↦
            let w = (table-Sound target).backed target found in
            let e : w.idx ≡ idx =
              cc (rw (exact_subset_lem target, some_target, within, found) at h, w.walks) in
            rw (← e) (w.falling, w.adds)
        | inr missing ↦ cc (rw (exact_subset_lem target, some_target, within, missing) at h)
      ]
    ]
  ]

  -- If some of the values add up to the target, and it is within the limit of the search, the search
  -- returns; it never meets a missing entry on its way back.
  pub exact_subset_complete :
      (target : ℕ)
      → IsSubsetSum values target
      → target ≤ max_exact_target
      → (idx : List ℕ) × (exact_subset values target ≡ some idx)
  exact_subset_complete target sub le = elim (Bool-cases (target == 0)) [
    | inl nothing ↦ ([], rw (exact_subset_lem target, nothing) refl)
    | inr some_target ↦
        let within : ltb max_exact_target target ≡ false = ground arith in
        let found : IsKey target (table target) =
          unfold table in fill-IsKey target 0 values start 0 target refl sub (omega arith) in
        let w = (table-Sound target).backed target found in
        (w.idx, rw (exact_subset_lem target, some_target, within, found) w.walks)
  ]
