-- ===== src/Denom/Fill.antt =====
-- What the rounds of `exact_subset` put into the table of reachable sums.
use fupi.Common.{
  sym, subst, ℕ, suc, ◌+◌, ◌-◌, ◌≤◌, ◌≡◌, refl, ◌⊎◌, inl, inr, true, false, ◌||◌, List, [], ◌∷◌,
  map, arith, any, ltb, ◌==◌, ==_iff, ==_refl, Bool-cases, is_some, All,
}
use fupi.Denom.{Reach, lookup, add_sum, add_value, fill}
use fupi.Denom.Reach.{IsKey, Extends, Extends-refl, Extends-trans, Extends-IsKey}
use fupi.Denom.Backed.{add_sum-Extends}

pub add_value-Extends :
    (target i v : ℕ) (sums : List ℕ) (reach : Reach)
    → Extends reach (add_value target i v sums reach)
unfolding add_value
add_value-Extends target i v [] reach = Extends-refl reach
add_value-Extends target i v (s ∷ sums) reach =
    Extends-trans (add_sum-Extends target i v s reach)
      (add_value-Extends target i v sums (add_sum target i v s reach))

-- Every listed sum is a key of the table.
pub IsKey-head : (k s i : ℕ) (r : Reach) → IsKey k ((k, s, i) ∷ r)
IsKey-head k s i r = rw (==_refl k) refl

pub IsKey-tail : (k j s i : ℕ) (r : Reach) → IsKey k r → IsKey k ((j, s, i) ∷ r)
IsKey-tail k j s i r h = ground arith

pub All-keys_tail :
    (ks : List ℕ) (j s i : ℕ) (r : Reach)
    → All (λ k. IsKey k r) ks
    → All (λ k. IsKey k ((j, s, i) ∷ r)) ks
All-keys_tail [] j s i r h = tt
All-keys_tail (k ∷ ks) j s i r h = (IsKey-tail k j s i r h.0, All-keys_tail ks j s i r h.1)

abbrev pub keys : Reach → List ℕ
keys reach = map (λ e. e.0) reach

pub keys-All : (r : Reach) → All (λ k. IsKey k r) (keys r)
keys-All [] = tt
keys-All ((k, s, i) ∷ r) = (IsKey-head k s i r, All-keys_tail (keys r) k s i r (keys-All r))

-- A key is listed.
pub key-any : (k : ℕ) (r : Reach) → IsKey k r → any (λ j. j == k) (keys r) ≡ true
key-any k [] h = h
key-any k ((j, s, i) ∷ r) h = ground (arith, key-any k r)

-- After a round every sum of the snapshot, extended by the value, is a key.
pub add_sum-IsKey :
    (target i v s : ℕ) (reach : Reach) → s + v ≤ target → IsKey (s + v) (add_sum target i v s reach)
unfolding add_sum
add_sum-IsKey target i v s reach le =
    let fits : ltb target (s + v) ≡ false = ground arith in
    elim (Bool-cases (is_some (lookup (s + v) reach))) [
      | inl old ↦ rw (fits, old) old
      | inr fresh ↦ rw (fits, fresh) (IsKey-head (s + v) s i reach)
    ]

pub add_value-IsKey :
    (target i v s : ℕ) (sums : List ℕ) (reach : Reach)
    → s + v ≤ target
    → any (λ j. j == s) sums ≡ true
    → IsKey (s + v) (add_value target i v sums reach)
unfolding add_value
add_value-IsKey target i v s [] reach le h = cc
add_value-IsKey target i v s (j ∷ sums) reach le h = elim (Bool-cases (j == s)) [
  | inl same ↦
      Extends-IsKey (s + v) (add_value-Extends target i v sums (add_sum target i v j reach)) (
        subst (λ k. IsKey (s + v) (add_sum target i v k reach)) (sym ((==_iff j s).0 same))
          (add_sum-IsKey target i v s reach le))
  | inr other ↦ add_value-IsKey target i v s sums (add_sum target i v j reach) le (rw other at h)
]

pub fill-nil : (target i : ℕ) (reach : Reach) → fill target i [] reach ≡ reach
unfolding fill
fill-nil target i reach = refl

pub fill-skip :
    (target i v : ℕ) (vs : List ℕ) (reach : Reach)
    → (v == 0 || ltb target v) ≡ true
    → fill target i (v ∷ vs) reach ≡ fill target (suc i) vs reach
unfolding fill
fill-skip target i v vs reach h = rw h refl

-- The table after the value `v` at index `i`.
abbrev pub round : ℕ → ℕ → ℕ → Reach → Reach
round target i v reach = add_value target i v (keys reach) reach

pub fill-break :
    (target i v : ℕ) (vs : List ℕ) (reach : Reach)
    → (v == 0 || ltb target v) ≡ false
    → is_some (lookup target (round target i v reach)) ≡ true
    → fill target i (v ∷ vs) reach ≡ round target i v reach
unfolding fill
fill-break target i v vs reach h k = rw (h, k) refl

pub fill-round :
    (target i v : ℕ) (vs : List ℕ) (reach : Reach)
    → (v == 0 || ltb target v) ≡ false
    → is_some (lookup target (round target i v reach)) ≡ false
    → fill target i (v ∷ vs) reach ≡ fill target (suc i) vs (round target i v reach)
unfolding fill
fill-round target i v vs reach h k = rw (h, k) refl

-- `t` is the sum of some of the values, each used at most once.
abbrev pub IsSubsetSum : List ℕ → ℕ → Type 0
IsSubsetSum [] t = t ≡ 0
IsSubsetSum (v ∷ vs) t = IsSubsetSum vs t ⊎ ((v ≤ t) × IsSubsetSum vs (t - v))

pub fill-IsKey :
    (target i : ℕ) (vs : List ℕ) (reach : Reach) (s t : ℕ)
    → IsKey s reach
    → IsSubsetSum vs t
    → s + t ≡ target
    → IsKey target (fill target i vs reach)
fill-IsKey target i [] reach s t key sub e =
    let here : s ≡ target = omega arith in rw (fill-nil target i reach) (rw here at key)
fill-IsKey target i (v ∷ vs) reach s t key sub e = elim (Bool-cases (v == 0 || ltb target v)) [
  | inl skip ↦ rw (fill-skip target i v vs reach skip) (elim sub [
    | inl without ↦ fill-IsKey target (suc i) vs reach s t key without e
    | inr (le, with_v) ↦ fill-IsKey target (suc i) vs reach s (t - v) key with_v (ground arith)
  ])
  | inr use_v ↦ elim (Bool-cases (is_some (lookup target (round target i v reach)))) [
    | inl found ↦ rw (fill-break target i v vs reach use_v found) found
    | inr more ↦ rw (fill-round target i v vs reach use_v more) (elim sub [
      | inl without ↦
          fill-IsKey target (suc i) vs (round target i v reach) s t
            (Extends-IsKey s (add_value-Extends target i v (keys reach) reach) key) without e
      | inr (le, with_v) ↦
          fill-IsKey target (suc i) vs (round target i v reach) (s + v) (t - v)
            (add_value-IsKey target i v s (keys reach) reach (omega arith) (key-any s reach key))
            with_v (omega arith)
    ])
  ]
]
