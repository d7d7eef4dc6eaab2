-- ===== src/Denom/Reach.antt =====
-- The table of reachable sums: walking back from any key gives distinct indices whose values add up
-- to the key, and every sum that can be made is a key.
use fupi.Common.{
  ℕ, zero, suc, ◌+◌, ◌≤◌, ◌<◌, ◌≡◌, refl, inl, inr, true, false, Option, none, some, List, [], ◌∷◌,
  arith, length, drop, ◌==◌, ==_iff, Bool-cases, Option-cases, is_some,
}
use fupi.Denom.{Reach, lookup, walk}

abbrev pub value_at : List ℕ → ℕ → ℕ
value_at [] i = 0
value_at (x ∷ xs) zero = x
value_at (x ∷ xs) (suc i) = value_at xs i

-- Strictly falling indices, the first below the bound: no index is used twice.
abbrev pub IsFalling : ℕ → List ℕ → Type 0
IsFalling b [] = Unit
IsFalling b (i ∷ is) = (i < b) × IsFalling i is

abbrev pub total_at : List ℕ → List ℕ → ℕ
total_at values [] = 0
total_at values (i ∷ is) = value_at values i + total_at values is

abbrev pub IsKey : ℕ → Reach → Type 0
IsKey k reach = is_some (lookup k reach) ≡ true

pub IsFalling-le : (a b : ℕ) (is : List ℕ) → a ≤ b → IsFalling a is → IsFalling b is
IsFalling-le a b [] le h = tt
IsFalling-le a b (i ∷ is) le h = (omega arith, h.1)

pub drop-cons :
    (values : List ℕ) (i v : ℕ) (vs : List ℕ)
    → drop i values ≡ v ∷ vs
    → (value_at values i ≡ v) × (drop (suc i) values ≡ vs) × (i < length values)
drop-cons [] zero v vs h = cc
drop-cons [] (suc i) v vs h = cc
drop-cons (x ∷ xs) zero v vs h = ground arith
drop-cons (x ∷ xs) (suc i) v vs h = ground (arith, drop-cons xs i v vs h)

-- The later table keeps every entry of the earlier one.
pub record Extends (reach later : Reach) : Type 0 where
  pub kept : (k : ℕ) (e : ℕ × ℕ) → lookup k reach ≡ some e → lookup k later ≡ some e

pub Extends-refl : (reach : Reach) → Extends reach reach
Extends-refl reach = record { kept = λ k e found. found }

pub Extends-trans :
    {reach middle later : Reach} → Extends reach middle → Extends middle later → Extends reach later
Extends-trans x y = record { kept = λ k e found. y.kept k e (x.kept k e found) }

pub Extends-IsKey :
    {reach later : Reach} (k : ℕ) → Extends reach later → IsKey k reach → IsKey k later
Extends-IsKey {reach} k x h = elim (Option-cases (lookup k reach)) [
  | inl gone ↦ cc (rw gone at h)
  | inr (e, found) ↦ rw (x.kept k e found) refl
]

pub is_none_of : {o : Option (ℕ × ℕ)} → is_some o ≡ false → o ≡ none
is_none_of {o = none} h = refl
is_none_of {o = some e} h = cc

pub Extends-cons :
    (k s i : ℕ) (reach : Reach)
    → is_some (lookup k reach) ≡ false
    → Extends reach ((k, s, i) ∷ reach)
Extends-cons k s i reach fresh = record {
  kept = λ j e found. elim (Bool-cases (k == j)) [
    | inl same ↦ cc (rw (← (==_iff k j).0 same, is_none_of fresh) at found)
    | inr other ↦ rw other found
  ];
}

pub walk-no_fuel : (cur : ℕ) (reach : Reach) → walk zero reach cur ≡ none
unfolding walk
walk-no_fuel cur reach = refl

pub walk-zero : (f : ℕ) (reach : Reach) → walk (suc f) reach 0 ≡ some []
unfolding walk
walk-zero f reach = refl

pub walk-next :
    (f cur s i : ℕ) (reach : Reach) (is : List ℕ)
    → (cur == 0) ≡ false
    → lookup cur reach ≡ some (s, i)
    → walk f reach s ≡ some is
    → walk (suc f) reach cur ≡ some (i ∷ is)
unfolding walk
walk-next f cur s i reach is more found walked = rw (more, found, walked, walk) refl

-- How a walk that returns has gone.
data Walked (f : ℕ) (reach : Reach) (cur : ℕ) (idx : List ℕ) : Type 0 where
  done : cur ≡ 0 → idx ≡ [] → Walked f reach cur idx
  step :
      (s i : ℕ) (is : List ℕ)
      → (cur == 0) ≡ false
      → lookup cur reach ≡ some (s, i)
      → walk f reach s ≡ some is
      → idx ≡ i ∷ is
      → Walked f reach cur idx

walk-Walked :
    (f cur : ℕ) (reach : Reach) (idx : List ℕ)
    → walk (suc f) reach cur ≡ some idx
    → Walked f reach cur idx
unfolding walk
walk-Walked f cur reach idx h = elim (Bool-cases (cur == 0)) [
  | inl zero_left ↦ done ((==_iff cur 0).0 zero_left) (cc (rw (zero_left, walk) at h))
  | inr more ↦ elim (Option-cases (lookup cur reach)) [
    | inl gone ↦ cc (rw (more, gone, walk) at h)
    | inr ((s, i), found) ↦ elim (Option-cases (walk f reach s)) [
      | inl lost ↦ cc (rw (more, found, lost, walk) at h)
      | inr (is, walked) ↦ step s i is more found walked (cc (rw (more, found, walked, walk) at h))
    ]
  ]
]

pub walk_fuel :
    (f g cur : ℕ) (reach : Reach) (idx : List ℕ)
    → f ≤ g
    → walk f reach cur ≡ some idx
    → walk g reach cur ≡ some idx
walk_fuel zero g cur reach idx le h = cc (walk-no_fuel cur reach)
walk_fuel (suc f) zero cur reach idx le h = absurd (omega arith)
walk_fuel (suc f) (suc g) cur reach idx le h = go (walk-Walked f cur reach idx h) (walk_fuel f g)
  where
    go :
        Walked f reach cur idx
        → ((cur : ℕ) (reach : Reach) (idx : List ℕ)
            → f ≤ g
            → walk f reach cur ≡ some idx
            → walk g reach cur ≡ some idx)
        → walk (suc g) reach cur ≡ some idx
    go (done z e) ih = rw (z, e) (walk-zero g reach)
    go (step s i is more found walked e) ih =
        rw e (walk-next g cur s i reach is more found (ih s reach is (omega arith) walked))

pub walk-Extends :
    (f cur : ℕ) (reach later : Reach) (idx : List ℕ)
    → Extends reach later
    → walk f reach cur ≡ some idx
    → walk f later cur ≡ some idx
walk-Extends zero cur reach later idx x h = cc (walk-no_fuel cur reach)
walk-Extends (suc f) cur reach later idx x h = go (walk-Walked f cur reach idx h) (walk-Extends f)
  where
    go :
        Walked f reach cur idx
        → ((cur : ℕ) (reach later : Reach) (idx : List ℕ)
            → Extends reach later
            → walk f reach cur ≡ some idx
            → walk f later cur ≡ some idx)
        → walk (suc f) later cur ≡ some idx
    go (done z e) ih = rw (z, e) (walk-zero f later)
    go (step s i is more found walked e) ih =
        rw e (
          walk-next f cur s i later is more (x.kept cur (s, i) found)
            (ih s reach later is x walked))
