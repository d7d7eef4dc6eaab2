-- ===== src/Denom/Split.antt =====
-- The greedy split of `denom.rs`: what a successful split is, and when there is one.
use fupi.Common.{
  ℕ, zero, suc, ◌+◌, ◌-◌, ◌≤◌, ◌<◌, ◌≡◌, refl, true, false, inl, inr, Bool, some, List, [], ◌∷◌,
  arith, length, any, keep, push, All, All-append, All-imp, length-append, ltb, leb, ◌==◌, ==_iff,
  subst, ltb→lt, ltb→le, leb→le, leb→lt, Bool-cases, Option-cases,
}
use fupi.Common.Sums.{sum, sum-append}
use fupi.Common.Sorting.{insert_by, sort_by, All-sort_by}
use fupi.Denom.{
  max_split_proofs, cons_unless_head, dedup, take_coins, take_denominations, by_size, split_amount,
}

-- A split in progress: `rest` is left, `out` is taken, of `amount` in all.
record Splits {ℓ} (P : ℕ → Type ℓ) (amount rest : ℕ) (out : List ℕ) : Type ℓ where
  total : sum out + rest ≡ amount
  parts : All P out
  count : length out ≤ max_split_proofs

module _ {ℓ} (P : ℕ → Type ℓ) where
  take_coins-Splits :
      (fuel d rest amount : ℕ) (out : List ℕ) (r : ℕ) (o : List ℕ)
      → P d
      → Splits P amount rest out
      → take_coins fuel d rest out ≡ some (r, o)
      → Splits P amount r o
  unfolding take_coins
  take_coins-Splits zero d rest amount out r o p s h = cc
  take_coins-Splits (suc fuel) d rest amount out r o p s h = elim (Bool-cases (leb d rest)) [
    | inl fits ↦ elim (Bool-cases (ltb max_split_proofs (length (push out d)))) [
      | inl many ↦ cc (rw (fits, many) at h)
      | inr room ↦
          take_coins-Splits fuel d (rest - d) amount (push out d) r o p
            (record {
              total = omega (arith, s.total, sum-append out (d ∷ []), leb→le d rest fits);
              parts = All-append P out (d ∷ []) s.parts (p, tt);
              count = ltb→le _ _ room;
            })
            (rw (fits, room) at h)
    ]
    | inr done ↦ ground arith
  ]

  take_denominations-Splits :
      (ds : List ℕ) (rest amount : ℕ) (out : List ℕ) (r : ℕ) (o : List ℕ)
      → All P ds
      → Splits P amount rest out
      → take_denominations ds rest out ≡ some (r, o)
      → Splits P amount r o
  unfolding take_denominations
  take_denominations-Splits [] rest amount out r o p s h = ground arith
  take_denominations-Splits (d ∷ ds) rest amount out r o p s h =
      elim (Option-cases (take_coins (suc rest) d rest out)) [
        | inl many ↦ cc (rw (many, take_denominations) at h)
        | inr ((r', o'), taken) ↦
            take_denominations-Splits ds r' amount o' r o p.1
              (take_coins-Splits (suc rest) d rest amount out r' o' p.0 s taken)
              (rw (taken, take_denominations) at h)
      ]

  All-keep : (p : ℕ → Bool) (xs : List ℕ) → All P xs → All P (keep p xs)
  All-keep p [] h = tt
  All-keep p (x ∷ xs) h = ground (arith, All-keep p xs h.1)

  All-cons_unless_head : (x : ℕ) (ys : List ℕ) → P x → All P ys → All P (cons_unless_head x ys)
  unfolding cons_unless_head
  All-cons_unless_head x [] p h = (p, tt)
  All-cons_unless_head x (y ∷ ys) p h = ground arith

  All-dedup : (xs : List ℕ) → All P xs → All P (dedup xs)
  unfolding dedup
  All-dedup [] h = tt
  All-dedup (x ∷ xs) h = All-cons_unless_head x (dedup xs) h.0 (All-dedup xs h.1)

  All-by_size : (xs : List ℕ) → All P xs → All P (by_size xs)
  unfolding by_size
  All-by_size xs h = All-dedup _ (All-sort_by (λ a b. ltb a b) P _ (All-keep (λ d. ltb 0 d) xs h))

-- What the parts of a split are: positive, and among the available denominations.
abbrev pub IsOffered : List ℕ → ℕ → Type 0
IsOffered available d = (0 < d) × (any (λ x. x == d) available ≡ true)

any-later :
    (d x : ℕ) (xs : List ℕ) → any (λ y. y == d) xs ≡ true → any (λ y. y == d) (x ∷ xs) ≡ true
any-later d x xs h = ground arith

keep_pos-IsOffered : (xs : List ℕ) → All (IsOffered xs) (keep (λ d. ltb 0 d) xs)
keep_pos-IsOffered [] = tt
keep_pos-IsOffered (x ∷ xs) =
    let rest : All (IsOffered (x ∷ xs)) (keep (λ d. ltb 0 d) xs) =
      All-imp (IsOffered xs) (IsOffered (x ∷ xs)) _ (λ d o. (o.0, any-later d x xs o.1))
        (keep_pos-IsOffered xs) in
    elim (Bool-cases (ltb 0 x)) [
      | inl e ↦ rw e ((ltb→lt 0 x e, ground arith), rest)
      | inr e ↦ rw e rest
    ]

by_size-IsOffered : (available : List ℕ) → All (IsOffered available) (by_size available)
unfolding by_size
by_size-IsOffered xs =
    All-dedup (IsOffered xs) _
      (All-sort_by (λ a b. ltb a b) (IsOffered xs) _ (keep_pos-IsOffered xs))

-- A successful split adds up to the amount, uses only offered denominations, and has at most a
-- thousand parts.
pub split_amount_sound :
    (amount : ℕ) (available : List ℕ) (out : List ℕ)
    → split_amount amount available ≡ some out
    → (sum out ≡ amount) × (length out ≤ max_split_proofs) × All (IsOffered available) out
unfolding split_amount
split_amount_sound amount available out h =
    elim (Option-cases (take_denominations (by_size available) amount [])) [
      | inl many ↦ cc (rw (many, split_amount) at h)
      | inr ((r, o), taken) ↦ elim (Bool-cases (r == 0)) [
        | inl exact ↦
            let e : o ≡ out = cc (rw (taken, split_amount, exact) at h) in
            let s : Splits (IsOffered available) amount r o =
              take_denominations-Splits (IsOffered available) (by_size available) amount amount [] r
                o (by_size-IsOffered available)
                (record { total = omega arith; parts = tt; count = omega arith }) taken in
            let total : sum o ≡ amount = omega (arith, s.total, (==_iff r 0).0 exact) in
            subst
              (λ l. (sum l ≡ amount) × (length l ≤ max_split_proofs) × All (IsOffered available) l)
              e (total, s.count, s.parts)
        | inr inexact ↦ cc (rw (taken, split_amount, inexact) at h)
      ]
    ]

-- With fuel above what is left and room for as many coins, the inner loop ends by its own test.
take_coins_total :
    (fuel d rest : ℕ) (out : List ℕ)
    → 0 < d
    → rest < fuel
    → length out + rest ≤ max_split_proofs
    → (r : ℕ) × (o : List ℕ) × (take_coins fuel d rest out ≡ some (r, o))
      × (r < d)
      × (r ≤ rest)
      × (length o + r ≤ max_split_proofs)
unfolding take_coins
take_coins_total zero d rest out p f room = elim f [ ]
take_coins_total (suc fuel) d rest out p f room = elim (Bool-cases (leb d rest)) [
  | inl fits ↦
      let (r, o, e, small, less, fit) =
        take_coins_total fuel d (rest - d) (push out d) p (omega (arith, leb→le d rest fits))
          (omega (arith, leb→le d rest fits, length-append out (d ∷ []))) in
      let few : ltb max_split_proofs (length (push out d)) ≡ false =
        ground (arith, leb→le d rest fits, length-append out (d ∷ [])) in
      (r, o, rw (fits, few) e, small, omega arith, fit)
  | inr done ↦ (rest, out, rw done refl, leb→lt d rest done, omega arith, room)
]

take_denominations_total :
    (ds : List ℕ) (rest : ℕ) (out : List ℕ)
    → All (λ d. 0 < d) ds
    → length out + rest ≤ max_split_proofs
    → (r : ℕ) × (o : List ℕ) × (take_denominations ds rest out ≡ some (r, o))
      × (r ≤ rest)
      × (any (λ x. x == 1) ds ≡ true → r ≡ 0)
unfolding take_denominations
take_denominations_total [] rest out p room = (rest, out, refl, omega arith, λ h. cc)
take_denominations_total (d ∷ ds) rest out p room =
    let (r', o', e', small, less', fit') =
      take_coins_total (suc rest) d rest out p.0 (omega arith) room in
    let (r, o, e, less, ones) = take_denominations_total ds r' o' p.1 fit' in
    (r, o, rw (e', take_denominations) e, omega arith, λ h. ground (arith, ones))

has : ℕ → List ℕ → Bool
has d = any (λ x. x == d)

module _ (d : ℕ) where
  has-keep_pos : (xs : List ℕ) → 0 < d → has d xs ≡ true → has d (keep (λ x. ltb 0 x) xs) ≡ true
  unfolding has
  has-keep_pos [] p h = h
  has-keep_pos (x ∷ xs) p h = ground (arith, has-keep_pos xs p)

  has-insert_by :
      (after : ℕ → ℕ → Bool) (x : ℕ) (xs : List ℕ)
      → has d (x ∷ xs) ≡ true
      → has d (insert_by after x xs) ≡ true
  unfolding has insert_by
  has-insert_by after x [] h = h
  has-insert_by after x (y ∷ ys) h = ground (arith, has-insert_by after x ys)

  has-sort_by :
      (after : ℕ → ℕ → Bool) (xs : List ℕ) → has d xs ≡ true → has d (sort_by after xs) ≡ true
  unfolding has sort_by
  has-sort_by after [] h = h
  has-sort_by after (x ∷ xs) h =
      has-insert_by after x (sort_by after xs) (ground (arith, has-sort_by after xs))

  has-cons_unless_head :
      (x : ℕ) (ys : List ℕ) → has d (x ∷ ys) ≡ true → has d (cons_unless_head x ys) ≡ true
  unfolding has cons_unless_head
  has-cons_unless_head x [] h = h
  has-cons_unless_head x (y ∷ ys) h = ground arith

  has-dedup : (xs : List ℕ) → has d xs ≡ true → has d (dedup xs) ≡ true
  unfolding has dedup
  has-dedup [] h = h
  has-dedup (x ∷ xs) h = has-cons_unless_head x (dedup xs) (ground (arith, has-dedup xs))

has-by_size : (available : List ℕ) → has 1 available ≡ true → has 1 (by_size available) ≡ true
unfolding by_size
has-by_size available one =
    has-dedup 1 _ (has-sort_by 1 (λ a b. ltb a b) _ (has-keep_pos 1 available (omega arith) one))

-- When a coin of 1 is offered, every amount of up to a thousand can be split.
pub split_amount_total :
    (amount : ℕ) (available : List ℕ)
    → any (λ x. x == 1) available ≡ true
    → amount ≤ max_split_proofs
    → (out : List ℕ) × (split_amount amount available ≡ some out)
unfolding split_amount has
split_amount_total amount available one few =
    let (r, o, e, less, ones) =
      take_denominations_total (by_size available) amount []
        (All-imp (IsOffered available) (λ d. 0 < d) _ (λ d p. p.0) (by_size-IsOffered available))
        (omega arith) in
    let exact : r ≡ 0 = ones (has-by_size available one) in (o, rw (e, split_amount) (ground arith))
