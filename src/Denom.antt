-- ===== src/Denom.antt =====
-- vault-rust/src/denom.rs: denominations, the greedy split of an amount, and the search for a subset
-- of coins that adds up exactly.
mod Tests
pub mod Ids
pub mod Split
pub mod Reach
pub mod Backed
pub mod Fill
pub mod Subset
use text.Mathlib.Text.{starts_with}
use fupi.Common.{
  ℕ, zero, suc, ◌+◌, ◌-◌, ◌^◌, String, ◌<>◌, true, false, ◌||◌, Option, none, some, List, [], ◌∷◌,
  map, length, any, drop, push, keep, ltb, leb, ◌==◌, str_eq, if◌then◌else◌, unwrap_or, is_some,
}
use fupi.Common.Sorting.{sort_by}
use fupi.Common.Text.{codes, show, parse_u64}
use fupi.Types.{Proof}

abbrev pub denominations : List ℕ
denominations = 500 ∷ 200 ∷ 100 ∷ 50 ∷ 20 ∷ 10 ∷ 5 ∷ 2 ∷ 1 ∷ []

abbrev pub legacy_keyset_id : String
legacy_keyset_id = "go-mvp-00"

abbrev pub max_exact_target : ℕ
max_exact_target = 100_000

abbrev pub max_split_proofs : ℕ
max_split_proofs = 1000

unfoldable pub keyset_id_for : ℕ → String
unfolding show
keyset_id_for amount = if amount == 1 then legacy_keyset_id else "go-mvp-d" <> show amount

-- `strip_prefix("go-mvp-d")` drops the eight bytes of the prefix.
unfoldable pub denomination_of : String → Option ℕ
unfolding parse_u64
denomination_of keyset_id =
    if str_eq keyset_id legacy_keyset_id
    then some 1
    else if starts_with keyset_id "go-mvp-d"
    then (elim (parse_u64 (drop 8 (codes keyset_id))) [
      | none ↦ none
      | some n ↦ if any (λ d. d == n) denominations then some n else none
    ])
    else none

unfoldable pub proof_value : Proof → ℕ
unfolding denomination_of
proof_value p = unwrap_or (elim p.keyset_id [ none ↦ none | some kid ↦ denomination_of kid ]) 1

unfoldable pub cons_unless_head : ℕ → List ℕ → List ℕ
cons_unless_head x [] = x ∷ []
cons_unless_head x (y ∷ ys) = if x == y then y ∷ ys else x ∷ y ∷ ys

-- `Vec::dedup`: of equal neighbours one is left.
unfoldable pub dedup : List ℕ → List ℕ
unfolding cons_unless_head
dedup [] = []
dedup (x ∷ xs) = cons_unless_head x (dedup xs)

-- `while rest >= d { … }`: the coins of one denomination, with what is left and the coins so far.
-- `none` is the early return when there are too many.
unfoldable pub take_coins : ℕ → ℕ → ℕ → List ℕ → Option (ℕ × List ℕ)
take_coins zero d rest out = none
take_coins (suc fuel) d rest out =
    let more = take_coins fuel d (rest - d) (push out d) in
    if leb d rest
    then (if ltb max_split_proofs (length (push out d)) then none else more)
    else some (rest, out)

-- `for d in avail`
unfoldable pub take_denominations : List ℕ → ℕ → List ℕ → Option (ℕ × List ℕ)
unfolding take_coins
take_denominations [] rest out = some (rest, out)
take_denominations (d ∷ ds) rest out = elim (take_coins (suc rest) d rest out) [
  | none ↦ none
  | some (rest', out') ↦ take_denominations ds rest' out'
]

-- The denominations in the order in which they are tried.
unfoldable pub by_size : List ℕ → List ℕ
unfolding dedup sort_by
by_size available = dedup (sort_by (λ a b. ltb a b) (keep (λ d. ltb 0 d) available))

unfoldable pub split_amount : ℕ → List ℕ → Option (List ℕ)
unfolding by_size take_denominations
split_amount amount available = elim (take_denominations (by_size available) amount []) [
  | none ↦ none
  | some (rest, out) ↦ if rest == 0 then some out else none
]

-- `reach`: each reached sum, with the sum before it and the index of the value added to get there.
-- The map is an association list; no key is inserted twice.
abbrev pub Reach : Type 0
Reach = List (ℕ × ℕ × ℕ)

abbrev pub lookup : ℕ → Reach → Option (ℕ × ℕ)
lookup k [] = none
lookup k ((j, s, i) ∷ m) = if j == k then some (s, i) else lookup k m

abbrev pub usize_max : ℕ
usize_max = 2 ^ 64 - 1

abbrev pub start : Reach
start = (0, 0, usize_max) ∷ []

-- `let ns = s + v; if ns <= target && !reach.contains_key(&ns) { reach.insert(ns, (s, i)); }`
unfoldable pub add_sum : ℕ → ℕ → ℕ → ℕ → Reach → Reach
add_sum target i v s reach =
    if ltb target (s + v)
    then reach
    else if is_some (lookup (s + v) reach)
    then reach
    else (s + v, s, i) ∷ reach

-- `for s in sums { … }`: each sum of the snapshot, extended by the value `v` at index `i`.
unfoldable pub add_value : ℕ → ℕ → ℕ → List ℕ → Reach → Reach
unfolding add_sum
add_value target i v [] reach = reach
add_value target i v (s ∷ sums) reach = add_value target i v sums (add_sum target i v s reach)

-- `for (i, &v) in values.iter().enumerate()`, with its `continue` and its `break`.
unfoldable pub fill : ℕ → ℕ → List ℕ → Reach → Reach
unfolding add_value
fill target i [] reach = reach
fill target i (v ∷ vs) reach =
    let skipped = fill target (suc i) vs reach in
    let added = add_value target i v (map (λ e. e.0) reach) reach in
    let searched = fill target (suc i) vs added in
    if v == 0 || ltb target v
    then skipped
    else if is_some (lookup target added)
    then added
    else searched

-- `while cur != 0`, back to the empty sum. `none` would be the panic of `reach[&cur]`, or no fuel.
unfoldable pub walk : ℕ → Reach → ℕ → Option (List ℕ)
walk zero reach cur = none
walk (suc fuel) reach cur = elim (cur == 0) [
  | true ↦ some []
  | false ↦ elim (lookup cur reach) [
    | none ↦ none
    | some (prev, i) ↦ elim (walk fuel reach prev) [ none ↦ none | some idx ↦ some (i ∷ idx) ]
  ]
]

unfoldable pub exact_subset : List ℕ → ℕ → Option (List ℕ)
unfolding fill walk
exact_subset values target =
    let reach = fill target 0 values start in
    let found = walk (suc target) reach target in
    if target == 0
    then some []
    else if ltb max_exact_target target
    then none
    else if is_some (lookup target reach)
    then found
    else none
