-- ===== src/Common/Modular.antt =====
-- Congruence modulo `n`, under products and powers.
use native.Mathlib.Nat.{mod-add-div, mod-mod, pow-suc, pow-zero, mul_comm, add-mul-mod_self_left}
use Prim.Native.Nat.{ℕ, zero, suc, ◌+◌, ◌*◌, ◌/◌, ◌%◌, ◌^◌}
use mathlib.Core.Path.{◌≡◌, refl, sym, ap, ◌∙◌}
use native.Mathlib.Omega.{arith}

-- `a` and `b` leave the same remainder.
abbrev pub Congruent : ℕ → ℕ → ℕ → Type 0
Congruent n a b = a % n ≡ b % n

mod-mul : (a b n : ℕ) → (a % n * b) % n ≡ (a * b) % n
mod-mul a b n =
    let e = ap (λ (t : ℕ). t * b) (mod-add-div a n) in
    let split : a * b ≡ a % n * b + n * (a / n * b) = omega arith in
    sym (ap (λ (t : ℕ). t % n) split ∙ add-mul-mod_self_left (a % n * b) n (a / n * b))

pub Congruent-mod : (n a : ℕ) → Congruent n (a % n) a
Congruent-mod n a = mod-mod a n

Congruent-mul_right : (n a b c : ℕ) → Congruent n a b → Congruent n (a * c) (b * c)
Congruent-mul_right n a b c h = sym (mod-mul a c n) ∙ ap (λ (t : ℕ). (t * c) % n) h ∙ mod-mul b c n

pub Congruent-mul :
    (n a b c d : ℕ) → Congruent n a b → Congruent n c d → Congruent n (a * c) (b * d)
Congruent-mul n a b c d h k =
    Congruent-mul_right n a b c h
    ∙ ap (λ (t : ℕ). t % n) (mul_comm b c)
    ∙ Congruent-mul_right n c d b k
    ∙ ap (λ (t : ℕ). t % n) (mul_comm d b)

pub Congruent-pow : (n a b e : ℕ) → Congruent n a b → Congruent n (a ^ e) (b ^ e)
Congruent-pow n a b zero h = rw (pow-zero, pow-zero) refl
Congruent-pow n a b (suc e) h =
    rw (pow-suc a e, pow-suc b e) (Congruent-mul n (a ^ e) (b ^ e) a b (Congruent-pow n a b e h) h)

pub mul-pow : (a b e : ℕ) → (a * b) ^ e ≡ a ^ e * b ^ e
mul-pow a b zero = rw (pow-zero, pow-zero, pow-zero) refl
mul-pow a b (suc e) = rw (pow-suc (a * b) e, pow-suc a e, pow-suc b e, mul-pow a b e) (omega arith)

pub one-pow : (e : ℕ) → 1 ^ e ≡ 1
one-pow zero = refl
one-pow (suc e) = rw (pow-suc 1 e, one-pow e) refl

-- A product with a number and its inverse, both to the power `e`, changes nothing.
pub Congruent-inverse :
    (n x r s e : ℕ) → Congruent n (r * s) 1 → Congruent n (x * (r ^ e * s ^ e)) x
Congruent-inverse n x r s e h =
    let power : Congruent n (r ^ e * s ^ e) 1 =
      rw (← mul-pow r s e) (Congruent-pow n (r * s) 1 e h ∙ ap (λ (t : ℕ). t % n) (one-pow e)) in
    Congruent-mul n x x (r ^ e * s ^ e) 1 refl power ∙ ap (λ (t : ℕ). t % n) (omega arith)
