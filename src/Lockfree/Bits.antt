-- ===== src/Lockfree/Bits.antt =====
-- `|` and `&` of words as arithmetic: fields above and below a bit are joined separately.
use Prim.Native.Nat.{bit_and, bit_or, digits, max, bit_and-bitwise, bit_or-bitwise}
use native.Mathlib.Nat.{pow-suc, one-le-pow}
use magic_core.Prelude.{
  ℕ, zero, suc, ◌+◌, ◌-◌, ◌*◌, ◌/◌, ◌%◌, ◌^◌, ◌≤◌, ◌<◌, ◌≡◌, refl, sym, ap, ◌∙◌, min, arith,
}

-- What `&` and `|` compute, with fuel: `rest` serves where the first word has run out.
module _ (rest : ℕ → ℕ) (join : ℕ → ℕ → ℕ) where
  abbrev layers : ℕ → ℕ → ℕ → ℕ
  layers fuel a b = digits rest join fuel a b

  -- More fuel than digits changes nothing.
  layers_fuel : (f g x y : ℕ) → x ≤ f → x ≤ g → layers f x y ≡ layers g x y
  layers_fuel zero g (suc x) y u v = elim u [ ]
  layers_fuel (suc f) zero (suc x) y u v = elim v [ ]
  layers_fuel (suc f) (suc g) (suc x) y u v =
      let next = layers_fuel f g (suc x / 2) (y / 2) (omega arith) (omega arith) in
      ap (λ (t : ℕ). t * 2 + join (suc x % 2) (y % 2)) next
  layers_fuel zero zero zero y u v = refl
  layers_fuel zero (suc g) zero y u v = refl
  layers_fuel (suc f) zero zero y u v = refl
  layers_fuel (suc f) (suc g) zero y u v = refl

pub zero-bit_or : (b : ℕ) → bit_or 0 b ≡ b
zero-bit_or b = bit_or-bitwise 0 b

pub zero-bit_and : (b : ℕ) → bit_and 0 b ≡ 0
zero-bit_and b = bit_and-bitwise 0 b

-- An operation with such layers splits off the lowest bit.
module _ (rest : ℕ → ℕ) (join op : ℕ → ℕ → ℕ) (law : (a b : ℕ) → op a b ≡ layers rest join a a b)
    (rest_law : (b : ℕ) → rest b ≡ rest (b / 2) * 2 + join 0 (b % 2)) where
  lowest : (a b : ℕ) → op a b ≡ op (a / 2) (b / 2) * 2 + join (a % 2) (b % 2)
  lowest zero b = omega (arith, law 0 b, law 0 (b / 2), rest_law b)
  lowest (suc a) b =
      let half = suc a / 2 in
      let low = layers_fuel rest join a half half (b / 2) (omega arith) (omega arith) in
      law (suc a) b
      ∙ ap (λ (t : ℕ). t * 2 + join (suc a % 2) (b % 2)) (low ∙ sym (law half (b / 2)))

pub bit_or_step : (a b : ℕ) → bit_or a b ≡ bit_or (a / 2) (b / 2) * 2 + max (a % 2) (b % 2)
bit_or_step = lowest (λ b. b) max bit_or bit_or-bitwise (λ b. omega arith)

pub bit_and_step : (a b : ℕ) → bit_and a b ≡ bit_and (a / 2) (b / 2) * 2 + min (a % 2) (b % 2)
bit_and_step = lowest (λ b. 0) min bit_and bit_and-bitwise (λ b. omega arith)

double : (q k : ℕ) → q * 2 ^ suc k ≡ 2 * (q * 2 ^ k)
double q k = omega (arith, ap (λ (t : ℕ). q * t) (pow-suc 2 k))

below_one : (h l : ℕ) → l < 2 ^ 0 → (h * 2 ^ 0 + l ≡ h) × (l ≡ 0)
below_one h l p = omega arith

half_ones : (k : ℕ) → (2 ^ suc k - 1) / 2 ≡ 2 ^ k - 1
half_ones k = omega (arith, pow-suc 2 k, one-le-pow k 2)

-- A word is a high field above bit k and a low field below it.
pub bit_or_split :
    (k h l i m : ℕ)
    → l < 2 ^ k
    → m < 2 ^ k
    → bit_or (h * 2 ^ k + l) (i * 2 ^ k + m) ≡ bit_or h i * 2 ^ k + bit_or l m
bit_or_split zero h l i m p q = ground (arith, zero-bit_or m, below_one h l p, below_one i m q)
bit_or_split (suc k) h l i m p q = ground (
  arith,
  bit_or_step (h * 2 ^ suc k + l) (i * 2 ^ suc k + m),
  bit_or_step l m,
  double h k,
  double i k,
  double (bit_or h i) k,
  pow-suc 2 k,
  bit_or_split k h (l / 2) i (m / 2) (omega (arith, pow-suc 2 k)) (omega (arith, pow-suc 2 k)),
)

pub bit_and_split :
    (k h l i m : ℕ)
    → l < 2 ^ k
    → m < 2 ^ k
    → bit_and (h * 2 ^ k + l) (i * 2 ^ k + m) ≡ bit_and h i * 2 ^ k + bit_and l m
bit_and_split zero h l i m p q = ground (arith, zero-bit_and m, below_one h l p, below_one i m q)
bit_and_split (suc k) h l i m p q = ground (
  arith,
  bit_and_step (h * 2 ^ suc k + l) (i * 2 ^ suc k + m),
  bit_and_step l m,
  double h k,
  double i k,
  double (bit_and h i) k,
  pow-suc 2 k,
  bit_and_split k h (l / 2) i (m / 2) (omega (arith, pow-suc 2 k)) (omega (arith, pow-suc 2 k)),
)

pub bit_or-zero_below : (k a : ℕ) → a < 2 ^ k → bit_or a 0 ≡ a
bit_or-zero_below zero a h = let none_left : a ≡ 0 = omega arith in rw none_left refl
bit_or-zero_below (suc k) a h =
    omega (
      arith,
      pow-suc 2 k,
      bit_or_step a 0,
      bit_or-zero_below k (a / 2) (omega (arith, pow-suc 2 k)),
    )

pub bit_and-zero_below : (k a : ℕ) → a < 2 ^ k → bit_and a 0 ≡ 0
bit_and-zero_below zero a h = let none_left : a ≡ 0 = omega arith in rw none_left refl
bit_and-zero_below (suc k) a h = omega (
  arith,
  pow-suc 2 k,
  bit_and_step a 0,
  bit_and-zero_below k (a / 2) (omega (arith, pow-suc 2 k)),
)

-- All ones absorb under `|` and select under `&`.
pub bit_or_ones : (k a : ℕ) → a < 2 ^ k → bit_or a (2 ^ k - 1) ≡ 2 ^ k - 1
bit_or_ones zero a h = let none_left : a ≡ 0 = omega arith in rw none_left refl
bit_or_ones (suc k) a h = omega (
  arith,
  pow-suc 2 k,
  one-le-pow k 2,
  bit_or_step a (2 ^ suc k - 1),
  ap (bit_or (a / 2)) (half_ones k),
  bit_or_ones k (a / 2) (omega (arith, pow-suc 2 k)),
)

pub bit_and_ones : (k a : ℕ) → a < 2 ^ k → bit_and a (2 ^ k - 1) ≡ a
bit_and_ones zero a h = let none_left : a ≡ 0 = omega arith in rw none_left refl
bit_and_ones (suc k) a h = omega (
  arith,
  pow-suc 2 k,
  one-le-pow k 2,
  bit_and_step a (2 ^ suc k - 1),
  ap (bit_and (a / 2)) (half_ones k),
  bit_and_ones k (a / 2) (omega (arith, pow-suc 2 k)),
)
