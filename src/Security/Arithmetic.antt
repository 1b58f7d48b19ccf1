-- ===== src/Security/Arithmetic.antt =====
-- `double` as the program uses it, an interface: the operations, and laws that IEEE arithmetic has
-- on numbers other than NaN (rounding is monotone). `billionths` meets it by numbers with nine decimal
-- places.
use grlx_rpc.Prelude.{ℕ, ◌+◌, ◌-◌, ◌*◌, ◌/◌, ◌≡◌, Bool, true, false, arith, leb}

pub record Double : Type 1 where
  pub D : Type 0
  pub zero : D
  pub le : D → D → Bool
  pub add : D → D → D
  pub sub : D → D → D
  pub mul : D → D → D
  -- The length of a number of nanoseconds in seconds.
  pub seconds : ℕ → D
  pub le_refl : (a : D) → le a a ≡ true
  pub le_trans : (a b c : D) → le a b ≡ true → le b c ≡ true → le a c ≡ true
  pub le_total : (a b : D) → le a b ≡ false → le b a ≡ true
  pub sub-le : (a b : D) → le zero b ≡ true → le (sub a b) a ≡ true

pub leb_refl : (a : ℕ) → leb a a ≡ true
leb_refl a = ground arith

pub leb_trans : (a b c : ℕ) → leb a b ≡ true → leb b c ≡ true → leb a c ≡ true
leb_trans a b c h k = ground arith

pub leb_total : (a b : ℕ) → leb a b ≡ false → leb b a ≡ true
leb_total a b h = ground arith

pub sub-leb : (a b : ℕ) → leb 0 b ≡ true → leb (a - b) a ≡ true
sub-leb a b h = ground arith

-- 1.0 in billionths.
abbrev pub one : ℕ
one = 1000000000

-- Fixed-point numbers that are not negative, in billionths: a token may be taken in fractions, a nanosecond is a
-- billionth of a second, and the billionths of a product are rounded down. `sub` is of what is no more than what it
-- is taken from, the only case that the program has; below 0 it gives 0.
abbrev pub billionths : Double
billionths = record {
  D = ℕ;
  zero = 0;
  le = leb;
  add = ◌+◌;
  sub = ◌-◌;
  mul = λ a b. a * b / 1000000000;
  seconds = λ t. t;
  le_refl = leb_refl;
  le_trans = leb_trans;
  le_total = leb_total;
  sub-le = sub-leb;
}
