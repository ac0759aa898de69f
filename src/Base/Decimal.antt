-- ===== src/Base/Decimal.antt =====
-- `std::to_string` and `<<` of an unsigned number: its decimal digits.
use Prim.Native.Nat.{ℕ, zero, suc, ◌+◌, ◌-◌, ◌*◌, ◌/◌, ◌%◌, ◌<◌, ◌≤◌}
use mathlib.Core.Path.{◌≡◌, refl, ap, sym, ◌∙◌, subst}
use mathlib.Core.Logic.{◌≢◌}
use mathlib.Core.List.{[], ◌∷◌, ◌++◌}
use native.Mathlib.Omega.{arith}
use peerpaste.Base.Tests.{ltb, if◌then◌else◌}
use peerpaste.Base.Text.{Bytes}

-- The fuel bounds the number of digits; `n + 1` is more than there are.
digits_of : ℕ → ℕ → Bytes
digits_of zero n = []
digits_of (suc fuel) n =
    let front = digits_of fuel (n / 10) in
    if ltb n 10 then (48 + n) ∷ [] else front ++ (48 + n % 10) ∷ []

unfoldable pub to_string : ℕ → Bytes
unfolding digits_of
to_string n = digits_of (suc n) n

-- The number that digits stand for, read from the left.
value_from : ℕ → Bytes → ℕ
value_from acc [] = acc
value_from acc (d ∷ ds) = value_from (10 * acc + (d - 48)) ds

value_from-append :
    (acc : ℕ) (ds : Bytes) (d : ℕ)
    → value_from acc (ds ++ d ∷ []) ≡ 10 * value_from acc ds + (d - 48)
unfolding value_from
value_from-append acc [] d = refl
value_from-append acc (e ∷ ds) d = value_from-append (10 * acc + (e - 48)) ds d

value_from-one : (n : ℕ) → value_from 0 ((48 + n) ∷ []) ≡ n
unfolding value_from
value_from-one n = omega arith

value_from-digits_of : (fuel n : ℕ) → n < fuel → value_from 0 (digits_of fuel n) ≡ n
unfolding digits_of
value_from-digits_of zero n h = elim h [ ]
value_from-digits_of (suc fuel) n h = ground (
  arith,
  value_from-one n,
  value_from-append 0 (digits_of fuel (n / 10)) (48 + n % 10),
  value_from-digits_of fuel (n / 10),
)

-- Different numbers are printed differently.
pub to_string-injective : (m n : ℕ) → to_string m ≡ to_string n → m ≡ n
unfolding to_string
to_string-injective m n e =
    sym (value_from-digits_of (suc m) m (omega arith))
    ∙ ap (value_from 0) e
    ∙ value_from-digits_of (suc n) n (omega arith)

-- The first byte, or the digit 0.
front_byte : Bytes → ℕ
front_byte [] = 48
front_byte (b ∷ bs) = b

front_byte-append :
    (bs cs : Bytes) → 48 ≤ front_byte bs → 48 ≤ front_byte cs → 48 ≤ front_byte (bs ++ cs)
unfolding front_byte
front_byte-append [] cs h k = k
front_byte-append (b ∷ bs) cs h k = h

front_byte-one : (n : ℕ) → 48 ≤ front_byte ((48 + n) ∷ [])
unfolding front_byte
front_byte-one n = omega arith

front_byte-digits_of : (fuel n : ℕ) → 48 ≤ front_byte (digits_of fuel n)
unfolding digits_of front_byte
front_byte-digits_of zero n = front_byte-append [] [] (omega arith) (omega arith)
front_byte-digits_of (suc fuel) n = ground (
  arith,
  front_byte-one n,
  front_byte-append (digits_of fuel (n / 10)) ((48 + n % 10) ∷ [])
      (front_byte-digits_of fuel (n / 10)) (front_byte-one (n % 10)),
)

-- A number without sign is not printed with one.
pub to_string-unsigned : (n : ℕ) (bs : Bytes) → 45 ∷ bs ≢ to_string n
unfolding to_string front_byte
to_string-unsigned n bs e =
    let h : 48 ≤ front_byte (45 ∷ bs) =
      subst (λ ds. 48 ≤ front_byte ds) (sym e) (front_byte-digits_of (suc n) n) in
    omega (arith, h)
