-- ===== src/Prelude/Decimal.antt =====
-- `strconv.Atoi`, and that it reads what `%d` writes.
use Prim.Native.Nat.{◌≤◌, ℕ, zero, suc, ◌+◌, ◌-◌, ◌*◌, ◌/◌, ◌%◌, ◌<◌}
use Prim.Native.Char.{Char, code}
use Prim.Native.String.{String}
use mathlib.Core.Path.{◌≡◌, refl, ap, ◌∙◌}
use mathlib.Core.Bool.{Bool, true, false, ◌&&◌}
use mathlib.Core.Option.{Option, none, some}
use mathlib.Core.Logic.{inl, inr}
use native.Mathlib.Omega.{arith}
use gslb.Prelude.Tests.{◌==◌, leb, if◌then◌else◌, Bool-cases}
use gslb.Prelude.Int.{ℤ, pos, negsuc, max_int}
use gslb.Prelude.Text.{digit, decimal_from, decimal}

abbrev is_digit : Char → Bool
is_digit c = leb 48 (code c) && leb (code c) 57

unfoldable pub digits_from : ℕ → String → Option ℕ
digits_from n String.[] = some n
digits_from n (String.◌∷◌ c s) =
    let rest = digits_from (10 * n + (code c - 48)) s in if is_digit c then rest else none

starts_with_digit : String → Bool
starts_with_digit String.[] = false
starts_with_digit (String.◌∷◌ c s) = is_digit c

-- A property of the digits is one of each.
below_ten {ℓ} :
    (P : ℕ → Type ℓ) (d : ℕ)
    → P 0
    → P 1
    → P 2
    → P 3
    → P 4
    → P 5
    → P 6
    → P 7
    → P 8
    → P 9
    → d < 10
    → P d
below_ten P zero p0 p1 p2 p3 p4 p5 p6 p7 p8 p9 h = p0
below_ten P (suc zero) p0 p1 p2 p3 p4 p5 p6 p7 p8 p9 h = p1
below_ten P (suc (suc zero)) p0 p1 p2 p3 p4 p5 p6 p7 p8 p9 h = p2
below_ten P (suc (suc (suc zero))) p0 p1 p2 p3 p4 p5 p6 p7 p8 p9 h = p3
below_ten P (suc (suc (suc (suc zero)))) p0 p1 p2 p3 p4 p5 p6 p7 p8 p9 h = p4
below_ten P (suc (suc (suc (suc (suc zero))))) p0 p1 p2 p3 p4 p5 p6 p7 p8 p9 h = p5
below_ten P (suc (suc (suc (suc (suc (suc zero)))))) p0 p1 p2 p3 p4 p5 p6 p7 p8 p9 h = p6
below_ten P (suc (suc (suc (suc (suc (suc (suc zero))))))) p0 p1 p2 p3 p4 p5 p6 p7 p8 p9 h = p7
below_ten P (suc (suc (suc (suc (suc (suc (suc (suc zero)))))))) p0 p1 p2 p3 p4 p5 p6 p7 p8 p9 h =
    p8
below_ten P (suc (suc (suc (suc (suc (suc (suc (suc (suc zero))))))))) p0 p1 p2 p3 p4 p5 p6 p7 p8 p9
      h =
    p9
below_ten P (suc (suc (suc (suc (suc (suc (suc (suc (suc (suc n)))))))))) p0 p1 p2 p3 p4 p5 p6 p7 p8
      p9 h =
    elim (impossible n h) [ ]
  where
    impossible : (m : ℕ) → suc (suc (suc (suc (suc (suc (suc (suc (suc (suc m))))))))) < 10 → ⊥
    impossible m e = omega (arith, e)

digit-starts : (s : String) (d : ℕ) → d < 10 → starts_with_digit (String.◌∷◌ (digit d) s) ≡ true
unfolding starts_with_digit
digit-starts s d =
    below_ten (λ d. starts_with_digit (String.◌∷◌ (digit d) s) ≡ true) d refl refl refl refl refl
      refl refl refl refl refl

digits_from-digit :
    (n : ℕ) (s : String) (d : ℕ)
    → d < 10
    → digits_from n (String.◌∷◌ (digit d) s) ≡ digits_from (10 * n + d) s
unfolding digits_from
digits_from-digit n s d =
    below_ten (λ d. digits_from n (String.◌∷◌ (digit d) s) ≡ digits_from (10 * n + d) s) d
      (ap (λ k. digits_from k s) (omega arith)) refl refl refl refl refl refl refl refl refl

pow_ten : ℕ → ℕ
pow_ten zero = 1
pow_ten (suc f) = 10 * pow_ten f

decimal_from-starts :
    (f n : ℕ) (acc : String) → starts_with_digit (decimal_from (suc f) n acc) ≡ true
unfolding decimal_from
decimal_from-starts zero n acc = ground (arith, digit-starts acc (n % 10) (omega arith))
decimal_from-starts (suc f) n acc = elim (Bool-cases (n / 10 == 0)) [
  | inl last ↦ rw last (digit-starts acc (n % 10) (omega arith))
  | inr more ↦ rw more (decimal_from-starts f (n / 10) (String.◌∷◌ (digit (n % 10)) acc))
]

digits_from-decimal_from :
    (f n : ℕ) (acc : String)
    → n < pow_ten f
    → digits_from 0 (decimal_from f n acc) ≡ digits_from n acc
unfolding decimal_from pow_ten
digits_from-decimal_from zero n acc h = ap (λ k. digits_from k acc) (omega (arith, h))
digits_from-decimal_from (suc f) n acc h =
    let last_digit : (k : ℕ)
        → k ≡ n / 10
        → digits_from k (String.◌∷◌ (digit (n % 10)) acc) ≡ digits_from n acc =
      λ k e.
        digits_from-digit k acc (n % 10) (omega arith)
        ∙ ap (λ m. digits_from m acc) (omega (arith, e)) in
    elim (Bool-cases (n / 10 == 0)) [
      | inl last ↦ rw last (last_digit 0 (ground (arith, last)))
      | inr more ↦ rw more (
          digits_from-decimal_from f (n / 10) (String.◌∷◌ (digit (n % 10)) acc) (omega (arith, h))
          ∙ last_digit (n / 10) refl)
    ]

-- A number with its sign, where it is in the range of `int`.
abbrev positive : Option ℕ → Option ℤ
positive none = none
positive (some n) = if leb n max_int then some (pos n) else none

abbrev negative : Option ℕ → Option ℤ
negative none = none
negative (some zero) = some (pos 0)
negative (some (suc n)) = if leb n max_int then some (negsuc n) else none

abbrev digits : String → Option ℕ
digits String.[] = none
digits (String.◌∷◌ c s) = digits_from 0 (String.◌∷◌ c s)

-- `none` stands for an error.
unfoldable pub atoi : String → Option ℤ
atoi String.[] = none
atoi (String.◌∷◌ c s) =
    if code c == 45
    then negative (digits s)
    else if code c == 43
    then positive (digits s)
    else positive (digits_from 0 (String.◌∷◌ c s))

atoi-digits :
    (s : String) (n : ℕ)
    → starts_with_digit s ≡ true
    → digits_from 0 s ≡ some n
    → n ≤ max_int
    → atoi s ≡ some (pos n)
unfolding atoi starts_with_digit
atoi-digits String.[] n h e b = cc
atoi-digits (String.◌∷◌ c s) n h e b = ground (arith, h, e, b)

-- Atoi reads the number back that `%d` has written, as far as it is an `int`.
pub atoi-decimal : (n : ℕ) → n ≤ max_int → atoi (decimal n) ≡ some (pos n)
unfolding decimal digits_from pow_ten
atoi-decimal n b =
    atoi-digits (decimal n) n (decimal_from-starts 19 n "")
      (digits_from-decimal_from 20 n "" (omega (arith, b))) b
