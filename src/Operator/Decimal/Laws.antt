-- ===== src/Operator/Decimal/Laws.antt =====
-- Reading the digits back: two numbers never print alike.
use cloud_native_tour.Common.{
  ℕ, suc, zero, ◌+◌, ◌-◌, ◌*◌, ◌/◌, ◌%◌, ◌<◌, ◌≡◌, refl, sym, ap, ◌∙◌, Text, [], ◌∷◌, ◌++◌, ltb,
  Bool-cases, inl, inr, ltb→lt, ltb-eq-false→le, arith,
}
use cloud_native_tour.Operator.Decimal.{decimal_digits, decimal}

-- The number that digits stand for, after those that stand for `acc`.
unfoldable read_digits : ℕ → Text → ℕ
read_digits acc [] = acc
read_digits acc (c ∷ s) = read_digits (acc * 10 + (c - 48)) s

read_digits-snoc :
    (acc c : ℕ) (s : Text) → read_digits acc (s ++ (c ∷ [])) ≡ read_digits acc s * 10 + (c - 48)
unfolding read_digits
read_digits-snoc acc c [] = refl
read_digits-snoc acc c (d ∷ s) = read_digits-snoc (acc * 10 + (d - 48)) c s

read_digits-decimal_digits : (fuel n : ℕ) → n < fuel → read_digits 0 (decimal_digits fuel n) ≡ n
unfolding decimal_digits
read_digits-decimal_digits zero n p = omega arith
read_digits-decimal_digits (suc fuel) n p = elim (Bool-cases (ltb n 10)) [
  | inl e ↦ rw e (unfold read_digits in omega (arith, ltb→lt n 10 e))
  | inr e ↦
      let big = ltb-eq-false→le n 10 e in
      let ih = read_digits-decimal_digits fuel (n / 10) (omega (arith, big)) in
      rw e (read_digits-snoc 0 (48 + n % 10) (decimal_digits fuel (n / 10)) ∙ omega (arith, ih))
]

pub decimal_injective : (m n : ℕ) → decimal m ≡ decimal n → m ≡ n
unfolding decimal
decimal_injective m n e =
    sym (read_digits-decimal_digits (suc m) m (omega arith))
    ∙ ap (read_digits 0) e
    ∙ read_digits-decimal_digits (suc n) n (omega arith)
