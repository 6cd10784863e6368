-- ===== src/Kv/Decimal.antt =====
-- The decimal numbers that api/kv2.rs writes into a request path.
use vault_client_rs.Prelude.{
  ℕ, zero, suc, ◌+◌, ◌-◌, ◌*◌, ◌/◌, ◌%◌, ◌^◌, ◌<◌, ◌≡◌, refl, sym, ap, ◌∙◌, inl, inr, [], ◌∷◌, ◌++◌,
  ltb, arith, Bool-cases,
}
use vault_client_rs.Prelude.Text.{Text}
use vault_client_rs.Kv.{decimal_digits, decimal}

abbrev value : ℕ → Text → ℕ
value n [] = n
value n (c ∷ s) = value (n * 10 + (c - b'0')) s

value-append : (n c : ℕ) (s : Text) → value n (s ++ c ∷ []) ≡ value n s * 10 + (c - b'0')
value-append n c [] = refl
value-append n c (d ∷ s) = value-append (n * 10 + (d - b'0')) c s

value-decimal_digits : (fuel n : ℕ) → n < 10 ^ fuel → value 0 (decimal_digits fuel n) ≡ n
unfolding decimal_digits
value-decimal_digits zero n h = omega (arith, h)
value-decimal_digits (suc fuel) n h = elim (Bool-cases (ltb n 10)) [
  | inl e ↦ rw e (omega arith)
  | inr e ↦
      let ih = value-decimal_digits fuel (n / 10) (omega arith) in
      rw e (value-append 0 (b'0' + n % 10) (decimal_digits fuel (n / 10)) ∙ rw ih (omega arith))
]

-- The twenty digits are enough for every u64: different ones are written differently.
pub decimal-injective : (m n : ℕ) → m < 2 ^ 64 → n < 2 ^ 64 → decimal m ≡ decimal n → m ≡ n
unfolding decimal
decimal-injective m n hm hn e =
    sym (value-decimal_digits 20 m (omega arith))
    ∙ (ap (value 0) e ∙ value-decimal_digits 20 n (omega arith))
