-- ===== src/NodeIdServer/Storage/Numbers.antt =====
-- storage_marshaller.hpp: the text of a number is read back as that number.
use uavcan.Base.{
  ℕ, zero, suc, ◌+◌, ◌-◌, ◌*◌, ◌/◌, ◌%◌, ◌^◌, ◌≤◌, ◌<◌, ◌≡◌, refl, inl, inr, ap, ◌∙◌, true, List,
  [], ◌∷◌, some, length, ltb, Bool-cases, arith,
}
use uavcan.NodeIdServer.Storage.{digits, decimal, all_digits, to_number, parse_number}

digit_sum : (acc d n : ℕ) → d ≡ b'0' + n % 10 → acc ≡ n / 10 → acc * 10 + (d - b'0') ≡ n
digit_sum acc d n e f = omega arith

to_number-digits :
    (fuel n : ℕ) (rest : List ℕ)
    → n < 10 ^ fuel
    → to_number 0 (digits fuel n rest) ≡ to_number n rest
unfolding to_number digits
to_number-digits zero n rest h = ap (λ m. to_number m rest) (omega arith)
to_number-digits (suc fuel) n rest h = elim (Bool-cases (ltb n 10)) [
  | inl t ↦ rw (digits, t) (ap (λ m. to_number m rest) (omega arith))
  | inr f ↦
      rw (digits, f)
        (to_number-digits fuel (n / 10) ((b'0' + n % 10) ∷ rest) (omega arith)
          ∙ ap (λ m. to_number m rest) (digit_sum (n / 10) (b'0' + n % 10) n refl refl))
]

all_digits-digits :
    (fuel n : ℕ) (rest : List ℕ) → all_digits rest ≡ true → all_digits (digits fuel n rest) ≡ true
unfolding all_digits digits
all_digits-digits zero n rest h = h
all_digits-digits (suc fuel) n rest h =
    let more = all_digits-digits fuel (n / 10) ((b'0' + n % 10) ∷ rest) in ground arith

length-digits :
    (k fuel n : ℕ) (rest : List ℕ)
    → n < 10 ^ suc k
    → length (digits fuel n rest) ≤ suc k + length rest
unfolding digits
length-digits k zero n rest h = omega arith
length-digits zero (suc fuel) n rest h = ground arith
length-digits (suc k) (suc fuel) n rest h =
    let more = length-digits k fuel (n / 10) ((b'0' + n % 10) ∷ rest) (omega arith) in ground arith

length-digits_grows : (fuel n : ℕ) (rest : List ℕ) → length rest ≤ length (digits fuel n rest)
unfolding digits
length-digits_grows zero n rest = omega arith
length-digits_grows (suc fuel) n rest =
    let more = length-digits_grows fuel (n / 10) ((b'0' + n % 10) ∷ rest) in ground arith

length-digits_positive : (fuel n : ℕ) → 0 < length (digits (suc fuel) n [])
unfolding digits
length-digits_positive fuel n =
    let more = length-digits_grows fuel (n / 10) ((b'0' + n % 10) ∷ []) in ground arith

-- A number of 32 bits is read back from the text that is written for it.
pub parse_number-decimal : (n : ℕ) → n < 2 ^ 32 → parse_number (decimal n) ≡ some n
unfolding parse_number decimal all_digits to_number
parse_number-decimal n h =
    let value = to_number-digits 20 n [] (omega arith) in
    let numeric = all_digits-digits 20 n [] refl in
    let some_digit = length-digits_positive 19 n in
    let short = length-digits 9 20 n [] (omega arith) in ground arith
