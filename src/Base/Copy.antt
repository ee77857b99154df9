-- ===== src/Base/Copy.antt =====
-- uavcan::copy of libuavcan/include/uavcan/util/templates.hpp into an array, at an offset.
use Prim.Native.Nat.{ℕ, zero, suc, ◌+◌, ◌-◌, ◌≤◌}
use mathlib.Core.Path.{◌≡◌, refl, sym, ap, ap₂, ◌∙◌}
use mathlib.Core.List.{List, [], ◌∷◌, ◌++◌}
use native.Mathlib.Omega.{arith}
use uavcan.Base.Lists.{length, take, drop, IsBytes}

-- Bytes that would fall behind the end of the array are not written.
unfoldable pub copy_at : ℕ → List ℕ → List ℕ → List ℕ
copy_at offset input [] = []
copy_at (suc offset) input (b ∷ bs) = b ∷ copy_at offset input bs
copy_at zero [] (b ∷ bs) = b ∷ bs
copy_at zero (x ∷ xs) (b ∷ bs) = x ∷ copy_at zero xs bs

pub length-copy_at : (n : ℕ) (xs bs : List ℕ) → length (copy_at n xs bs) ≡ length bs
unfolding copy_at
length-copy_at n xs [] = refl
length-copy_at (suc n) xs (b ∷ bs) = ap suc (length-copy_at n xs bs)
length-copy_at zero [] (b ∷ bs) = refl
length-copy_at zero (x ∷ xs) (b ∷ bs) = ap suc (length-copy_at zero xs bs)

pub copy_at_nil : (n : ℕ) (bs : List ℕ) → copy_at n [] bs ≡ bs
unfolding copy_at
copy_at_nil n [] = refl
copy_at_nil (suc n) (b ∷ bs) = ap (◌∷◌ b) (copy_at_nil n bs)
copy_at_nil zero (b ∷ bs) = refl

-- What lies before the offset stays.
pub take-copy_at : (m n : ℕ) (xs bs : List ℕ) → m ≤ n → take m (copy_at n xs bs) ≡ take m bs
unfolding copy_at
take-copy_at zero n xs bs h = refl
take-copy_at (suc m) n xs [] h = refl
take-copy_at (suc m) zero xs (b ∷ bs) h = absurd (omega arith)
take-copy_at (suc m) (suc n) xs (b ∷ bs) h = ap (◌∷◌ b) (take-copy_at m n xs bs (omega arith))

-- What lies behind the copied bytes stays.
pub drop-copy_at :
    (n m : ℕ) (xs bs : List ℕ) → n + length xs ≤ m → drop m (copy_at n xs bs) ≡ drop m bs
unfolding copy_at
drop-copy_at n zero xs [] h = refl
drop-copy_at n (suc m) xs [] h = refl
drop-copy_at (suc n) zero xs (b ∷ bs) h = absurd (omega arith)
drop-copy_at (suc n) (suc m) xs (b ∷ bs) h = drop-copy_at n m xs bs (omega arith)
drop-copy_at zero m [] (b ∷ bs) h = refl
drop-copy_at zero zero (x ∷ xs) (b ∷ bs) h = absurd (omega arith)
drop-copy_at zero (suc m) (x ∷ xs) (b ∷ bs) h = drop-copy_at zero m xs bs (omega arith)

-- Everything up to the end of the copied bytes.
pub take-copy_at_end :
    (n m : ℕ) (xs bs : List ℕ)
    → n + length xs ≡ m
    → m ≤ length bs
    → take m (copy_at n xs bs) ≡ take n bs ++ xs
unfolding copy_at
take-copy_at_end zero zero [] [] e h = refl
take-copy_at_end zero zero (x ∷ xs) [] e h = absurd (omega arith)
take-copy_at_end (suc n) zero xs [] e h = absurd (omega arith)
take-copy_at_end n (suc m) xs [] e h = absurd (omega arith)
take-copy_at_end (suc n) zero xs (b ∷ bs) e h = absurd (omega arith)
take-copy_at_end (suc n) (suc m) xs (b ∷ bs) e h =
    ap (◌∷◌ b) (take-copy_at_end n m xs bs (omega arith) (omega arith))
take-copy_at_end zero zero [] (b ∷ bs) e h = refl
take-copy_at_end zero (suc m) [] (b ∷ bs) e h = absurd (omega arith)
take-copy_at_end zero zero (x ∷ xs) (b ∷ bs) e h = absurd (omega arith)
take-copy_at_end zero (suc m) (x ∷ xs) (b ∷ bs) e h =
    ap (◌∷◌ x) (take-copy_at_end zero m xs bs (omega arith) (omega arith))

pub drop_nil : (n : ℕ) → drop {A = ℕ} n [] ≡ []
drop_nil zero = refl
drop_nil (suc n) = refl

pub copy_at-append :
    (n : ℕ) (xs cs bs : List ℕ)
    → copy_at n xs (cs ++ bs)
      ≡ copy_at n xs cs ++ copy_at (n - length cs) (drop (length cs - n) xs) bs
unfolding copy_at
copy_at-append n xs [] bs =
    let same : n ≡ n - 0 = omega arith in
    let none_dropped : 0 ≡ 0 - n = omega arith in
    ap₂ (λ k m. copy_at k (drop m xs) bs) same none_dropped
copy_at-append (suc n) xs (c ∷ cs) bs = ap (◌∷◌ c) (
    copy_at-append n xs cs bs
    ∙ ap₂ (λ k m. copy_at n xs cs ++ copy_at k (drop m xs) bs)
        (let e : n - length cs ≡ suc n - suc (length cs) = omega arith in e)
        (let e : length cs - n ≡ suc (length cs) - suc n = omega arith in e))
copy_at-append zero [] (c ∷ cs) bs =
    ap (λ t. c ∷ (cs ++ t))
      (sym (
        ap (λ t. copy_at (0 - suc (length cs)) t bs) (drop_nil (suc (length cs) - 0))
        ∙ copy_at_nil (0 - suc (length cs)) bs))
copy_at-append zero (x ∷ xs) (c ∷ cs) bs = ap (◌∷◌ x) (
    copy_at-append zero xs cs bs
    ∙ ap₂ (λ k m. copy_at zero xs cs ++ copy_at k (drop m (x ∷ xs)) bs)
        (let e : 0 - length cs ≡ 0 - suc (length cs) = omega arith in e)
        (let e : suc (length cs - 0) ≡ suc (length cs) - 0 = omega arith in e))

pub copy_at-IsBytes : (n : ℕ) (xs bs : List ℕ) → IsBytes xs → IsBytes bs → IsBytes (copy_at n xs bs)
unfolding copy_at
copy_at-IsBytes n xs [] h k = tt
copy_at-IsBytes (suc n) xs (b ∷ bs) h k = (k.0, copy_at-IsBytes n xs bs h k.1)
copy_at-IsBytes zero [] (b ∷ bs) h k = k
copy_at-IsBytes zero (x ∷ xs) (b ∷ bs) h k = (h.0, copy_at-IsBytes zero xs bs h.1 k.1)

-- The copied bytes themselves.
pub take-drop-copy_at :
    (n m : ℕ) (xs bs : List ℕ)
    → length xs ≡ m
    → n + m ≤ length bs
    → take m (drop n (copy_at n xs bs)) ≡ xs
unfolding copy_at
take-drop-copy_at zero zero [] bs e h = refl
take-drop-copy_at zero zero (x ∷ xs) bs e h = absurd (omega arith)
take-drop-copy_at zero (suc m) [] bs e h = absurd (omega arith)
take-drop-copy_at zero (suc m) (x ∷ xs) [] e h = absurd (omega arith)
take-drop-copy_at zero (suc m) (x ∷ xs) (b ∷ bs) e h =
    ap (◌∷◌ x) (take-drop-copy_at zero m xs bs (omega arith) (omega arith))
take-drop-copy_at (suc n) m xs [] e h = absurd (omega arith)
take-drop-copy_at (suc n) m xs (b ∷ bs) e h = take-drop-copy_at n m xs bs e (omega arith)
