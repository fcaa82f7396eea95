-- ===== src/WebsocketConnection/Mask.antt =====
-- The loop that unmasks a payload undoes itself.
use httpoll.Prelude.{
  ℕ, zero, suc, ◌+◌, ◌*◌, ◌/◌, ◌%◌, ◌≤◌, ◌<◌, ◌≡◌, refl, sym, ap, ap₂, ◌∙◌, [], ◌∷◌, arith, Bytes,
  length, get_or,
}
use Prim.Native.Nat.{bit_xor, differ, digits, bit_xor-bitwise}
use httpoll.WebsocketConnection.{unmask}

-- The count of digits may be any that is large enough.
digits-count :
    (n m a b : ℕ) → a ≤ n → a ≤ m → digits (λ y. y) differ n a b ≡ digits (λ y. y) differ m a b
digits-count zero zero a b h k = refl
digits-count zero (suc m) zero b h k = refl
digits-count zero (suc m) (suc a) b h k = absurd (omega arith)
digits-count (suc n) zero zero b h k = refl
digits-count (suc n) zero (suc a) b h k = absurd (omega arith)
digits-count (suc n) (suc m) zero b h k = refl
digits-count (suc n) (suc m) (suc a) b h k =
    ap (λ r. r * 2 + differ (suc a % 2) (b % 2))
      (digits-count n m (suc a / 2) (b / 2) (omega arith) (omega arith))

zero-xor : (b : ℕ) → bit_xor 0 b ≡ b
zero-xor b = bit_xor-bitwise 0 b

xor_step : (a b : ℕ) → bit_xor a b ≡ bit_xor (a / 2) (b / 2) * 2 + differ (a % 2) (b % 2)
xor_step zero b = zero-xor b ∙ (rw (zero-xor (b / 2)) (omega arith))
xor_step (suc a) b =
    bit_xor-bitwise (suc a) b
    ∙ ap (λ r. r * 2 + differ (suc a % 2) (b % 2))
        (digits-count a (suc a / 2) (suc a / 2) (b / 2) (omega arith) (omega arith)
          ∙ sym (bit_xor-bitwise (suc a / 2) (b / 2)))

differ_twice : (x y : ℕ) → x < 2 → y < 2 → (differ x y < 2) × (differ (differ x y) y ≡ x)
differ_twice zero zero h k = (omega arith, refl)
differ_twice zero (suc zero) h k = (omega arith, refl)
differ_twice (suc zero) zero h k = (omega arith, refl)
differ_twice (suc zero) (suc zero) h k = (omega arith, refl)
differ_twice (suc (suc x)) y h k = absurd (omega arith)
differ_twice x (suc (suc y)) h k = absurd (omega arith)

xor_twice_below : (n a b : ℕ) → a ≤ n → b ≤ n → bit_xor (bit_xor a b) b ≡ a
xor_twice_below zero zero zero h k = refl
xor_twice_below zero (suc a) b h k = absurd (omega arith)
xor_twice_below zero a (suc b) h k = absurd (omega arith)
xor_twice_below (suc n) a b h k =
    let (small, twice) = differ_twice (a % 2) (b % 2) (omega arith) (omega arith) in
    let half : bit_xor a b / 2 ≡ bit_xor (a / 2) (b / 2) = omega (arith, xor_step a b) in
    let digit : bit_xor a b % 2 ≡ differ (a % 2) (b % 2) = omega (arith, xor_step a b) in
    let again : bit_xor (bit_xor a b / 2) (b / 2) ≡ a / 2 =
      rw half (xor_twice_below n (a / 2) (b / 2) (omega arith) (omega arith)) in
    let last : differ (bit_xor a b % 2) (b % 2) ≡ a % 2 = rw digit twice in
    omega (arith, xor_step (bit_xor a b) b, again, last)

xor_twice : (a b : ℕ) → bit_xor (bit_xor a b) b ≡ a
xor_twice a b = xor_twice_below (a + b) a b (omega arith) (omega arith)

pub length-unmask : (mask : Bytes) (i : ℕ) (xs : Bytes) → length (unmask mask i xs) ≡ length xs
unfolding unmask
length-unmask mask i [] = refl
length-unmask mask i (x ∷ xs) = ap suc (length-unmask mask (suc i) xs)

-- The loop on its own result, from the same index, restores the payload, whatever the mask.
pub unmask-unmask : (mask : Bytes) (i : ℕ) (xs : Bytes) → unmask mask i (unmask mask i xs) ≡ xs
unfolding unmask
unmask-unmask mask i [] = refl
unmask-unmask mask i (x ∷ xs) =
    ap₂ (λ y ys. y ∷ ys) (xor_twice x (get_or mask (i % 4) 0)) (unmask-unmask mask (suc i) xs)
