-- ===== src/Prelude/Machine.antt =====
-- Bytes, and the arithmetic of `size_t` and `unsigned`.
use Prim.Native.Nat.{ℕ, ◌+◌, ◌-◌, ◌%◌, ◌^◌, ◌≤◌, ◌<◌}
use Prim.Native.Char.{code}
use Prim.Native.String.{String}
use mathlib.Core.List.{List, [], ◌∷◌, ◌++◌}
use mathlib.Core.Path.{◌≡◌, refl, ap, ◌∙◌}
use native.Mathlib.Omega.{arith}
use httpoll.Prelude.Lists.{
  length, take, drop, length-take, length-drop, length-append, drop-take, drop-drop, length-take_le,
  drop-append_ge, drop-append_le, take-append_add, take-append_self,
}

abbrev pub Bytes : Type 0
Bytes = List ℕ

-- A signed integer: `negsuc n` is -n - 1.
pub data ℤ : Type 0 where
  pos negsuc : ℕ → ℤ

-- The bytes of an ASCII literal of the source.
abbrev pub codes : String → Bytes
codes String.[] = []
codes (String.◌∷◌ c s) = code c ∷ codes s

-- `size_t` addition and subtraction, mod 2^64.
abbrev pub add_size : ℕ → ℕ → ℕ
add_size a b = (a + b) % 2 ^ 64

abbrev pub sub_size : ℕ → ℕ → ℕ
sub_size a b = (a + 2 ^ 64 - b) % 2 ^ 64

-- `unsigned` addition, mod 2^32.
abbrev pub add_unsigned : ℕ → ℕ → ℕ
add_unsigned a b = (a + b) % 2 ^ 32

-- The `n` bytes from index `off` on.
abbrev pub slice : ℕ → ℕ → Bytes → Bytes
slice off n xs = take n (drop off xs)

-- `memcpy(dst + off, src, length src)`, where the copy lies inside `dst`.
abbrev pub memcpy : Bytes → ℕ → Bytes → Bytes
memcpy dst off src = take off dst ++ (src ++ drop (off + length src) dst)

pub sub_size_lem : (a b : ℕ) → b ≤ a → a < 2 ^ 64 → sub_size a b ≡ a - b
sub_size_lem a b h k = omega arith

pub add_size_lem : (a b : ℕ) → a + b < 2 ^ 64 → add_size a b ≡ a + b
add_size_lem a b h = omega arith

pub length-slice : (off n : ℕ) (xs : Bytes) → off + n ≤ length xs → length (slice off n xs) ≡ n
length-slice off n xs h = omega (arith, length-take n (drop off xs), length-drop off xs)

pub drop-slice : (k off n : ℕ) (xs : Bytes) → drop k (slice off n xs) ≡ slice (off + k) (n - k) xs
drop-slice k off n xs = drop-take k n (drop off xs) ∙ ap (take (n - k)) (drop-drop k off xs)

pub length-memcpy :
    (dst : Bytes) (off : ℕ) (src : Bytes)
    → off + length src ≤ length dst
    → length (memcpy dst off src) ≡ length dst
length-memcpy dst off src h = omega (
  arith,
  length-append (take off dst) (src ++ drop (off + length src) dst),
  length-append src (drop (off + length src) dst),
  length-take off dst,
  length-drop (off + length src) dst,
)

-- What lies behind a copy is untouched.
pub drop-memcpy :
    (r : ℕ) (dst : Bytes) (off : ℕ) (src : Bytes)
    → off ≤ length dst
    → off + length src ≤ r
    → drop r (memcpy dst off src) ≡ drop r dst
drop-memcpy r dst off src h k =
    let e : length (take off dst) ≡ off = length-take_le off dst h in
    let back : off + length src + (r - off - length src) ≡ r = omega arith in
    drop-append_ge r (take off dst) (src ++ drop (off + length src) dst) (omega arith)
    ∙ rw e (drop-append_ge (r - off) src (drop (off + length src) dst) (omega arith))
    ∙ drop-drop (r - off - length src) (off + length src) dst
    ∙ rw back refl

-- A copy appended to the slice that ends where it begins.
pub slice-memcpy :
    (r : ℕ) (dst : Bytes) (off : ℕ) (src : Bytes)
    → off ≤ length dst
    → r ≤ off
    → slice r (off + length src - r) (memcpy dst off src) ≡ slice r (off - r) dst ++ src
slice-memcpy r dst off src h k =
    let tail : Bytes = src ++ drop (off + length src) dst in
    let e : length (take off dst) ≡ off = length-take_le off dst h in
    let front : drop r (memcpy dst off src) ≡ slice r (off - r) dst ++ tail =
      drop-append_le r (take off dst) tail (omega arith) ∙ rw (drop-take r off dst) refl in
    let n : off + length src - r ≡ length (slice r (off - r) dst) + length src =
      omega (arith, length-slice r (off - r) dst (omega arith)) in
    rw (front, n)
      (take-append_add (slice r (off - r) dst) tail (length src)
        ∙ ap (◌++◌ (slice r (off - r) dst)) (take-append_self src (drop (off + length src) dst)))

pub slice-memcpy_zero :
    (n : ℕ) (dst src : Bytes) → n ≡ length src → slice 0 n (memcpy dst 0 src) ≡ src
slice-memcpy_zero n dst src e = rw e (take-append_self src (drop (0 + length src) dst))

pub slice-memcpy_end :
    (n : ℕ) (dst : Bytes) (off : ℕ) (src : Bytes)
    → off ≤ length dst
    → n ≡ off + length src
    → slice 0 n (memcpy dst off src) ≡ slice 0 off dst ++ src
slice-memcpy_end n dst off src h e =
    let z : off + length src - 0 ≡ n = omega arith in
    let z' : off - 0 ≡ off = omega arith in
    rw (z, z') at (slice-memcpy 0 dst off src h (omega arith))

pub length-eq-zero : (xs : Bytes) → length xs ≡ 0 → xs ≡ []
length-eq-zero [] h = refl
length-eq-zero (x ∷ xs) h = absurd (omega arith)
