-- ===== src/Prelude/Words.antt =====
-- A 32-bit word comparison is a prefix test, whatever lies behind the text's terminator.
use httpoll.Prelude.Tests.{◌==◌}
use httpoll.Prelude.Lists.{length, drop}
use httpoll.Prelude.Machine.{Bytes}
use httpoll.Prelude.Text.{
  All, IsByte, starts_with, byte_at, byte_at-drop, byte_at-IsByte, load_int, All-drop,
}
use Prim.Native.Nat.{ℕ, ◌+◌, ◌*◌, ◌%◌, ◌^◌, ◌≤◌}
use mathlib.Core.Path.{◌≡◌, refl, ◌∙◌}
use mathlib.Core.Logic.{◌≢◌}
use mathlib.Core.Bool.{true, ◌&&◌}
use mathlib.Core.List.{[], ◌∷◌}
use native.Mathlib.Nat.{add-zero}
use native.Mathlib.Omega.{arith}

-- The bytes that a word holds.
word_three :
    (a b c d x y z : ℕ)
    → IsByte a
    → IsByte b
    → IsByte c
    → IsByte x
    → IsByte y
    → IsByte z
    → ((a + 256 * b + 65536 * c + 16777216 * d) % 2 ^ 24 == x + 256 * y + 65536 * z)
      ≡ (a == x && (b == y && (c == z && true)))
word_three a b c d x y z ha hb hc hx hy hz = ground arith

word_four :
    (a b c d x y z w : ℕ)
    → IsByte a
    → IsByte b
    → IsByte c
    → IsByte d
    → IsByte x
    → IsByte y
    → IsByte z
    → IsByte w
    → (a + 256 * b + 65536 * c + 16777216 * d == x + 256 * y + 65536 * z + 16777216 * w)
      ≡ (a == x && (b == y && (c == z && (d == w && true))))
word_four a b c d x y z w ha hb hc hd hx hy hz hw = ground arith

three_prefix :
    (past : ℕ → ℕ) (s : Bytes) (x y z : ℕ)
    → x ≢ 0
    → y ≢ 0
    → z ≢ 0
    → (byte_at past s 0 == x && (byte_at past s 1 == y && (byte_at past s 2 == z && true)))
      ≡ starts_with (x ∷ y ∷ z ∷ []) s
three_prefix past [] x y z hx hy hz = ground arith
three_prefix past (a ∷ []) x y z hx hy hz = ground arith
three_prefix past (a ∷ b ∷ []) x y z hx hy hz = ground arith
three_prefix past (a ∷ b ∷ c ∷ s) x y z hx hy hz = refl

four_prefix :
    (past : ℕ → ℕ) (s : Bytes) (x y z w : ℕ)
    → x ≢ 0
    → y ≢ 0
    → z ≢ 0
    → w ≢ 0
    → (byte_at past s 0 == x
        && (byte_at past s 1 == y && (byte_at past s 2 == z && (byte_at past s 3 == w && true))))
      ≡ starts_with (x ∷ y ∷ z ∷ w ∷ []) s
four_prefix past [] x y z w hx hy hz hw = ground arith
four_prefix past (a ∷ []) x y z w hx hy hz hw = ground arith
four_prefix past (a ∷ b ∷ []) x y z w hx hy hz hw = ground arith
four_prefix past (a ∷ b ∷ c ∷ []) x y z w hx hy hz hw = ground arith
four_prefix past (a ∷ b ∷ c ∷ d ∷ s) x y z w hx hy hz hw = refl

load_int-drop :
    (past : ℕ → ℕ) (s : Bytes) (pos : ℕ)
    → pos ≤ length s
    → load_int past s pos ≡ load_int past (drop pos s) 0
load_int-drop past s pos h =
    rw (byte_at-drop past s pos 1 h, byte_at-drop past s pos 2 h, byte_at-drop past s pos 3 h)
      (omega (arith, rw add-zero at (byte_at-drop past s pos 0 h)))

-- An ASCII byte that is not NUL.
abbrev pub IsAscii : ℕ → Type 0
IsAscii b = (b ≢ 0) × IsByte b

module _ (past : ℕ → ℕ) (past_bytes : (k : ℕ) → IsByte (past k)) (s : Bytes) (pos : ℕ)
    (bytes : All IsByte s) (inside : pos ≤ length s) where
  IsByte-in : (k : ℕ) → IsByte (byte_at past (drop pos s) k)
  IsByte-in k = byte_at-IsByte past (drop pos s) k past_bytes (All-drop IsByte pos s bytes)

  pub load_int-three :
      (x y z : ℕ)
      → IsAscii x
      → IsAscii y
      → IsAscii z
      → (load_int past s pos % 2 ^ 24 == x + 256 * y + 65536 * z)
        ≡ starts_with (x ∷ y ∷ z ∷ []) (drop pos s)
  load_int-three x y z hx hy hz = rw (load_int-drop past s pos inside) (
      word_three (byte_at past (drop pos s) 0) (byte_at past (drop pos s) 1)
        (byte_at past (drop pos s) 2) (byte_at past (drop pos s) 3) x y z (IsByte-in 0)
        (IsByte-in 1) (IsByte-in 2) hx.1 hy.1 hz.1
      ∙ three_prefix past (drop pos s) x y z hx.0 hy.0 hz.0)

  pub load_int-four :
      (x y z w : ℕ)
      → IsAscii x
      → IsAscii y
      → IsAscii z
      → IsAscii w
      → (load_int past s pos == x + 256 * y + 65536 * z + 16777216 * w)
        ≡ starts_with (x ∷ y ∷ z ∷ w ∷ []) (drop pos s)
  load_int-four x y z w hx hy hz hw = rw (load_int-drop past s pos inside) (
      word_four (byte_at past (drop pos s) 0) (byte_at past (drop pos s) 1)
        (byte_at past (drop pos s) 2) (byte_at past (drop pos s) 3) x y z w (IsByte-in 0)
        (IsByte-in 1) (IsByte-in 2) (IsByte-in 3) hx.1 hy.1 hz.1 hw.1
      ∙ four_prefix past (drop pos s) x y z w hx.0 hy.0 hz.0 hw.0)
