-- ===== src/Prelude/Text.antt =====
-- Texts as the code sees them: `std::string` contents, C strings, and reads of single bytes.
use Prim.Native.Nat.{ℕ, zero, suc, ◌+◌, ◌≤◌, ◌<◌, ◌*◌}
use mathlib.Core.Path.{◌≡◌, ap}
use mathlib.Core.Bool.{Bool, true, false, ◌&&◌}
use mathlib.Core.List.{List, [], ◌∷◌, ◌++◌}
use native.Mathlib.Omega.{arith}
use httpoll.Prelude.Lists.{length, drop}
use httpoll.Prelude.Machine.{Bytes}
use httpoll.Prelude.Tests.{◌==◌, if◌then◌else◌}

abbrev pub All {ℓ κ} : {A : Type ℓ} → (A → Type κ) → List A → Type κ
All P [] = Unit
All P (x ∷ xs) = P x × All P xs

abbrev pub IsByte : ℕ → Type 0
IsByte b = b < 256

-- The text has the first one as a prefix.
abbrev pub starts_with : Bytes → Bytes → Bool
starts_with [] s = true
starts_with (p ∷ ps) [] = false
starts_with (p ∷ ps) (x ∷ xs) = x == p && starts_with ps xs

-- The memory of a text: its bytes, the terminator, and `past i` at distance i behind that.
abbrev pub byte_at : (ℕ → ℕ) → Bytes → ℕ → ℕ
byte_at past [] zero = 0
byte_at past [] (suc i) = past i
byte_at past (x ∷ xs) zero = x
byte_at past (x ∷ xs) (suc i) = byte_at past xs i

-- `std::string_view(s.data())`: the text up to its first NUL.
abbrev pub c_string : Bytes → Bytes
c_string [] = []
c_string (x ∷ xs) = if x == 0 then [] else x ∷ c_string xs

pub byte_at-drop :
    (past : ℕ → ℕ) (s : Bytes) (pos k : ℕ)
    → pos ≤ length s
    → byte_at past s (pos + k) ≡ byte_at past (drop pos s) k
byte_at-drop past s zero k h = ap (byte_at past s) e
  where
    e : 0 + k ≡ k
    e = omega arith
byte_at-drop past [] (suc pos) k h = absurd (omega arith)
byte_at-drop past (x ∷ xs) (suc pos) k h =
    let e : suc pos + k ≡ suc (pos + k) = omega arith in
    rw e (byte_at-drop past xs pos k (omega arith))

pub byte_at-IsByte :
    (past : ℕ → ℕ) (s : Bytes) (i : ℕ)
    → ((k : ℕ) → IsByte (past k))
    → All IsByte s
    → IsByte (byte_at past s i)
byte_at-IsByte past [] zero p h = omega arith
byte_at-IsByte past [] (suc i) p h = p i
byte_at-IsByte past (x ∷ xs) zero p h = h.0
byte_at-IsByte past (x ∷ xs) (suc i) p h = byte_at-IsByte past xs i p h.1

pub All-drop {ℓ κ} :
    {A : Type ℓ} (P : A → Type κ) (n : ℕ) (xs : List A) → All P xs → All P (drop n xs)
All-drop P zero xs h = h
All-drop P (suc n) [] h = h
All-drop P (suc n) (x ∷ xs) h = All-drop P n xs h.1

-- A 32-bit load, least byte first; a comparison of two such numbers is one of four bytes.
abbrev pub load_int : (ℕ → ℕ) → Bytes → ℕ → ℕ
load_int past s pos =
    byte_at past s pos
    + 256 * byte_at past s (pos + 1)
    + 65536 * byte_at past s (pos + 2)
    + 16777216 * byte_at past s (pos + 3)

pub All-append {ℓ κ} :
    {A : Type ℓ} (P : A → Type κ) (xs ys : List A) → All P xs → All P ys → All P (xs ++ ys)
All-append P [] ys hx hy = hy
All-append P (x ∷ xs) ys hx hy = (hx.0, All-append P xs ys hx.1 hy)

pub All-append_left {ℓ κ} :
    {A : Type ℓ} (P : A → Type κ) (xs ys : List A) → All P (xs ++ ys) → All P xs
All-append_left P [] ys h = tt
All-append_left P (x ∷ xs) ys h = (h.0, All-append_left P xs ys h.1)

pub All-map {ℓ κ λ'} :
    {A : Type ℓ} {P : A → Type κ} {Q : A → Type λ'} (xs : List A)
    → ((x : A) → P x → Q x)
    → All P xs
    → All Q xs
All-map [] f h = tt
All-map (x ∷ xs) f h = (f x h.0, All-map xs f h.1)

pub All-zip {ℓ κ λ' μ} :
    {A : Type ℓ} {P : A → Type κ} {Q : A → Type λ'} {R : A → Type μ} (xs : List A)
    → ((x : A) → P x → Q x → R x)
    → All P xs
    → All Q xs
    → All R xs
All-zip [] f h k = tt
All-zip (x ∷ xs) f h k = (f x h.0 k.0, All-zip xs f h.1 k.1)
