-- ===== src/Connection/Lines.antt =====
-- `PopLine` and the first CR LF of the buffer.
use httpoll.Prelude.{
  ℕ, suc, ◌+◌, ◌*◌, ◌<◌, ◌≡◌, ◌↔◌, refl, sym, ap, ap₂, ◌∙◌, inl, inr, false, Option, none, some, [],
  ◌∷◌, ◌++◌, arith, ltb, ◌==◌, Bytes, All, IsByte, length, take, drop, Bool-cases, take-append-drop,
  length-drop, take-append_add, drop-append_add, All-append_left, append_assoc,
}
use mathlib.Core.Option
use mathlib.Core.Path.{subst}
use httpoll.Connection.{crlf_index, pop_line}

pub from_map :
    (o : Option ℕ) (i : ℕ) → Option.map suc o ≡ some i → (j : ℕ) × (o ≡ some j) × (i ≡ suc j)
from_map none i e = cc
from_map (some j) i e = (j, refl, cc)

pub map-none {ℓ κ} :
    {A : Type ℓ} {B : Type κ} (o : Option A) (f : A → B) → Option.map f o ≡ none → o ≡ none
map-none none f e = refl
map-none (some a) f e = cc

pub map-some {ℓ κ} :
    {A : Type ℓ} {B : Type κ} (o : Option A) (f : A → B) {b : B}
    → Option.map f o ≡ some b
    → (a : A) × (o ≡ some a)
map-some none f e = cc
map-some (some a) f e = (a, refl)

pub some_pair :
    (a b c d : Bytes)
    → ◌≡◌ {A = Option (Bytes × Bytes)} (some (a, b)) (some (c, d))
    → (a ≡ c) × (b ≡ d)
some_pair a b c d e = (cc, cc)

-- CR LF stands nowhere in the text.
abbrev pub NoCrlf : Bytes → Type 0
NoCrlf [] = Unit
NoCrlf (x ∷ []) = Unit
NoCrlf (x ∷ y ∷ rest) = ¬ ((x ≡ b'\r') × (y ≡ b'\n')) × NoCrlf (y ∷ rest)

abbrev crlf : Bytes
crlf = b'\r' ∷ b'\n' ∷ []

-- The text up to the first CR LF, that included, is found wherever it stands.
crlf_index-append :
    (front rest : Bytes)
    → All IsByte front
    → NoCrlf (front ++ b'\r' ∷ [])
    → crlf_index (front ++ (b'\r' ∷ b'\n' ∷ rest)) ≡ some (length front)
unfolding crlf_index
crlf_index-append [] rest b h = refl
crlf_index-append (x ∷ []) rest b h = ground (arith, crlf_index-append [] rest tt tt)
crlf_index-append (x ∷ y ∷ front) rest b h =
    let two : (x + 256 * y == b'\r' + 256 * b'\n') ≡ false = ground (arith, h.0, b.0, b.1.0) in
    rw two (ap (Option.map suc) (crlf_index-append (y ∷ front) rest b.1 h.1))

crlf_index-none : (s : Bytes) → All IsByte s → NoCrlf s → crlf_index s ≡ none
unfolding crlf_index
crlf_index-none [] b h = refl
crlf_index-none (x ∷ []) b h = refl
crlf_index-none (x ∷ y ∷ s) b h =
    let two : (x + 256 * y == b'\r' + 256 * b'\n') ≡ false = ground (arith, h.0, b.0, b.1.0) in
    rw two (ap (Option.map suc) (crlf_index-none (y ∷ s) b.1 h.1))

NoCrlf-cons :
    (x y : ℕ) (s front rest : Bytes)
    → y ∷ s ≡ front ++ (b'\r' ∷ b'\n' ∷ rest)
    → ¬ ((x ≡ b'\r') × (y ≡ b'\n'))
    → NoCrlf (front ++ b'\r' ∷ [])
    → NoCrlf (x ∷ front ++ b'\r' ∷ [])
NoCrlf-cons x y s [] rest e ne h = ((λ t. absurd (omega (arith, t.1))), tt)
NoCrlf-cons x y s (z ∷ front) rest e ne h =
    let head : y ≡ z = cc in ((λ t. ne (t.0, head ∙ t.1)), h)

-- What an answer says of the buffer.
crlf_index_split :
    (s : Bytes) (i : ℕ)
    → All IsByte s
    → crlf_index s ≡ some i
    → (front : Bytes) × (rest : Bytes) × (s ≡ front ++ (b'\r' ∷ b'\n' ∷ rest))
      × (i ≡ length front)
      × NoCrlf (front ++ b'\r' ∷ [])
unfolding crlf_index
crlf_index_split [] i b e = cc
crlf_index_split (x ∷ []) i b e = cc
crlf_index_split (x ∷ y ∷ s) i b e = elim (Bool-cases (x + 256 * y == b'\r' + 256 * b'\n')) [
  | inl t ↦
      let cr : x ≡ b'\r' = ground (arith, b.0, b.1.0) in
      let lf : y ≡ b'\n' = ground (arith, b.0, b.1.0) in
      let zero_index : some 0 ≡ some i = (rw t at e) in
      ([], s, ap₂ (λ a c. a ∷ c ∷ s) cr lf, cc, tt)
  | inr t ↦
      let (j, found, i_is) = from_map (crlf_index (y ∷ s)) i (rw t at e) in
      let (front, rest, split, at, first) = crlf_index_split (y ∷ s) j b.1 found in
      (
        x ∷ front,
        rest,
        ap (◌∷◌ x) split,
        omega arith,
        NoCrlf-cons x y s front rest split (λ u. ground (arith, u.0, u.1)) first,
      )
]

abbrev pub cut : Bytes → ℕ → Bytes × Bytes
cut s i = (take (i + 2) s, drop (i + 2) s)

pub pop_line_index : (s : Bytes) → pop_line s ≡ Option.map (cut s) (crlf_index s)
unfolding pop_line
pop_line_index [] = unfold crlf_index in refl
pop_line_index (x ∷ []) = unfold crlf_index in refl
pop_line_index (x ∷ y ∷ s) =
    let long : ltb (length (x ∷ y ∷ s)) 2 ≡ false = ground arith in rw long refl

crlf_index-eq-none : (s : Bytes) → All IsByte s → crlf_index s ≡ none → NoCrlf s
unfolding crlf_index
crlf_index-eq-none [] b e = tt
crlf_index-eq-none (x ∷ []) b e = tt
crlf_index-eq-none (x ∷ y ∷ s) b e = elim (Bool-cases (x + 256 * y == b'\r' + 256 * b'\n')) [
  | inl t ↦ cc (rw t at e)
  | inr t ↦ (
    (λ u. ground (arith, u.0, u.1)),
    crlf_index-eq-none (y ∷ s) b.1 (map-none (crlf_index (y ∷ s)) suc (rw t at e)),
  )
]

-- `PopLine` finds nothing exactly when the buffer, a list of bytes, has no CR LF in it.
pub pop_line-none_iff : (s : Bytes) → All IsByte s → (pop_line s ≡ none) ↔ NoCrlf s
pop_line-none_iff s b = (
  (λ e. crlf_index-eq-none s b (map-none (crlf_index s) (cut s) (sym (pop_line_index s) ∙ e))),
  (λ h. pop_line_index s ∙ ap (Option.map (cut s)) (crlf_index-none s b h)),
)

-- On a buffer of bytes whose first CR LF stands behind `front`, `PopLine` returns all up to that CR LF,
-- that included, and leaves exactly what follows.
pub pop_line-append :
    (front rest : Bytes)
    → All IsByte front
    → NoCrlf (front ++ b'\r' ∷ [])
    → pop_line (front ++ (b'\r' ∷ b'\n' ∷ rest)) ≡ some (front ++ (b'\r' ∷ b'\n' ∷ []), rest)
pop_line-append front rest b h =
    pop_line_index (front ++ (b'\r' ∷ b'\n' ∷ rest))
    ∙ rw (crlf_index-append front rest b h) (
        ap₂ (λ l r. some (l, r)) (take-append_add front (b'\r' ∷ b'\n' ∷ rest) 2)
          (drop-append_add front (b'\r' ∷ b'\n' ∷ rest) 2))

-- Whatever line is returned stands at the front of the buffer, ends in its first CR LF, and is cut
-- off from what is left; so no byte is lost.
pub pop_line_split :
    (s line left : Bytes)
    → All IsByte s
    → pop_line s ≡ some (line, left)
    → (s ≡ line ++ left)
      × ((front : Bytes) × (line ≡ front ++ (b'\r' ∷ b'\n' ∷ [])) × NoCrlf (front ++ b'\r' ∷ []))
pop_line_split s line left b e =
    let (i, found) = map-some (crlf_index s) (cut s) (sym (pop_line_index s) ∙ e) in
    let (front, rest, split, at, first) = crlf_index_split s i b found in
    let bytes : All IsByte front = All-append_left IsByte front _ (subst (All IsByte) split b) in
    let popped = sym e ∙ ap pop_line split ∙ pop_line-append front rest bytes first in
    let (line_is, left_is) = some_pair line left _ _ popped in
    (
      split
          ∙ sym (append_assoc front (b'\r' ∷ b'\n' ∷ []) rest)
          ∙ ap₂ ◌++◌ (sym line_is) (sym left_is),
      (front, line_is, first),
    )

-- A line is taken off the front, and is not empty.
pub pop_line_front :
    (s line left : Bytes)
    → pop_line s ≡ some (line, left)
    → (s ≡ line ++ left) × (length left < length s)
unfolding pop_line
pop_line_front [] line left e = cc
pop_line_front (x ∷ []) line left e = cc
pop_line_front (x ∷ y ∷ s) line left e =
    let (i, found) =
      map-some (crlf_index (x ∷ y ∷ s)) (cut (x ∷ y ∷ s)) (sym (pop_line_index (x ∷ y ∷ s)) ∙ e) in
    let popped =
      sym (ap (Option.map (cut (x ∷ y ∷ s))) found) ∙ sym (pop_line_index (x ∷ y ∷ s)) ∙ e in
    let (line_is, left_is) = some_pair _ _ line left popped in
    (
      sym (take-append-drop (i + 2) (x ∷ y ∷ s)) ∙ ap₂ ◌++◌ line_is left_is,
      omega (arith, ap length left_is, length-drop (i + 2) (x ∷ y ∷ s)),
    )
