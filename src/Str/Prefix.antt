-- ===== src/Str/Prefix.antt =====
-- What `icase_cmp` and `icase_find` decide.
use httpoll.Prelude.{
  ◌≤◌, ◌<◌, ◌≡◌, refl, ◌∙◌, ◌↔◌, Bool, true, ◌&&◌, [], ◌∷◌, arith, ltb, ◌==◌, Bytes, length, take,
  ◌++◌, length-append, take-all, take-append_self, Bool-cases, ltb→lt, ltb→le, inl, inr,
}
use mathlib.Core.List.{map}
use httpoll.Str.{to_lower, icase_equal, icase_cmp}

pub icase_equal_iff :
    (s1 s2 : Bytes) → (icase_equal s1 s2 ≡ true) ↔ (map to_lower s1 ≡ map to_lower s2)
unfolding icase_equal
icase_equal_iff [] [] = ground arith
icase_equal_iff [] (y ∷ ys) = ground arith
icase_equal_iff (x ∷ xs) [] = ground arith
icase_equal_iff (x ∷ xs) (y ∷ ys) = ground (arith, icase_equal_iff xs ys)

icase_cmp_takes :
    (s1 s2 : Bytes) → icase_cmp s1 s2 ≡ icase_equal (take (length s2) s1) (take (length s1) s2)
unfolding icase_cmp
icase_cmp_takes s1 s2 = elim (Bool-cases (ltb (length s1) (length s2))) [
  | inl h ↦
      let lt : length s1 < length s2 = ltb→lt _ _ h in
      rw (h, take-all (length s1) s1 (omega arith), take-all (length s2) s1 (omega arith)) refl
  | inr h ↦
      let le : length s2 ≤ length s1 = ltb→le _ _ h in
      rw (h, take-all (length s2) s2 (omega arith), take-all (length s1) s2 (omega arith)) refl
]

-- `icase_cmp` holds exactly when one text, in lower case, is a prefix of the other: the longer text
-- is cut to the length of the shorter one first.
pub icase_cmp_iff :
    (s1 s2 : Bytes)
    → (icase_cmp s1 s2 ≡ true)
      ↔ (map to_lower (take (length s2) s1) ≡ map to_lower (take (length s1) s2))
icase_cmp_iff s1 s2 =
    rw (icase_cmp_takes s1 s2) (icase_equal_iff (take (length s2) s1) (take (length s1) s2))

-- On a text that is long enough `icase_cmp` is a test of the prefix.
pub icase_cmp-append :
    (s1 s2 rest : Bytes) → length s1 ≡ length s2 → icase_cmp (s1 ++ rest) s2 ≡ icase_equal s1 s2
icase_cmp-append s1 s2 rest e =
    let n : length s2 ≤ length (s1 ++ rest) = omega (arith, length-append s1 rest) in
    icase_cmp_takes (s1 ++ rest) s2
    ∙ rw (take-all (length (s1 ++ rest)) s2 n, ← e, take-append_self s1 rest) refl

-- The same test by recursion: the texts agree as far as both go.
abbrev pub icase_prefix : Bytes → Bytes → Bool
icase_prefix [] s2 = true
icase_prefix (x ∷ xs) [] = true
icase_prefix (x ∷ xs) (y ∷ ys) = to_lower x == to_lower y && icase_prefix xs ys

icase_equal-take :
    (s1 s2 : Bytes) → icase_equal (take (length s2) s1) (take (length s1) s2) ≡ icase_prefix s1 s2
unfolding icase_equal
icase_equal-take [] [] = refl
icase_equal-take [] (y ∷ ys) = refl
icase_equal-take (x ∷ xs) [] = refl
icase_equal-take (x ∷ xs) (y ∷ ys) = rw (icase_equal-take xs ys) refl

pub icase_cmp-icase_prefix : (s1 s2 : Bytes) → icase_cmp s1 s2 ≡ icase_prefix s1 s2
icase_cmp-icase_prefix s1 s2 = icase_cmp_takes s1 s2 ∙ icase_equal-take s1 s2

-- Another spelling of the same word makes no difference.
pub icase_prefix_cong :
    (a b rest s : Bytes)
    → icase_equal a b ≡ true
    → icase_prefix (a ++ rest) s ≡ icase_prefix (b ++ rest) s
unfolding icase_equal
icase_prefix_cong [] [] rest s h = refl
icase_prefix_cong [] (y ∷ ys) rest s h = cc
icase_prefix_cong (x ∷ xs) [] rest s h = cc
icase_prefix_cong (x ∷ xs) (y ∷ ys) rest [] h = refl
icase_prefix_cong (x ∷ xs) (y ∷ ys) rest (z ∷ zs) h =
    ground (arith, icase_prefix_cong xs ys rest zs)

pub icase_prefix_self : (s rest : Bytes) → icase_prefix (s ++ rest) s ≡ true
icase_prefix_self [] [] = refl
icase_prefix_self [] (x ∷ rest) = refl
icase_prefix_self (x ∷ s) rest = ground (arith, icase_prefix_self s rest)

pub length-icase_equal : (s1 s2 : Bytes) → icase_equal s1 s2 ≡ true → length s1 ≡ length s2
unfolding icase_equal
length-icase_equal [] [] h = refl
length-icase_equal [] (y ∷ ys) h = cc
length-icase_equal (x ∷ xs) [] h = cc
length-icase_equal (x ∷ xs) (y ∷ ys) h = ground (arith, length-icase_equal xs ys)
