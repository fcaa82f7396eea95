-- ===== src/Str.antt =====
-- src/hpl_str.h: comparisons that ignore case, and the scan that the header parser uses.
pub mod Prefix
use httpoll.Prelude.{
  ℕ, zero, suc, ◌+◌, ◌-◌, Bool, true, false, ◌&&◌, [], ◌∷◌, ltb, leb, ◌==◌, if◌then◌else◌, Bytes,
  length, take, drop,
}

-- `std::tolower` in the "C" locale.
unfoldable pub to_lower : ℕ → ℕ
to_lower c = if leb b'A' c && leb c b'Z' then c + 32 else c

-- `std::equal` of two ranges, under the comparison that ignores case.
unfoldable pub icase_equal : Bytes → Bytes → Bool
unfolding to_lower
icase_equal [] [] = true
icase_equal (x ∷ xs) (y ∷ ys) = to_lower x == to_lower y && icase_equal xs ys
icase_equal _ _ = false

unfoldable pub icase_cmp : Bytes → Bytes → Bool
unfolding icase_equal
icase_cmp s1 s2 =
    let distance = if ltb (length s1) (length s2) then length s1 else length s2 in
    icase_equal (take distance s1) (take distance s2)

-- `std::search` from the start of a range: the offset of the first match, or the range's length.
search_from : Bytes → Bytes → ℕ
unfolding icase_equal
search_from [] s2 = 0
search_from (x ∷ xs) s2 =
    let rest = suc (search_from xs s2) in
    if leb (length s2) (suc (length xs)) && icase_equal (take (length s2) (x ∷ xs)) s2
    then 0
    else rest

-- The position of the iterator that is returned; `length s1` is `s1.end()`.
pub icase_find : Bytes → ℕ → Bytes → ℕ
unfolding search_from
icase_find s1 s1_off s2 = s1_off + search_from (drop s1_off s1) s2
