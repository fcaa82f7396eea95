-- ===== src/HeaderParser/ConnectionHeader.antt =====
-- The `Connection:` header as `PushLine` treats it.
use httpoll.Prelude.{
  ℕ, suc, ◌<◌, ◌≡◌, refl, sym, ap, ◌∙◌, true, false, none, some, List, [], ◌∷◌, ◌++◌, append_assoc,
  arith, ◌==◌, Bytes, codes, All, length, length-append, c_string,
}
use mathlib.Core.Option
use httpoll.Str.{icase_equal, icase_cmp}
use httpoll.Str.Prefix.{length-icase_equal}
use httpoll.Scan.{next_char}
use httpoll.Scan.Cursor.{next_char-split, drop-split, find_pos-here}
use httpoll.HeaderParser.Types.{HttpHeaderParser, headers}
use httpoll.HeaderParser.Names.{connection, push_line-name}
use httpoll.HeaderParser.Connection.{Item, IsItem, render, set_tokens}
use httpoll.HeaderParser.Connection.Loop.{connection_loop-render, connection_loop-stuck}
use httpoll.HeaderParser.{not_blank, view_from, push_line, connection_loop}

module _ (fuel : ℕ) (past : ℕ → ℕ) (p : HttpHeaderParser) (spelled : Bytes) (sep : ℕ)
    (in_headers : p.state ≡ headers) (no_nul : All (λ c. (c == 0) ≡ false) spelled)
    (spells : icase_equal spelled (codes "connection:") ≡ true) where
  to_loop :
      (rest : Bytes)
      → push_line fuel past p (spelled ++ sep ∷ rest)
        ≡ Option.map
            (λ f. record p { connection_flags = f })
            (connection_loop fuel (spelled ++ sep ∷ rest) 12 p.connection_flags)
  to_loop rest = push_line-name spelled (sep ∷ rest) no_nul connection fuel past p in_headers spells

  behind_name : (rest : Bytes) → spelled ++ sep ∷ rest ≡ (spelled ++ sep ∷ []) ++ rest
  behind_name rest = sym (append_assoc spelled (sep ∷ []) rest)

  name_length : 12 ≡ length (spelled ++ sep ∷ [])
  name_length = omega (
    arith,
    length-append spelled (sep ∷ []),
    length-icase_equal spelled (codes "connection:") spells,
  )

  -- In the state `Headers`, `Connection:` in any case, any one byte, and a non-empty list of known
  -- tokens separated by commas (any case, blanks before each, anything but a comma behind it): with
  -- two rounds more than there are further tokens, exactly the flags of those tokens are set
  -- besides the ones that were, and nothing else changes.
  pub push_line-connection :
      (i : Item) (js : List Item)
      → IsItem i
      → All IsItem js
      → suc (length js) < fuel
      → push_line fuel past p (spelled ++ sep ∷ render i js)
        ≡ some (record p { connection_flags = set_tokens i js p.connection_flags })
  push_line-connection i js v vs enough =
      to_loop (render i js)
      ∙ ap (Option.map (λ f. record p { connection_flags = f })) (
          connection_loop-render js i fuel _ (spelled ++ sep ∷ []) 12 p.connection_flags v vs
            (behind_name (render i js)) name_length enough)

  -- In the state `Headers`, `Connection:` in any case, any one byte, and then a byte that is no
  -- blank and begins none of the tokens that the code knows (compared as far as the text goes):
  -- `PushLine` does not return, however many rounds its loop is given.
  pub push_line-stuck :
      (x : ℕ) (rest : Bytes)
      → not_blank x ≡ true
      → icase_cmp (c_string (x ∷ rest)) (codes "upgrade") ≡ false
      → icase_cmp (c_string (x ∷ rest)) (codes "keep-alive") ≡ false
      → icase_cmp (c_string (x ∷ rest)) (codes "close") ≡ false
      → push_line fuel past p (spelled ++ sep ∷ x ∷ rest) ≡ none
  push_line-stuck x rest shown a b c =
      let line = spelled ++ sep ∷ x ∷ rest in
      let view : view_from line 12 ≡ c_string (x ∷ rest) =
        ap c_string
          (drop-split line (spelled ++ sep ∷ []) _ 12 (behind_name (x ∷ rest)) name_length) in
      let stays : next_char line 12 not_blank ≡ 12 =
        next_char-split line (spelled ++ sep ∷ []) _ 12 (behind_name (x ∷ rest)) name_length
          not_blank
        ∙ rw (find_pos-here not_blank x rest shown) refl in
      let inside : 12 < length line = omega (
        arith,
        ap length (behind_name (x ∷ rest)),
        length-append (spelled ++ sep ∷ []) (x ∷ rest),
        name_length,
      ) in
      to_loop (x ∷ rest)
      ∙ ap (Option.map (λ f. record p { connection_flags = f })) (
          connection_loop-stuck fuel line 12 p.connection_flags stays inside (rw view a) (rw view b)
            (rw view c))
