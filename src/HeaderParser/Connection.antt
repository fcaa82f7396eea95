-- ===== src/HeaderParser/Connection.antt =====
-- The tokens of the `Connection:` header, lists of them, and the round of the loop at a token.
pub mod Loop
use httpoll.Prelude.{
  ℕ, zero, suc, ◌+◌, ◌-◌, ◌≤◌, ◌<◌, ◌≡◌, ◌≢◌, refl, sym, ap, ◌∙◌, inl, inr, Bool, true, false, not,
  Option, none, some, List, [], ◌∷◌, ◌++◌, append_assoc, append-nil, arith, leb, ◌==◌,
  if◌then◌else◌, Bytes, codes, All, All-append, length, take, drop, length-append, drop-append_self,
  c_string,
}
use native.Mathlib.Nat.{add-zero}
use httpoll.Str.{to_lower, icase_equal, icase_cmp}
use httpoll.Str.Prefix.{
  icase_prefix, icase_cmp-icase_prefix, icase_prefix_cong, icase_prefix_self, length-icase_equal,
}
use httpoll.Scan.{find_pos, next_char}
use httpoll.Scan.Cursor.{
  next_char-append, next_char-end, next_char-split, drop-split, find_pos-append, find_pos-here,
  c_string-append,
}
use httpoll.HeaderParser.Types.{ConnectionFlags}
use httpoll.HeaderParser.{not_blank, view_from, behind_comma, connection_round, connection_loop}

-- The tokens with a meaning.
pub data Token : Type 0 where
  upgrade keep_alive close : Token

abbrev pub token_text : Token → Bytes
token_text upgrade = codes "upgrade"
token_text keep_alive = codes "keep-alive"
token_text close = codes "close"

abbrev pub set_token : Token → ConnectionFlags → ConnectionFlags
set_token upgrade f = record f { upgrade = true }
set_token keep_alive f = record f { keep_alive = true }
set_token close f = record f { close = true }

-- A token in any case, blanks before it, and what stands behind it up to the comma.
pub record Item : Type 0 where
  pub blanks : Bytes
  pub token : Token
  pub spelled : Bytes
  pub behind : Bytes

pub record IsItem (i : Item) : Type 0 where
  pub are_blank : All (λ c. not_blank c ≡ false) i.blanks
  pub spells : icase_equal i.spelled (token_text i.token) ≡ true
  pub no_nul : All (λ c. (c == 0) ≡ false) i.spelled
  pub no_comma : All (λ c. (c == b',') ≡ false) i.behind

-- The text of a comma-separated list of items.
abbrev pub item_text : Item → Bytes → Bytes
item_text i rest = i.blanks ++ (i.spelled ++ (i.behind ++ rest))

abbrev pub render : Item → List Item → Bytes
render i [] = item_text i []
render i (j ∷ js) = item_text i (b',' ∷ render j js)

abbrev pub set_tokens : Item → List Item → ConnectionFlags → ConnectionFlags
set_tokens i [] f = set_token i.token f
set_tokens i (j ∷ js) f = set_tokens j js (set_token i.token f)

-- A view that begins with some spelling of a word is compared as the word.
pub icase_cmp_spelled :
    (spelled word view s : Bytes) {text : Bytes}
    → icase_equal spelled word ≡ true
    → text ≡ spelled ++ view
    → icase_cmp text s ≡ icase_prefix (word ++ view) s
icase_cmp_spelled spelled word view s h e =
    icase_cmp-icase_prefix _ s ∙ rw e (icase_prefix_cong spelled word view s h)

-- The round at a token sets its flag, and goes on behind the comma.
pub connection_round-token :
    (t : Token) (spelled view : Bytes) (line : Bytes) (at : ℕ) (flags : ConnectionFlags)
    → icase_equal spelled (token_text t) ≡ true
    → view_from line at ≡ spelled ++ view
    → connection_round line at flags ≡ (behind_comma line (at + length spelled), set_token t flags)
unfolding connection_round to_lower
connection_round-token upgrade spelled view line at flags h e =
    rw
      (
        icase_cmp_spelled spelled (codes "upgrade") view (codes "upgrade") h e,
        icase_prefix_self (codes "upgrade") view,
        length-icase_equal spelled (codes "upgrade") h,
      )
      refl
connection_round-token keep_alive spelled view line at flags h e =
    rw
      (
        icase_cmp_spelled spelled (codes "keep-alive") view (codes "upgrade") h e,
        icase_cmp_spelled spelled (codes "keep-alive") view (codes "keep-alive") h e,
        icase_prefix_self (codes "keep-alive") view,
        length-icase_equal spelled (codes "keep-alive") h,
      )
      refl
connection_round-token close spelled view line at flags h e =
    rw
      (
        icase_cmp_spelled spelled (codes "close") view (codes "upgrade") h e,
        icase_cmp_spelled spelled (codes "close") view (codes "keep-alive") h e,
        icase_cmp_spelled spelled (codes "close") view (codes "close") h e,
        icase_prefix_self (codes "close") view,
        length-icase_equal spelled (codes "close") h,
      )
      refl
