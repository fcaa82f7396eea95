-- ===== src/HeaderParser/Connection/Loop.antt =====
-- The `do` loop of the `Connection:` header over a list of tokens.
use httpoll.Prelude.{
  ℕ, zero, suc, ◌+◌, ◌≤◌, ◌<◌, ◌≡◌, refl, sym, ap, ◌∙◌, true, false, none, some, List, [], ◌∷◌,
  ◌++◌, append_assoc, arith, ◌==◌, Bytes, codes, All, length, length-append, c_string,
}
use native.Mathlib.Nat.{add-zero}
use httpoll.Str.{to_lower, icase_equal, icase_cmp}
use httpoll.Str.Prefix.{length-icase_equal}
use httpoll.Scan.{find_pos, next_char}
use httpoll.Scan.Cursor.{
  next_char-end, next_char-split, drop-split, find_pos-append, find_pos-here, c_string-append,
}
use httpoll.HeaderParser.Types.{ConnectionFlags}
use httpoll.HeaderParser.{not_blank, view_from, behind_comma, connection_round, connection_loop}
use httpoll.HeaderParser.Connection.{
  Token, upgrade, keep_alive, close, token_text, set_token, Item, IsItem, item_text, render,
  set_tokens, connection_round-token,
}

-- A token begins with no blank.
token_head :
    (t : Token) (spelled tail : Bytes)
    → icase_equal spelled (token_text t) ≡ true
    → find_pos not_blank (spelled ++ tail) ≡ 0
unfolding icase_equal to_lower find_pos
token_head upgrade [] tail h = cc
token_head keep_alive [] tail h = cc
token_head close [] tail h = cc
token_head upgrade (x ∷ xs) tail h = ground arith
token_head keep_alive (x ∷ xs) tail h = ground arith
token_head close (x ∷ xs) tail h = ground arith

token_text_pos : (t : Token) → 0 < length (token_text t)
token_text_pos upgrade = omega arith
token_text_pos keep_alive = omega arith
token_text_pos close = omega arith

-- Behind the end the loop stops.
loop_end :
    (line : Bytes) (at : ℕ) (flags : ConnectionFlags) (fuel : ℕ)
    → length line ≤ at
    → connection_loop (suc fuel) line at flags ≡ some flags
unfolding connection_loop
loop_end line at flags fuel h =
    let e : (length line == length line) ≡ true = ground arith in
    rw (next_char-end line at not_blank h, e) refl

-- The first round at an item of a line that is split there.
module _ (line pre : Bytes) (i : Item) (rest : Bytes) (at : ℕ) (valid : IsItem i)
    (split : line ≡ pre ++ item_text i rest) (here : at ≡ length pre) where
  split_blanks : line ≡ (pre ++ i.blanks) ++ (i.spelled ++ (i.behind ++ rest))
  split_blanks = split ∙ sym (append_assoc pre i.blanks _)

  split_token : line ≡ (pre ++ i.blanks ++ i.spelled) ++ (i.behind ++ rest)
  split_token = split_blanks ∙ sym (append_assoc (pre ++ i.blanks) i.spelled _)

  split_behind : line ≡ (pre ++ i.blanks ++ i.spelled ++ i.behind) ++ rest
  split_behind = split_token ∙ sym (append_assoc (pre ++ i.blanks ++ i.spelled) i.behind _)

  length_front :
      length (pre ++ i.blanks ++ i.spelled ++ i.behind)
      ≡ at + length i.blanks + length i.spelled + length i.behind
  length_front = omega (
    arith,
    length-append (pre ++ i.blanks ++ i.spelled) i.behind,
    length-append (pre ++ i.blanks) i.spelled,
    length-append pre i.blanks,
  )

  blank_end : next_char line at not_blank ≡ at + length i.blanks
  blank_end =
      next_char-split line pre _ at split here not_blank
      ∙ ap (λ n. at + n)
          (find_pos-append not_blank i.blanks _ valid.are_blank
            ∙ rw (token_head i.token i.spelled _ valid.spells) (add-zero _))

  view_at : view_from line (at + length i.blanks) ≡ i.spelled ++ c_string (i.behind ++ rest)
  view_at =
      ap c_string (
        drop-split line (pre ++ i.blanks) _ (at + length i.blanks) split_blanks
          (omega (arith, length-append pre i.blanks)))
      ∙ c_string-append i.spelled _ valid.no_nul

  comma_end :
      behind_comma line (at + length i.blanks + length i.spelled)
      ≡ at
        + length i.blanks
        + length i.spelled
        + (length i.behind + find_pos (λ c. c == b',') rest)
        + 1
  comma_end =
      ap (λ n. n + 1)
        (next_char-split line (pre ++ i.blanks ++ i.spelled) _ _ split_token
            (omega (arith, length-append pre i.blanks, length-append (pre ++ i.blanks) i.spelled))
            (λ c. c == b',')
          ∙ rw (find_pos-append (λ c. c == b',') i.behind rest valid.no_comma) refl)

  not_end : (at + length i.blanks == length line) ≡ false
  not_end =
      let n : length line ≡ length (i.spelled ++ (i.behind ++ rest)) + at + length i.blanks =
        omega (
          arith,
          ap length split_blanks,
          length-append (pre ++ i.blanks) (i.spelled ++ (i.behind ++ rest)),
          length-append pre i.blanks,
        ) in
      let m : 0 < length i.spelled = omega (
        arith,
        length-icase_equal i.spelled (token_text i.token) valid.spells,
        token_text_pos i.token,
      ) in
      ground (arith, length-append i.spelled (i.behind ++ rest))

  -- Where an item stands the loop goes on behind the comma, with the item's flag set.
  item_step :
      (fuel : ℕ) (flags : ConnectionFlags)
      → connection_loop (suc fuel) line at flags
        ≡ connection_loop fuel line
            (at
              + length i.blanks
              + length i.spelled
              + (length i.behind + find_pos (λ c. c == b',') rest)
              + 1)
            (set_token i.token flags)
  unfolding connection_loop
  item_step fuel flags =
      rw
        (
          blank_end,
          not_end,
          connection_round-token i.token i.spelled _ line (at + length i.blanks) flags valid.spells
              view_at,
          comma_end,
        )
        refl

-- `Connection:` with a non-empty list of known tokens, separated by commas, in any case, with
-- blanks before each and anything but a comma behind it: with one round more than there are items
-- the loop ends, and has set exactly the flags of the tokens besides those that were set.
pub connection_loop-render :
    (js : List Item) (i : Item) (fuel : ℕ) (line pre : Bytes) (at : ℕ) (flags : ConnectionFlags)
    → IsItem i
    → All IsItem js
    → line ≡ pre ++ render i js
    → at ≡ length pre
    → suc (length js) < fuel
    → connection_loop fuel line at flags ≡ some (set_tokens i js flags)
connection_loop-render js i zero line pre at flags v vs split here enough = absurd (omega arith)
connection_loop-render js i (suc zero) line pre at flags v vs split here enough =
    absurd (omega arith)
connection_loop-render [] i (suc (suc fuel)) line pre at flags v vs split here enough =
    item_step line pre i [] at v split here (suc fuel) flags
    ∙ loop_end line _ (set_token i.token flags) fuel (
        omega (
          arith,
          ap length (split_behind line pre i [] at v split here),
          length-append (pre ++ i.blanks ++ i.spelled ++ i.behind) [],
          length_front line pre i [] at v split here,
        ))
connection_loop-render (j ∷ js) i (suc (suc fuel)) line pre at flags v vs split here enough =
    item_step line pre i (b',' ∷ render j js) at v split here (suc fuel) flags
    ∙ connection_loop-render js j (suc fuel) line
        (pre ++ i.blanks ++ i.spelled ++ i.behind ++ (b',' ∷ [])) _ (set_token i.token flags) vs.0
        vs.1
        (split_behind line pre i _ at v split here
          ∙ sym (append_assoc (pre ++ i.blanks ++ i.spelled ++ i.behind) (b',' ∷ []) (render j js)))
        (omega (
          arith,
          find_pos-here (λ c. c == b',') b',' (render j js) refl,
          length-append (pre ++ i.blanks ++ i.spelled ++ i.behind) (b',' ∷ []),
          length_front line pre i (b',' ∷ render j js) at v split here,
        ))
        (omega arith)

-- At a byte that is no blank and begins none of the known tokens the loop makes no progress.
pub connection_loop-stuck :
    (fuel : ℕ) (line : Bytes) (at : ℕ) (flags : ConnectionFlags)
    → next_char line at not_blank ≡ at
    → at < length line
    → icase_cmp (view_from line at) (codes "upgrade") ≡ false
    → icase_cmp (view_from line at) (codes "keep-alive") ≡ false
    → icase_cmp (view_from line at) (codes "close") ≡ false
    → connection_loop fuel line at flags ≡ none
unfolding connection_loop connection_round
connection_loop-stuck zero line at flags e h a b c = refl
connection_loop-stuck (suc fuel) line at flags e h a b c =
    let inside : (at == length line) ≡ false = ground arith in
    rw (e, inside, a, b, c) (connection_loop-stuck fuel line at flags e h a b c)
