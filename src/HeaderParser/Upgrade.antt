-- ===== src/HeaderParser/Upgrade.antt =====
-- The `do` loop of the `Upgrade:` header.
use httpoll.Prelude.{
  ℕ, zero, suc, ◌+◌, ◌-◌, ◌≤◌, ◌<◌, ◌≡◌, ◌↔◌, ◌⊎◌, refl, sym, ap, ◌∙◌, inl, inr, Bool, true, false,
  not, ◌||◌, some, [], ◌∷◌, ◌++◌, arith, ◌==◌, Bytes, codes, length, drop, length-drop,
  length-append, All, Bool-cases,
}
use native.Mathlib.Decide.{dec_lt, ℕ_discrete}
use httpoll.Scan.Cursor.{next_char-end, find_pos-le}
use httpoll.Str.{icase_cmp}
use httpoll.Scan.{find_pos, next_char}
use mathlib.Core.Bool.{or-false}
use httpoll.Str.{icase_equal}
use httpoll.Str.Prefix.{length-icase_equal}
use httpoll.HeaderParser.Types.{HttpHeaderParser, headers}
use httpoll.HeaderParser.Names.{upgrade, push_line-name}
use httpoll.HeaderParser.{push_line, not_blank, view_from, upgrade_round, upgrade_loop}

-- The word, as far as the view goes, stands at a position of the line.
abbrev word_at : Bytes → ℕ → Bool
word_at line k = icase_cmp (view_from line k) (codes "websocket")

abbrev pub WordAt : Bytes → ℕ → Type 0
WordAt line k = word_at line k ≡ true

-- At one of the `n` positions from `k` on.
any_from : Bytes → ℕ → ℕ → Bool
any_from line zero k = false
any_from line (suc n) k = word_at line k || any_from line n (k + 1)

any_from_iff :
    (line : Bytes) (n k : ℕ)
    → (any_from line n k ≡ true) ↔ ((j : ℕ) × (k ≤ j) × (j < k + n) × WordAt line j)
unfolding any_from
any_from_iff line zero k = ((λ e. cc), λ t. absurd (omega (arith, t.1, t.2)))
any_from_iff line (suc n) k = elim (Bool-cases (word_at line k)) [
  | inl t ↦ ((λ e. (k, omega arith, omega arith, t)), λ w. rw t refl)
  | inr t ↦
      let ih = any_from_iff line n (k + 1) in
      (
        (λ e. let (j, a, b, w) = ih.0 (rw t at e) in (j, omega arith, omega arith, w)),
        (λ w. rw t (ih.1 (later line n k t w))),
      )
]
  where
    later :
        (line : Bytes) (n k : ℕ)
        → word_at line k ≡ false
        → (j : ℕ) × (k ≤ j) × (j < k + suc n) × WordAt line j
        → (j : ℕ) × (k + 1 ≤ j) × (j < k + 1 + n) × WordAt line j
    later line n k t (j, a, b, w) = elim (ℕ_discrete k j) [
      | yes e ↦ cc (ap (word_at line) e)
      | no ne ↦ (j, omega arith, omega arith, w)
    ]

abbrev any_byte : ℕ → Bool
any_byte c = not_blank c || not (c == b'\r') || not (c == b'\n')

find_pos-any : (s : Bytes) → find_pos any_byte s ≡ 0
unfolding find_pos
find_pos-any [] = refl
find_pos-any (x ∷ s) = ground arith

-- The predicate of the loop holds of every byte, so the iterator moves by one.
next_char-any : (line : Bytes) (off : ℕ) → off ≤ length line → next_char line off any_byte ≡ off
unfolding next_char
next_char-any line off h = ground (arith, find_pos-any (drop off line))

next_char_bounds :
    (line : Bytes) (off : ℕ) (pred : ℕ → Bool)
    → off ≤ length line
    → (off ≤ next_char line off pred) × (next_char line off pred ≤ length line)
unfolding next_char
next_char_bounds line off pred h =
    ground (arith, find_pos-le pred (drop off line), length-drop off line)

-- The three outcomes of a round.
module _ (line : Bytes) (iter : ℕ) (flag : Bool) where
  round_end : length line ≤ iter + 1 → upgrade_round line iter flag ≡ (length line, flag)
  unfolding upgrade_round
  round_end h =
      let same : (length line == length line) ≡ true = ground arith in
      rw (next_char-end line (iter + 1) any_byte h, same) refl

  round_found :
      iter + 1 < length line
      → WordAt line (iter + 1)
      → upgrade_round line iter flag ≡ (next_char line (iter + 1 + 1) (λ c. c == b','), true)
  unfolding upgrade_round
  round_found h w =
      let inside : (iter + 1 == length line) ≡ false = ground arith in
      rw (next_char-any line (iter + 1) (omega arith), inside, w) refl

  round_other :
      iter + 1 < length line
      → word_at line (iter + 1) ≡ false
      → upgrade_round line iter flag ≡ (iter + 1, flag)
  unfolding upgrade_round
  round_other h w =
      let inside : (iter + 1 == length line) ≡ false = ground arith in
      rw (next_char-any line (iter + 1) (omega arith), inside, w) refl

  -- The positions still to come, where the iterator has not met the end.
  positions :
      iter + 1 < length line
      → any_from line (length line - suc iter) (iter + 1)
        ≡ (word_at line (iter + 1) || any_from line (length line - suc (iter + 1)) (iter + 1 + 1))
  unfolding any_from
  positions h =
      let n : length line - suc iter ≡ suc (length line - suc (iter + 1)) = omega arith in rw n refl

or-true_left : (b : Bool) → (b || true) ≡ true
or-true_left true = refl
or-true_left false = refl

-- The loop ends, and its flag says whether the word was found at a position behind `iter`.
upgrade_loop_lem :
    (fuel : ℕ) (line : Bytes) (iter : ℕ) (flag : Bool)
    → length line < fuel + iter
    → 0 < fuel
    → upgrade_loop fuel line iter flag
      ≡ some (flag || any_from line (length line - suc iter) (iter + 1))
unfolding upgrade_loop
upgrade_loop_lem zero line iter flag h k = absurd (omega arith)
upgrade_loop_lem (suc fuel) line iter flag h k = elim (dec_lt (iter + 1) (length line)) [
  | no last ↦
      let none_left : length line - suc iter ≡ 0 = omega arith in
      let same : (length line == length line) ≡ true = ground arith in
      rw (round_end line iter flag (omega arith), same, none_left)
        (ap some (sym (unfold any_from in or-false flag)))
  | yes inside ↦ elim (Bool-cases (word_at line (iter + 1))) [
    | inl found ↦
        let comma = λ (c : ℕ). c == b',' in
        let next = next_char line (iter + 1 + 1) comma in
        let bounds = next_char_bounds line (iter + 1 + 1) comma (omega arith) in
        rw
          (
            round_found line iter flag inside found,
            positions line iter flag inside,
            found,
            or-true_left flag,
          )
          (elim (Bool-cases (next == length line)) [
            | inl stop ↦ rw stop refl
            | inr go ↦
                rw go (upgrade_loop_lem fuel line next true (omega arith) (omega (arith, bounds)))
          ])
    | inr other ↦
        let inside' : (iter + 1 == length line) ≡ false = ground arith in
        rw
          (round_other line iter flag inside other, inside', positions line iter flag inside, other)
          (upgrade_loop_lem fuel line (iter + 1) flag (omega arith) (omega arith))
  ]
]

or_iff : (a b : Bool) {P : Type 0} → (b ≡ true) ↔ P → ((a || b) ≡ true) ↔ ((a ≡ true) ⊎ P)
or_iff true b h = ((λ e. inl refl), λ e. refl)
or_iff false b h = ((λ e. inr (h.0 e)), elim [ inl e ↦ cc | inr w ↦ h.1 w ])

tail_iff :
    (line : Bytes)
    → (any_from line (length line - 9) 9 ≡ true)
      ↔ ((k : ℕ) × (9 ≤ k) × (k < length line) × WordAt line k)
tail_iff line =
    let within = any_from_iff line (length line - 9) 9 in
    (
      (λ e. let (k, a, b, w) = within.0 e in (k, a, omega arith, w)),
      (λ t. let (k, a, b, w) = t in within.1 (k, a, omega arith, w)),
    )

-- In the state `Headers`, on a line that begins with `Upgrade:` in any case, with more rounds than the line
-- has bytes, the loop ends and only the flag changes. It is set afterwards exactly if it was set
-- before or the word `websocket` (or as much of it as there is before the line's end or a NUL)
-- stands at position 9 or later: the byte right behind the colon is passed over.
pub push_line-upgrade :
    (fuel : ℕ) (past : ℕ → ℕ) (p : HttpHeaderParser) (spelled rest : Bytes)
    → p.state ≡ headers
    → All (λ c. (c == 0) ≡ false) spelled
    → icase_equal spelled (codes "upgrade:") ≡ true
    → length (spelled ++ rest) < fuel
    → (flag : Bool) × (push_line fuel past p (spelled ++ rest)
        ≡ some (record p { upgrade_websocket = flag }))
      × ((flag ≡ true) ↔ (
          (p.upgrade_websocket ≡ true)
          ⊎ ((k : ℕ) × (9 ≤ k) × (k < length (spelled ++ rest)) × WordAt (spelled ++ rest) k)))
push_line-upgrade fuel past p spelled rest s nul h enough =
    let line = spelled ++ rest in
    let n : 8 ≤ length line =
      omega (arith, length-icase_equal spelled (codes "upgrade:") h, length-append spelled rest) in
    let flag = p.upgrade_websocket || any_from line (length line - 9) 9 in
    (
      flag,
      push_line-name spelled rest nul upgrade fuel past p s h
          ∙ rw (upgrade_loop_lem fuel line 8 p.upgrade_websocket (omega arith) (omega arith)) refl,
      or_iff p.upgrade_websocket _ (tail_iff line),
    )
