-- ===== src/Response/Status.antt =====
-- `MakeResponse` always has a status of its table.
use httpoll.Prelude.{
  ℤ, pos, negsuc, ℕ, zero, suc, ◌-◌, ◌/◌, ◌%◌, ◌≤◌, ◌<◌, ◌≡◌, ◌⊎◌, refl, sym, ap, ◌∙◌, inl, inr,
  none, ◌||◌, some, List, [], ◌∷◌, ◌++◌, arith, leb, ltb, Bytes, codes, length, get_elem?,
  Bool-cases,
}
use mathlib.Core.Path.{subst}
use httpoll.Version.{HttpVersion}
use httpoll.Response.{
  status_messages, in_range, with_message, message_of, effective_status, header_lines, body_part,
  status_line, make_response,
}

get_elem?-some : (xs : List Bytes) (i : ℕ) → i < length xs → (x : Bytes) × (get_elem? xs i ≡ some x)
get_elem?-some [] i h = absurd (omega arith)
get_elem?-some (x ∷ xs) zero h = (x, refl)
get_elem?-some (x ∷ xs) (suc i) h = get_elem?-some xs i (omega arith)

row_some : (i : ℕ) → i < 5 → (row : List Bytes) × (get_elem? status_messages i ≡ some row)
row_some zero h = (_, refl)
row_some (suc zero) h = (_, refl)
row_some (suc (suc zero)) h = (_, refl)
row_some (suc (suc (suc zero))) h = (_, refl)
row_some (suc (suc (suc (suc zero)))) h = (_, refl)
row_some (suc (suc (suc (suc (suc i))))) h = absurd (omega arith)

in_range-bounds : (status : ℤ) → (100 ≤ in_range status) × (in_range status < 600)
unfolding in_range
in_range-bounds (negsuc n) = (omega arith, omega arith)
in_range-bounds (pos n) = ground arith

-- A status that the table has no message for.
abbrev pub Unlisted : ℤ → Type 0
Unlisted (negsuc n) = Unit
Unlisted (pos s) = (s < 100) ⊎ (message_of s ≡ none)

get_elem?-none {ℓ} : {A : Type ℓ} (xs : List A) (i : ℕ) → length xs ≤ i → get_elem? xs i ≡ none
get_elem?-none [] i h = refl
get_elem?-none (x ∷ xs) zero h = absurd (omega arith)
get_elem?-none (x ∷ xs) (suc i) h = get_elem?-none xs i (omega arith)

-- A status with a message, or 500.
settled :
    (s : ℕ)
    → 100 ≤ s
    → s < 600
    → (status : ℕ) × (message : Bytes) × (with_message s ≡ some status)
      × (message_of status ≡ some message)
      × ((status ≡ s) ⊎ (status ≡ 500) × (message_of s ≡ none))
unfolding with_message message_of
settled s h k =
    let (row, found) = row_some (s / 100 - 1) (omega arith) in
    elim (Bool-cases (leb (length row) (s % 100))) [
      | inl t ↦
          let missing = get_elem?-none row (s % 100) (ground arith) in
          (
            500,
            codes "Internal Server Error",
            rw (found, with_message) (rw t refl),
            refl,
            inr (refl, rw (found, message_of) missing),
          )
      | inr t ↦
          let (message, there) = get_elem?-some row (s % 100) (ground arith) in
          (s, message, rw (found, with_message) (rw t refl), rw (found, message_of) there, inl refl)
    ]

above : (n : ℕ) → 600 ≤ n → message_of n ≡ none
unfolding message_of
above n h =
    let off : get_elem? status_messages (n / 100 - 1) ≡ none =
      get_elem?-none status_messages (n / 100 - 1) (omega arith) in
    rw (off, message_of) refl

in_range-or_500 :
    (given : ℤ) → (given ≡ pos (in_range given)) ⊎ (in_range given ≡ 500) × Unlisted given
unfolding in_range
in_range-or_500 (negsuc n) = inr (refl, tt)
in_range-or_500 (pos n) = elim (Bool-cases (ltb n 100 || ltb 599 n)) [
  | inl t ↦ elim (Bool-cases (ltb n 100)) [
    | inl low ↦ inr (rw t refl, inl (ground arith))
    | inr high ↦ inr (rw t refl, inr (above n (ground arith)))
  ]
  | inr t ↦ inl (rw t refl)
]

chosen :
    (given : ℤ) (s status : ℕ)
    → in_range given ≡ s
    → ((status ≡ s) ⊎ (status ≡ 500) × (message_of s ≡ none))
    → (given ≡ pos status) ⊎ (status ≡ 500) × Unlisted given
chosen given s status e (inl same) = elim (in_range-or_500 given) [
  | inl own ↦ inl (own ∙ ap pos (e ∙ sym same))
  | inr (five, off) ↦ inr (same ∙ sym e ∙ five, off)
]
chosen given s status e (inr (five, missing)) = elim (in_range-or_500 given) [
  | inl own ↦ inr (five, subst Unlisted (sym own) (inr (ap message_of e ∙ missing)))
  | inr (_, off) ↦ inr (five, off)
]

-- Whatever number is given, the response is a status line, the fields and the body's part, and its
-- status has a message in the table; it is the one given, or 500 where the table lacks that.
pub make_response_lem :
    (format : ℕ → Bytes) (given : ℤ) (version : HttpVersion) (fields : List (Bytes × Bytes))
    (body : Bytes)
    → (status : ℕ) × (message : Bytes) × (message_of status ≡ some message)
      × ((given ≡ pos status) ⊎ (status ≡ 500) × Unlisted given)
      × (make_response format given version fields body
          ≡ some (
              status_line format version status message
              ++ (header_lines fields ++ body_part format body)))
unfolding make_response effective_status
make_response_lem format given version fields body =
    let (low, high) = in_range-bounds given in
    let (status, message, settles, listed, which) = settled (in_range given) low high in
    (
      status,
      message,
      listed,
      chosen given (in_range given) status refl which,
      rw (settles, make_response) (rw (listed, make_response) refl),
    )
