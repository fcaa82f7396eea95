-- ===== src/Connection/Request/Upload.antt =====
-- A body that arrives in segments of its own.
use httpoll.Prelude.{
  ℕ, suc, ◌+◌, ◌^◌, ◌≤◌, ◌<◌, ◌≡◌, refl, ap, ap₂, ◌∙◌, true, false, Option, none, some, List, [],
  ◌∷◌, leb, if◌then◌else◌, All, arith, Bytes, length, take, drop, min, take-all, drop-all,
  add_unsigned,
}
use httpoll.HeaderParser.Types.{HttpHeaderParser, body, done}
use httpoll.HeaderParser.{is_complete}
use httpoll.HeaderParser.States.{total, body_after}
use httpoll.Connection.{
  Connection, ProcessRet, need_body, complete, pop_line, pop_body, process_data_in, small_memory,
  state_ret, is_empty,
}
use httpoll.Connection.Body.{process_data_in-body_piece}
use httpoll.Connection.Request.OneSegment.{receives, received, read-receives}

-- A call of `ProcessDataIn` for each segment, as it comes, and what each gives to the handler: the result
-- and the text that can be popped.
pub upload :
    ℕ → ℕ → (ℕ → ℕ) → Connection → List Bytes → Option (List (ProcessRet × Bytes) × Connection)
upload rounds fuel past c [] = some ([], c)
upload rounds fuel past c (segment ∷ segments) =
    elim (process_data_in rounds fuel past (receives c segment)) [
      | none ↦ none
      | some (ret, d) ↦ elim (upload rounds fuel past d segments) [
        | none ↦ none
        | some (answers, last) ↦ some ((ret, pop_body d) ∷ answers, last)
      ]
    ]

-- Each segment as a part, and the last one as the end.
abbrev pub parts : List Bytes → List (ProcessRet × Bytes)
parts [] = []
parts (segment ∷ []) = (complete, segment) ∷ []
parts (segment ∷ next ∷ segments) = (need_body, segment) ∷ parts (next ∷ segments)

abbrev pub IsSegment : Bytes → Type 0
IsSegment segment =
    (0 < length segment) × (length segment ≤ small_memory) × (pop_line segment ≡ none)

not_empty : (s : Bytes) → 0 < length s → is_empty s ≡ false
not_empty [] h = absurd (omega arith)
not_empty (x ∷ s) h = refl

-- The parser when a segment has been counted.
abbrev counted : HttpHeaderParser → ℕ → ℕ → HttpHeaderParser
counted p n l = record p {
  body_length = p.body_length + n;
  state = if leb l (p.body_length + n) then done else body;
}

body_after-known :
    (p : HttpHeaderParser) (n l : ℕ)
    → p.content_length ≡ some l
    → p.body_length + n < 2 ^ 32
    → body_after p n ≡ counted p n l
body_after-known p n l known fits =
    let sum : add_unsigned p.body_length n ≡ p.body_length + n = omega arith in
    rw sum (
      ap
        (λ cl. record p {
          body_length = p.body_length + n;
          state = if is_complete cl (p.body_length + n) then done else body;
        })
        known)

-- What a call leaves.
abbrev left_by : Connection → Bytes → Bytes → Bytes → HttpHeaderParser → ProcessRet × Connection
left_by c segment popped rest p = (
  state_ret p.state,
  record (received c segment) { partial_body = popped; buffer = rest; parser = p },
)

module _ (rounds fuel : ℕ) (past : ℕ → ℕ) where
  -- One segment.
  upload_one :
      (c : Connection) (segment : Bytes) (l : ℕ)
      → IsSegment segment
      → c.parser.state ≡ body
      → c.parser.content_length ≡ some l
      → c.parser.body_length + length segment < 2 ^ 32
      → process_data_in (suc rounds) fuel past (receives c segment)
        ≡ some (left_by c segment segment [] (counted c.parser (length segment) l))
  upload_one c segment l (some_text, short, no_line) in_body known fits =
      let n = min (length segment) 1024 in
      let whole : take n segment ≡ segment = take-all n segment (omega arith) in
      let nothing : drop n segment ≡ [] = drop-all n segment (omega arith) in
      (process_data_in-body_piece rounds fuel past (receives c segment) (received c segment)
        (read-receives c segment some_text short) in_body no_line (not_empty segment some_text)).0
      ∙ ap₂ (λ x y. some (left_by c segment x y (body_after c.parser (length x)))) whole nothing
      ∙ ap (λ p. some (left_by c segment segment [] p))
          (body_after-known c.parser (length segment) l known fits)

  -- A body that comes in segments of up to SMALL_MEMORY bytes, none with CR LF in it, each after the last
  -- has been read: `ProcessDataIn` returns 0 for each but the last and 1 for that, and what the handler can
  -- pop is each time that segment; so it is given the whole body, in order, and is told of its end.
  pub upload-parts :
      (segments : List Bytes) (c : Connection) (l : ℕ)
      → All IsSegment segments
      → c.parser.state ≡ body
      → c.parser.content_length ≡ some l
      → c.parser.body_length < l
      → l < 2 ^ 32
      → c.parser.body_length + total segments ≡ l
      → (d : Connection) × (upload (suc rounds) fuel past c segments ≡ some (parts segments, d))
        × (d.parser.state ≡ done)
  unfolding upload state_ret pop_body
  upload-parts [] c l ok in_body known less fits sum = absurd (omega arith)
  upload-parts (segment ∷ []) c l ok in_body known less fits sum =
      let n = length segment in
      let d = (left_by c segment segment [] (counted c.parser n l)).1 in
      let all_here : leb l (c.parser.body_length + n) ≡ true = ground arith in
      let ends : (counted c.parser n l).state ≡ done = rw all_here refl in
      (
        d,
        rw (upload_one c segment l ok.0 in_body known (omega arith), upload)
            (ap (λ s. some ((state_ret s, segment) ∷ [], d)) ends),
        ends,
      )
  upload-parts (segment ∷ next ∷ segments) c l ok in_body known less fits sum =
      let n = length segment in
      let d = (left_by c segment segment [] (counted c.parser n l)).1 in
      let not_yet : leb l (c.parser.body_length + n) ≡ false = ground (arith, ok.1.0) in
      let stays : (counted c.parser n l).state ≡ body = rw not_yet refl in
      let (last, rest, ends) =
        upload-parts (next ∷ segments) d l ok.1 stays known (omega (arith, ok.1.0)) fits
          (omega arith) in
      (
        last,
        rw (upload_one c segment l ok.0 in_body known (omega (arith, ok.1.0)), upload)
            (rw rest
              (ap (λ s. some ((state_ret s, segment) ∷ parts (next ∷ segments), last)) stays)),
        ends,
      )
