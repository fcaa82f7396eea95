-- ===== src/BroadcastGroup/Descriptors.antt =====
-- The descriptors that a group opens and closes in its life.
mod Tests
use httpoll.Prelude.{
  ℕ, ◌+◌, ◌≡◌, refl, sym, ap, ap₂, ◌∙◌, inl, inr, true, false, Option, none, some, List, [], ◌∷◌,
  ◌++◌, ◌==◌, if◌then◌else◌, Bool-cases, Option-cases, arith, length,
}
use mathlib.Core.Path.{subst}
use httpoll.BroadcastGroup.{
  Call, close_call, Member, BroadcastGroup, construct, destroy, close_if, close_members, join,
  leave, take_out,
}

abbrev pub count : ℕ → List ℕ → ℕ
count d [] = 0
count d (x ∷ xs) = let rest = count d xs in if x == d then 1 + rest else rest

pub count-append : (d : ℕ) (xs ys : List ℕ) → count d (xs ++ ys) ≡ count d xs + count d ys
count-append d [] ys = omega arith
count-append d (x ∷ xs) ys = ground (arith, count-append d xs ys)

-- The descriptors that calls close.
abbrev pub closed_by : List Call → List ℕ
closed_by [] = []
closed_by (close_call d ∷ cs) = d ∷ closed_by cs
closed_by (_ ∷ cs) = closed_by cs

closed_by-append : (cs ds : List Call) → closed_by (cs ++ ds) ≡ closed_by cs ++ closed_by ds
closed_by-append [] ds = refl
closed_by-append (Call.write_call w xs ∷ cs) ds = closed_by-append cs ds
closed_by-append (Call.tee_call r w n ∷ cs) ds = closed_by-append cs ds
closed_by-append (Call.splice_call r w n ∷ cs) ds = closed_by-append cs ds
closed_by-append (Call.splice_socket_call r c n ∷ cs) ds = closed_by-append cs ds
closed_by-append (close_call d ∷ cs) ds = ap (◌∷◌ d) (closed_by-append cs ds)

-- What is asked of a group: `Join` with what pipe(2) will give, or `Leave`.
pub data Request : Type 0 where
  joins : Option ℕ → Option (ℕ × ℕ) → Request
  leaves : ℕ → Request

-- The two ends of a pipe; a null connection is refused before pipe(2) is called.
abbrev pub ends : Option (ℕ × ℕ) → List ℕ
ends none = []
ends (some (r, w)) = r ∷ w ∷ []

abbrev pub opened_by : List Request → List ℕ
opened_by [] = []
opened_by (joins none pipes ∷ requests) = opened_by requests
opened_by (joins (some connection) pipes ∷ requests) = ends pipes ++ opened_by requests
opened_by (leaves connection ∷ requests) = opened_by requests

-- All calls of the requests, and the group afterwards.
pub serve : List Request → BroadcastGroup → List Call × BroadcastGroup
serve [] g = ([], g)
serve (joins connection pipes ∷ requests) g = serve requests (join connection pipes g).1
serve (leaves connection ∷ requests) g =
    let (_, calls, g') = leave connection g in
    let (later, last) = serve requests g' in (calls ++ later, last)

-- The descriptors that a group holds are those that its destructor closes.
abbrev held : BroadcastGroup → List ℕ
held g = closed_by (destroy g)

some_member :
    (m n : Member) (ms ns : List Member)
    → ◌≡◌ {A = Option (Member × List Member)} (some (m, ms)) (some (n, ns))
    → (m ≡ n) × (ms ≡ ns)
some_member m n ms ns e = (cc, cc)

module _ (d : ℕ) where
  abbrev in_members : List Member → ℕ
  in_members ms = count d (closed_by (close_members ms))

  in_members-cons :
      (n : Member) (ms : List Member) → in_members (n ∷ ms) ≡ in_members (n ∷ []) + in_members ms
  unfolding close_members
  in_members-cons n ms = ground arith

  members-append :
      (ms : List Member) (m : Member)
      → in_members (ms ++ m ∷ []) ≡ in_members ms + in_members (m ∷ [])
  unfolding close_members
  members-append [] m = omega arith
  members-append (n ∷ ms) m = ground (arith, members-append ms m)

  members-take_out :
      (connection : ℕ) (ms rest : List Member) (m : Member)
      → take_out connection ms ≡ some (m, rest)
      → in_members ms ≡ in_members (m ∷ []) + in_members rest
  unfolding take_out
  members-take_out connection [] rest m e = cc
  members-take_out connection (n ∷ ms) rest m e = elim (Bool-cases (n.connection == connection)) [
    | inl t ↦
        let (m_is, rest_is) = some_member n m ms rest (rw t at e) in
        in_members-cons n ms ∙ ap₂ (λ a b. in_members (a ∷ []) + in_members b) m_is rest_is
    | inr t ↦ elim (Option-cases (take_out connection ms)) [
      | inl q ↦ cc (rw (t, q) at e)
      | inr ((found, others), q) ↦
          let (m_is, rest_is) = some_member found m (n ∷ others) rest (rw (t, q) at e) in
          let later = members-take_out connection ms others found q in
          let split : in_members (n ∷ ms) ≡ in_members (found ∷ []) + in_members (n ∷ others) =
            omega (arith, in_members-cons n ms, in_members-cons n others) in
          split ∙ ap₂ (λ a b. in_members (a ∷ []) + in_members b) m_is rest_is
    ]
  ]

  count-held :
      (g : BroadcastGroup)
      → count d (held g)
        ≡ count d (closed_by (close_if g.pipe_read))
          + count d (closed_by (close_if g.pipe_write))
          + in_members g.connections
  unfolding destroy
  count-held g = omega (
    arith,
    ap (count d) (
        closed_by-append (close_if g.pipe_read)
          (close_if g.pipe_write ++ close_members g.connections)),
    ap (count d) (closed_by-append (close_if g.pipe_write) (close_members g.connections)),
    count-append d (closed_by (close_if g.pipe_read))
        (closed_by (close_if g.pipe_write ++ close_members g.connections)),
    count-append d (closed_by (close_if g.pipe_write)) (closed_by (close_members g.connections)),
  )

  construct-count :
      (first : Option (ℕ × ℕ)) → count d (ends first) ≡ count d (held (construct first))
  unfolding construct destroy close_if close_members
  construct-count none = refl
  construct-count (some (r, w)) = refl

  join-count :
      (connection r w : ℕ) (g : BroadcastGroup)
      → let g' = (join (some connection) (some (r, w)) g).1 in
        count d (ends (some (r, w))) + count d (held g) ≡ count d (held g')
  unfolding join close_members
  join-count connection r w g =
      let m : Member = record { read_end = r; write_end = w; connection = connection } in
      let g' = record g { connections = g.connections ++ m ∷ [] } in
      omega (arith, count-held g, count-held g', members-append g.connections m)

  leave-count :
      (connection : ℕ) (g : BroadcastGroup)
      → let (_, calls, g') = leave connection g in
        count d (held g) ≡ count d (closed_by calls) + count d (held g')
  unfolding leave close_members
  leave-count connection g = elim (Option-cases (take_out connection g.connections)) [
    | inl q ↦ rw (q, leave) (omega arith)
    | inr ((m, rest), q) ↦
        rw (q, leave)
          (omega (
            arith,
            count-held g,
            count-held (record g { connections = rest }),
            members-take_out connection g.connections rest m q,
          ))
  ]

  serve-count :
      (requests : List Request) (g : BroadcastGroup)
      → let (calls, g') = serve requests g in
        count d (opened_by requests) + count d (held g)
        ≡ count d (closed_by calls) + count d (held g')
  unfolding serve join
  serve-count [] g = refl
  serve-count (joins none pipes ∷ requests) g = serve-count requests g
  serve-count (joins (some connection) none ∷ requests) g = serve-count requests g
  serve-count (joins (some connection) (some (r, w)) ∷ requests) g =
      let g' = (join (some connection) (some (r, w)) g).1 in
      omega (
        arith,
        count-append d (r ∷ w ∷ []) (opened_by requests),
        join-count connection r w g,
        serve-count requests g',
      )
  serve-count (leaves connection ∷ requests) g =
      let (_, calls, g') = leave connection g in
      let (later, last) = serve requests g' in
      omega (
        arith,
        ap (count d) (closed_by-append calls later),
        count-append d (closed_by calls) (closed_by later),
        leave-count connection g,
        serve-count requests g',
      )

-- No descriptor is leaked or closed twice: from the constructor to the destructor, whatever `Join`s and
-- `Leave`s come between and whatever pipe(2) gives, every descriptor is closed exactly as often as
-- a pipe with it has been opened.
pub descriptors_balance :
    (d : ℕ) (first : Option (ℕ × ℕ)) (requests : List Request)
    → let (calls, g) = serve requests (construct first) in
      count d (ends first ++ opened_by requests) ≡ count d (closed_by (calls ++ destroy g))
descriptors_balance d first requests =
    let (calls, g) = serve requests (construct first) in
    omega (
      arith,
      count-append d (ends first) (opened_by requests),
      construct-count d first,
      serve-count d requests (construct first),
      ap (count d) (closed_by-append calls (destroy g)),
      count-append d (closed_by calls) (closed_by (destroy g)),
    )
