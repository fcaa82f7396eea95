-- ===== src/BroadcastGroup/Delivery.antt =====
-- What the calls of a broadcast bring to the members, through their pipes.
use httpoll.Prelude.{
  ℕ, ◌+◌, ◌≤◌, ◌≡◌, ◌≢◌, refl, sym, ap, ◌∙◌, true, false, List, [], ◌∷◌, ◌++◌, ◌==◌, if◌then◌else◌,
  All, All-zip, Bytes, length, take, drop, arith, drop-all, take-all,
}
use httpoll.BroadcastGroup.{Call, tee_call, splice_call, Member, spread}
use httpoll.BroadcastGroup.Pipes.{Pipes, IsLawful, run_all}

pub same_pipe : (p : ℕ) → (p == p) ≡ true
same_pipe p = ground arith

pub other_pipe : (p q : ℕ) → p ≢ q → (p == q) ≡ false
other_pipe p q ne = ground arith

pub run_all-append :
    (k : Pipes) (cs ds : List Call) (s : k.World)
    → run_all k (cs ++ ds) s ≡ run_all k ds (run_all k cs s)
unfolding run_all
run_all-append k [] ds s = refl
run_all-append k (c ∷ cs) ds s = run_all-append k cs ds (k.run c s)

module _ (k : Pipes) where
  -- The pipe of a member, of which it holds both ends.
  abbrev pub pipe : Member → ℕ
  pipe m = k.pipe_of m.read_end

  abbrev pub Joined : List Member → Type 0
  Joined = All (λ m. k.pipe_of m.write_end ≡ pipe m)

  -- The pipe is that of no member.
  abbrev pub Apart : ℕ → List Member → Type 0
  Apart p = All (λ m. p ≢ pipe m)

  abbrev pub Distinct : List Member → Type 0
  Distinct [] = Unit
  Distinct (m ∷ ms) = Apart (pipe m) ms × Distinct ms

  abbrev pub Holds : k.World → Bytes → List Member → Type 0
  Holds s xs = All (λ m. k.content s (pipe m) ≡ xs)

  -- The shared pipe has been emptied into those of the members.
  pub record Spread (s t : k.World) (shared : ℕ) (frame : Bytes) (ms : List Member) : Type 0 where
    pub emptied : k.content t shared ≡ []
    pub filled : Holds t frame ms
    pub others : (p : ℕ) → p ≢ shared → Apart p ms → k.content t p ≡ k.content s p
    pub kept : (c : ℕ) → k.received t c ≡ k.received s c

module _ (k : Pipes) (laws : IsLawful k) (r : ℕ) (frame : Bytes)
    (room : length frame ≤ k.capacity) where
  abbrev shared : ℕ
  shared = k.pipe_of r

  abbrev len : ℕ
  len = length frame

  module _ (s : k.World) (m : Member) (apart : shared ≢ pipe k m)
      (joined : k.pipe_of m.write_end ≡ pipe k m) (full : k.content s shared ≡ frame)
      (free : k.content s (pipe k m) ≡ []) where
    taken : take len (k.content s shared) ≡ frame
    taken = ap (take len) full ∙ take-all len frame (omega arith)

    elsewhere : k.pipe_of m.write_end ≢ shared
    elsewhere e = apart (sym e ∙ joined)

    there : len ≤ length (k.content s shared)
    there = omega (arith, ap length full)

    fits : length (k.content s (k.pipe_of m.write_end)) + len ≤ k.capacity
    fits = omega (arith, ap (λ p. length (k.content s p)) joined, ap length free)

    spliced_content :
        (p : ℕ)
        → k.content (k.run (splice_call r m.write_end len) s) p ≡ (
            if p == pipe k m
            then k.content s p ++ frame
            else if p == shared
            then drop len (k.content s p)
            else k.content s p)
    spliced_content p =
        rw (joined, taken) at (laws.content-splice s r m.write_end len p elsewhere there fits)

    teed_content :
        (p : ℕ)
        → k.content (k.run (tee_call r m.write_end len) s) p
          ≡ (if p == pipe k m then k.content s p ++ frame else k.content s p)
    teed_content p =
        rw (joined, taken) at (laws.content-tee s r m.write_end len p elsewhere there fits)

    splice-Spread : Spread k s (k.run (splice_call r m.write_end len) s) shared frame (m ∷ [])
    splice-Spread = record {
      emptied =
          spliced_content shared
          ∙ rw (other_pipe shared (pipe k m) apart, same_pipe shared, full)
              (drop-all len frame (omega arith));
      filled = (spliced_content (pipe k m) ∙ rw (same_pipe (pipe k m), free) refl, tt);
      others = λ p ne away.
          spliced_content p ∙ rw (other_pipe p (pipe k m) away.0, other_pipe p shared ne) refl;
      kept = λ c. laws.received-splice s r m.write_end len c;
    }

    -- A tee before the shared pipe is emptied into the pipes of other members.
    tee-Spread :
        (t : k.World) (ms : List Member)
        → Apart k (pipe k m) ms
        → Spread k (k.run (tee_call r m.write_end len) s) t shared frame ms
        → Spread k s t shared frame (m ∷ ms)
    tee-Spread t ms away d = record {
      emptied = d.emptied;
      filled = (
        d.others (pipe k m) (λ e. apart (sym e)) away
            ∙ teed_content (pipe k m)
            ∙ rw (same_pipe (pipe k m), free) refl,
        d.filled,
      );
      others = λ p ne others.
          d.others p ne others.1 ∙ teed_content p ∙ rw (other_pipe p (pipe k m) others.0) refl;
      kept = λ c. d.kept c ∙ laws.received-tee s r m.write_end len c;
    }

  pub spread-Spread :
      (s : k.World) (m : Member) (ms : List Member)
      → Apart k shared (m ∷ ms)
      → Joined k (m ∷ ms)
      → Distinct k (m ∷ ms)
      → k.content s shared ≡ frame
      → Holds k s [] (m ∷ ms)
      → Spread k s (run_all k (spread r len (m ∷ ms)) s) shared frame (m ∷ ms)
  unfolding spread run_all
  spread-Spread s m [] apart joined distinct full free =
      splice-Spread s m apart.0 joined.0 full free.0
  spread-Spread s m (n ∷ ms) apart joined distinct full free =
      let t = k.run (tee_call r m.write_end len) s in
      let content = teed_content s m apart.0 joined.0 full free.0 in
      let full' : k.content t shared ≡ frame =
        content shared ∙ rw (other_pipe shared (pipe k m) apart.0) full in
      let free' : Holds k t [] (n ∷ ms) =
        All-zip (n ∷ ms)
          (λ x away empty.
            content (pipe k x) ∙ rw (other_pipe (pipe k x) (pipe k m) (λ e. away (sym e))) empty)
          distinct.0 free.1 in
      tee-Spread s m apart.0 joined.0 full free.0 _ (n ∷ ms) distinct.0
        (spread-Spread t n ms apart.1 joined.1 distinct.1 full' free')
