-- ===== src/Utils.antt =====
-- src/hpl_utils.cc: `setnonblocking`, on whether the two calls of fcntl(2) succeed.
use httpoll.Prelude.{ℤ, pos, negsuc, ℕ, Bool, true, false, ◌≡◌, ◌⊎◌, refl, inl, inr, if◌then◌else◌}

-- The status flags of an open file: O_NONBLOCK, and the bits of the others.
pub record StatusFlags : Type 0 where
  pub o_nonblock : Bool
  pub others : ℕ

-- The result, and the flags after it. `get_ok` and `set_ok` say that F_GETFL and F_SETFL do not give -1.
pub setnonblocking : Bool → Bool → StatusFlags → ℤ × StatusFlags
setnonblocking get_ok set_ok flags =
    if get_ok
    then (if flags.o_nonblock
        then (pos 0, flags)
        else (if set_ok then (pos 0, record flags { o_nonblock = true }) else (negsuc 0, flags)))
    else (negsuc 0, flags)

-- What is asked of the result.
abbrev SetOrKept : StatusFlags → Bool → ℤ × StatusFlags → Type 0
SetOrKept flags later (ret, after) =
    ((ret ≡ pos 0) × (after.o_nonblock ≡ true) × (setnonblocking true later after ≡ (pos 0, after))
      ⊎ (ret ≡ negsuc 0) × (after.o_nonblock ≡ flags.o_nonblock))
    × (after.others ≡ flags.others)

setnonblocking-SetOrKept :
    (get_ok set_ok later on : Bool) (others : ℕ)
    → let flags : StatusFlags = record { o_nonblock = on; others = others } in
      SetOrKept flags later (setnonblocking get_ok set_ok flags)
unfolding setnonblocking
setnonblocking-SetOrKept false set_ok later on others = (inr (refl, refl), refl)
setnonblocking-SetOrKept true set_ok later true others = (inl (refl, refl, refl), refl)
setnonblocking-SetOrKept true true later false others = (inl (refl, refl, refl), refl)
setnonblocking-SetOrKept true false later false others = (inr (refl, refl), refl)

-- Either the result is 0 and the flag is set, or it is -1 and it is as it was; the other bits stay; and a
-- second call that can read the flags does nothing where the first one returned 0.
pub setnonblocking_lem :
    (get_ok set_ok later : Bool) (flags : StatusFlags)
    → let (ret, after) = setnonblocking get_ok set_ok flags in
      ((ret ≡ pos 0)
          × (after.o_nonblock ≡ true)
          × (setnonblocking true later after ≡ (pos 0, after))
        ⊎ (ret ≡ negsuc 0) × (after.o_nonblock ≡ flags.o_nonblock))
      × (after.others ≡ flags.others)
setnonblocking_lem get_ok set_ok later flags =
    setnonblocking-SetOrKept get_ok set_ok later flags.o_nonblock flags.others
