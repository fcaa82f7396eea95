-- ===== src/Server/Tests.antt =====
-- The theorem on the table of handlers, with equality for <regex>.
use httpoll.Prelude.{◌≡◌, refl, Bool, Bytes, codes}
use httpoll.HeaderParser.Types.{equal}
use httpoll.Server.{star_pattern}

-- An expression without special characters matches itself only.
abbrev same_text : Bytes → Bytes → Bool
same_text text pattern = equal text pattern

stars : star_pattern (codes "/a*") ≡ codes "/a.*"
unfolding star_pattern
stars = refl
