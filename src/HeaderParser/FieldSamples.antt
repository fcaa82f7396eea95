-- ===== src/HeaderParser/FieldSamples.antt =====
-- A field with no special meaning, for the tests.
use httpoll.Prelude.{◌≡◌, refl, false, [], ◌∷◌, ◌++◌, codes, arith}
use httpoll.Str.{to_lower}
use httpoll.Str.Prefix.{icase_prefix}
use httpoll.Scan.{find_pos}
use httpoll.HeaderParser.Fields.{IsValue}
use httpoll.HeaderParser.Names.{FieldName, name_text}
use httpoll.HeaderParser.OtherFields.{IsField}

server-IsValue : IsValue (codes " ") (codes "my.server") b'\r'
unfolding find_pos
server-IsValue = record {
  are_blank = ground arith;
  starts = refl;
  in_line = ground arith;
  stops = refl;
}

accept_not_special :
    (n : FieldName) → icase_prefix (codes "Accept" ++ b':' ∷ []) (name_text n) ≡ false
unfolding to_lower
accept_not_special FieldName.content_length = ground arith
accept_not_special FieldName.upgrade = refl
accept_not_special FieldName.host = refl
accept_not_special FieldName.connection = refl
accept_not_special FieldName.user_agent = refl

pub accept-IsField : IsField (codes "Accept") (codes " ") (codes "my.server") b'\r'
unfolding find_pos
accept-IsField = record {
  no_colon = ground arith;
  no_nul = ground arith;
  shown = refl;
  not_special = accept_not_special;
  is_value = server-IsValue;
}
