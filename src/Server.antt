-- ===== src/Server.antt =====
-- src/hpl_server.cc: the table of request handlers of `Server`. `regex_match` is that of <regex>, on a
-- text and a pattern.
mod Tests
pub mod Registering
pub mod Handling
pub mod Polling
pub mod Starting
use httpoll.Prelude.{
  ℕ, Bool, true, false, Option, none, some, List, [], ◌∷◌, ltb, ◌==◌, if◌then◌else◌, Bytes,
  c_string,
}
use httpoll.HeaderParser.Types.{equal}

-- The loop of `RegisterRequestHandler`: a dot before each star.
unfoldable pub star_pattern : Bytes → Bytes
star_pattern [] = []
star_pattern (x ∷ xs) =
    let rest = star_pattern xs in if x == b'*' then b'.' ∷ x ∷ rest else x ∷ rest

-- The order of `std::string`.
unfoldable pub text_less : Bytes → Bytes → Bool
text_less xs [] = false
text_less [] (y ∷ ys) = true
text_less (x ∷ xs) (y ∷ ys) =
    let rest = text_less xs ys in if ltb x y then true else if ltb y x then false else rest

-- `request_handlers[pattern] = handler`, on the list of the map's entries in order.
unfoldable pub assign {ℓ} : {H : Type ℓ} → Bytes → H → List (Bytes × H) → List (Bytes × H)
unfolding text_less
assign pattern handler [] = (pattern, handler) ∷ []
assign pattern handler ((k, h) ∷ rest) =
    let later = assign pattern handler rest in
    if equal k pattern
    then (k, handler) ∷ rest
    else if text_less pattern k
    then (pattern, handler) ∷ (k, h) ∷ rest
    else (k, h) ∷ later

unfoldable pub register_request_handler {ℓ} :
    {H : Type ℓ} → Bytes → H → List (Bytes × H) → List (Bytes × H)
unfolding star_pattern assign
register_request_handler uri handler handlers = assign (star_pattern uri) handler handlers

-- The first entry whose pattern matches the text up to its first NUL.
unfoldable pub first_match {ℓ} :
    {H : Type ℓ} → (Bytes → Bytes → Bool) → Bytes → List (Bytes × H) → Option (Bytes × H)
first_match regex_match uri [] = none
first_match regex_match uri ((k, h) ∷ rest) =
    let later = first_match regex_match uri rest in if regex_match uri k then some (k, h) else later

unfoldable pub find_request_handler {ℓ} :
    {H : Type ℓ} → (Bytes → Bytes → Bool) → Bytes → List (Bytes × H) → Option (Bytes × H)
unfolding first_match
find_request_handler regex_match uri handlers = first_match regex_match (c_string uri) handlers
