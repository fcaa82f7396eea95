-- ===== src/Server/Registering.antt =====
-- A handler that is registered is found, unless an earlier pattern matches too.
use httpoll.Prelude.{◌≡◌, Bool, false, List, if◌then◌else◌, Bytes, All}
use httpoll.Server.{text_less}

module _ {ℓ} {H : Type ℓ} (regex_match : Bytes → Bytes → Bool) where
  -- No pattern that stands before `pattern` in the order of the map matches the text.
  abbrev pub NoneBefore : Bytes → Bytes → List (Bytes × H) → Type 0
  NoneBefore text pattern handlers =
      All (λ e. (if text_less e.0 pattern then regex_match text e.0 else false) ≡ false) handlers
