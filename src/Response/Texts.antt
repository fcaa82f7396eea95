-- ===== src/Response/Texts.antt =====
-- The texts of a status line: no version has a space in it, no message a CR.
use httpoll.Prelude.{
  pos, ◌≤◌, ◌⊎◌, sym, ap, ◌∙◌, codes, ℕ, zero, suc, ◌-◌, ◌/◌, ◌%◌, ◌&&◌, not, Bool, inl, inr,
  Option-cases, ◌≡◌, refl, true, Option, none, some, List, [], ◌∷◌, ◌==◌, Bytes, get_elem?, arith,
}
use mathlib.Core.Path.{subst}
use httpoll.Version.{HttpVersion, http_version_to_string}
use httpoll.Response.{status_messages, message_of}
use httpoll.Response.Status.{Unlisted}
use httpoll.Response.Reader.{Without}

pub version-Without : (version : HttpVersion) → Without b' ' (http_version_to_string version)
unfolding http_version_to_string
version-Without HttpVersion.http_1_0 = ground arith
version-Without HttpVersion.http_1_1 = ground arith
version-Without HttpVersion.http_2_0 = ground arith
version-Without HttpVersion.ws = ground arith
version-Without HttpVersion.unknown = ground arith

abbrev no_cr : Bytes → Bool
no_cr [] = true
no_cr (x ∷ xs) = not (x == b'\r') && no_cr xs

no_cr-Without : (s : Bytes) → no_cr s ≡ true → Without b'\r' s
no_cr-Without [] h = tt
no_cr-Without (x ∷ s) h = (ground arith, no_cr-Without s (ground arith))

abbrev every {ℓ} : {A : Type ℓ} → (A → Bool) → List A → Bool
every p [] = true
every p (x ∷ xs) = p x && every p xs

abbrev IfSome {ℓ} : {A : Type ℓ} → (A → Type 0) → Option A → Type 0
IfSome P none = Unit
IfSome P (some x) = P x

every-get_elem? {ℓ} :
    {A : Type ℓ} (p : A → Bool) (xs : List A) (i : ℕ)
    → every p xs ≡ true
    → IfSome (λ x. p x ≡ true) (get_elem? xs i)
every-get_elem? p [] i h = tt
every-get_elem? p (x ∷ xs) zero h = ground arith
every-get_elem? p (x ∷ xs) (suc i) h = every-get_elem? p xs i (ground arith)

message_of-no_cr : (status : ℕ) → IfSome (λ s. no_cr s ≡ true) (message_of status)
unfolding message_of
message_of-no_cr status =
    let row = every-get_elem? (every no_cr) status_messages (status / 100 - 1) refl in
    elim (Option-cases (get_elem? status_messages (status / 100 - 1))) [
      | inl missing ↦ rw (missing, message_of) tt
      | inr (r, found) ↦
          rw (found, message_of)
            (every-get_elem? no_cr r (status % 100)
              (subst (IfSome (λ x. every no_cr x ≡ true)) found row))
    ]

pub message_of-Without : (status : ℕ) (s : Bytes) → message_of status ≡ some s → Without b'\r' s
message_of-Without status s listed =
    no_cr-Without s (subst (IfSome (λ x. no_cr x ≡ true)) listed (message_of-no_cr status))

-- The status of a response, where the table has a message for it.
pub status_listed :
    (given : ℕ) (said : Bytes) (status : ℕ) (reason : Bytes)
    → 100 ≤ given
    → message_of given ≡ some said
    → message_of status ≡ some reason
    → ((pos given ≡ pos status) ⊎ (status ≡ 500) × Unlisted (pos given))
    → (status ≡ given) × (reason ≡ said)
status_listed given said status reason h known listed (inl same) =
    let e : status ≡ given = cc in (e, cc (sym listed ∙ ap message_of e ∙ known))
status_listed given said status reason h known listed (inr (five, inl low)) = absurd (omega arith)
status_listed given said status reason h known listed (inr (five, inr missing)) = cc

pub message_of-ok : message_of 200 ≡ some (codes "OK")
unfolding message_of
message_of-ok = refl

pub message_of-switching_protocols : message_of 101 ≡ some (codes "Switching Protocols")
unfolding message_of
message_of-switching_protocols = refl
