-- ===== src/HeaderParser/StoredFields.antt =====
-- Several fields with no special meaning, one after the other.
use httpoll.Prelude.{
  ◌≡◌, refl, sym, ap, ◌∙◌, inl, inr, Option, none, some, List, [], ◌∷◌, if◌then◌else◌, Bytes, codes,
  Bool-cases, Option-cases,
}
use httpoll.HeaderParser.Types.{HttpHeaderParser, equal, lookup, emplace, get_header}
use httpoll.HeaderParser.OtherFields.{field_line, equal_eq}

pub record Field : Type 0 where
  pub name : Bytes
  pub blanks : Bytes
  pub value : Bytes

abbrev pub printed : Field → Bytes
printed f = field_line f.name f.blanks f.value b'\r' (codes "\n")

-- What is stored, and what the first field of a name says.
abbrev pub stored : List Field → List (Bytes × Bytes) → List (Bytes × Bytes)
stored [] m = m
stored (f ∷ fields) m = stored fields (emplace f.name f.value m)

abbrev pub first_value : Bytes → List Field → Option Bytes
first_value key [] = none
first_value key (f ∷ fields) = if equal f.name key then some f.value else first_value key fields

abbrev pub or_empty : Option Bytes → Bytes
or_empty none = []
or_empty (some v) = v

abbrev or_else : Option Bytes → Option Bytes → Option Bytes
or_else none later = later
or_else (some v) later = some v

or_else-none : (o : Option Bytes) → or_else o none ≡ o
or_else-none none = refl
or_else-none (some v) = refl

or_else_assoc : (a b c : Option Bytes) → or_else (or_else a b) c ≡ or_else a (or_else b c)
or_else_assoc none b c = refl
or_else_assoc (some v) b c = refl

lookup-emplace :
    (key name value : Bytes) (m : List (Bytes × Bytes))
    → lookup key (emplace name value m)
      ≡ or_else (lookup key m) (if equal name key then some value else none)
unfolding lookup emplace
lookup-emplace key name value m = elim (Option-cases (lookup name m)) [
  | inl q ↦ elim (Bool-cases (equal name key)) [
    | inl t ↦
        let missing : lookup key m ≡ none = ap (λ k. lookup k m) (sym (equal_eq name key t)) ∙ q in
        rw (q, emplace) (rw (t, lookup) (rw missing refl))
    | inr t ↦ rw (q, emplace) (rw (t, lookup) (sym (or_else-none (lookup key m))))
  ]
  | inr (old, q) ↦ elim (Bool-cases (equal name key)) [
    | inl t ↦
        let there : lookup key m ≡ some old =
          ap (λ k. lookup k m) (sym (equal_eq name key t)) ∙ q in
        rw (q, emplace) (rw t (rw there refl))
    | inr t ↦ rw (q, emplace) (rw t (sym (or_else-none (lookup key m))))
  ]
]

lookup-stored :
    (key : Bytes) (fields : List Field) (m : List (Bytes × Bytes))
    → lookup key (stored fields m) ≡ or_else (lookup key m) (first_value key fields)
lookup-stored key [] m = sym (or_else-none (lookup key m))
lookup-stored key (f ∷ fields) m =
    lookup-stored key fields (emplace f.name f.value m)
    ∙ ap (λ o. or_else o (first_value key fields)) (lookup-emplace key f.name f.value m)
    ∙ or_else_assoc (lookup key m) (if equal f.name key then some f.value else none)
        (first_value key fields)
    ∙ ap (or_else (lookup key m)) (first_or f fields)
  where
    first_or :
        (f : Field) (fields : List Field)
        → or_else (if equal f.name key then some f.value else none) (first_value key fields)
          ≡ first_value key (f ∷ fields)
    first_or f fields = elim (Bool-cases (equal f.name key)) [
      | inl t ↦ rw t refl
      | inr t ↦ rw t refl
    ]

-- `GetHeader` gives the value of the first field of a name, or the empty view.
pub get_header-stored :
    (p : HttpHeaderParser) (key : Bytes) (fields : List Field)
    → p.header_map ≡ stored fields []
    → get_header p key ≡ or_empty (first_value key fields)
unfolding get_header lookup
get_header-stored p key fields e =
    let found : lookup key p.header_map ≡ first_value key fields =
      ap (lookup key) e ∙ lookup-stored key fields [] in
    elim (Option-cases (first_value key fields)) [
      | inl q ↦ rw (found ∙ q, get_header) (rw q refl)
      | inr (v, q) ↦ rw (found ∙ q, get_header) (rw q refl)
    ]
