-- ===== src/Filter/Safety.antt =====
-- What `build_metadata_filter` lets through.
use mathlib.Core.Path.{subst}
use yaadien.Prelude.{
  Bool, ◌||◌, ◌⊎◌, ◌≡◌, refl, ap, inl, inr, true, false, Option, none, some, List, [], ◌∷◌, ◌++◌,
  arith, All, Bool-cases,
}
use yaadien.Model.{Text, Result, Error, attribute_error, ok, err, invalid_metadata_filter, ◌>>=◌}
use yaadien.Filter.{
  Value, Operand, dict, foreign_dict, Predicate, json_eq, json_ne, json_is_null, json_is_not_null,
  array_contains_any, Filter, field_matches, is_known, keys_ok, operand_part, filter_parts,
  build_metadata_filter, plain, scalar, sequence, text, number, other, boolean, null, chosen_part,
}

abbrev pub field_of : Predicate → Text
field_of (json_eq f s) = f
field_of (json_ne f s) = f
field_of (json_is_null f) = f
field_of (json_is_not_null f) = f
field_of (array_contains_any f ts) = f

-- an operand dict with a key that is no text
abbrev pub is_foreign : Operand → Bool
is_foreign (plain v) = false
is_foreign (dict ops) = false
is_foreign (foreign_dict ops) = true

abbrev pub has_foreign : Filter → Bool
has_foreign [] = false
has_foreign ((f, o) ∷ items) = is_foreign o || has_foreign items

-- InvalidMetadataFilterError, or an AttributeError if there is such a dict
abbrev pub IsRefusal : Bool → Error → Type 0
IsRefusal foreign e = (e ≡ invalid_metadata_filter) ⊎ ((e ≡ attribute_error) × (foreign ≡ true))

abbrev IsFrom : Text → Bool → Result (List Predicate) → Type 0
IsFrom f b (ok ps) = All (λ p. field_of p ≡ f) ps
IsFrom f b (err e) = IsRefusal b e

chosen_part-IsFrom : (f : Text) (a b c : Option Value) → IsFrom f false (chosen_part f a b c)
unfolding chosen_part
chosen_part-IsFrom f (some (scalar null)) b c = (refl, tt)
chosen_part-IsFrom f (some (scalar (text s))) b c = (refl, tt)
chosen_part-IsFrom f (some (scalar (number s))) b c = (refl, tt)
chosen_part-IsFrom f (some (scalar (other s))) b c = (refl, tt)
chosen_part-IsFrom f (some (scalar (boolean s))) b c = (refl, tt)
chosen_part-IsFrom f (some (sequence vs s)) b c = (refl, tt)
chosen_part-IsFrom f none (some v) c = (refl, tt)
chosen_part-IsFrom f none none (some (scalar v)) = inl refl
chosen_part-IsFrom f none none (some (sequence [] s)) = inl refl
chosen_part-IsFrom f none none (some (sequence (v ∷ vs) s)) = (refl, tt)
chosen_part-IsFrom f none none none = tt

operand_part-IsFrom : (f : Text) (o : Operand) → IsFrom f (is_foreign o) (operand_part f o)
unfolding operand_part
operand_part-IsFrom f (dict ops) = elim (Bool-cases (keys_ok ops)) [
  | inl e ↦ rw e (chosen_part-IsFrom f _ _ _)
  | inr e ↦ rw e (inl refl)
]
operand_part-IsFrom f (foreign_dict ops) = elim (Bool-cases (keys_ok ops)) [
  | inl e ↦ rw e (inr (refl, refl))
  | inr e ↦ rw e (inl refl)
]
operand_part-IsFrom f (plain (scalar null)) = (refl, tt)
operand_part-IsFrom f (plain (scalar (other s))) = inl refl
operand_part-IsFrom f (plain (scalar (text s))) = (refl, tt)
operand_part-IsFrom f (plain (scalar (number s))) = (refl, tt)
operand_part-IsFrom f (plain (scalar (boolean s))) = (refl, tt)
operand_part-IsFrom f (plain (sequence vs s)) = inl refl

-- What a run of the loop may end in: parts over valid field names only, or a refusal.
abbrev pub IsSafe : Bool → Result (List Predicate) → Type 0
IsSafe b (ok ps) = All (λ p. field_matches (field_of p) ≡ true) ps
IsSafe b (err e) = IsRefusal b e

abbrev pub is_foreign_filter : Option Filter → Bool
is_foreign_filter none = false
is_foreign_filter (some items) = has_foreign items

foreign_first : (o : Operand) (b : Bool) → (is_foreign o || b) ≡ false → is_foreign o ≡ false
foreign_first (plain v) b h = refl
foreign_first (dict ops) b h = refl
foreign_first (foreign_dict ops) b h = h

foreign_rest : (o : Operand) (b : Bool) → (is_foreign o || b) ≡ false → b ≡ false
foreign_rest (plain v) b h = h
foreign_rest (dict ops) b h = h
foreign_rest (foreign_dict ops) b h = absurd (ground (arith, h))

unknown_key :
    (a b : List (Text × Value)) (k : Text) (v : Value)
    → is_known k ≡ false
    → keys_ok (a ++ (k, v) ∷ b) ≡ false
unfolding keys_ok
unknown_key [] b k v h = ground arith
unknown_key (x ∷ a) b k v h = ground (arith, unknown_key a b k v h)

joined_fails :
    (f : Text) (r : Result (List Predicate))
    → IsFrom f false r
    → (r >>= λ part. err invalid_metadata_filter >>= λ rest. ok (part ++ rest))
      ≡ err invalid_metadata_filter
joined_fails f (ok ps) h = refl
joined_fails f (err e) (inl h) = ap err h
joined_fails f (err e) (inr (h, k)) = absurd (ground (arith, k))

module _ (f : Text) (a b : List (Text × Value)) (k : Text) (v : Value)
    (h : is_known k ≡ false) where
  filter_parts_unknown :
      (before after : Filter)
      → has_foreign before ≡ false
      → filter_parts (before ++ (f, dict (a ++ (k, v) ∷ b)) ∷ after) ≡ err invalid_metadata_filter
  unfolding filter_parts
  filter_parts_unknown [] after z = ground (arith, unknown_key a b k v h)
  filter_parts_unknown ((g, o) ∷ before) after z = elim (Bool-cases (field_matches g)) [
    | inl e ↦
        rw (e, filter_parts_unknown before after (foreign_rest o (has_foreign before) z))
          (joined_fails g (operand_part g o) (
            subst (λ b. IsFrom g b (operand_part g o)) (foreign_first o (has_foreign before) z)
              (operand_part-IsFrom g o)))
    | inr e ↦ rw e refl
  ]

  -- One key that is a text but none of the three operators, in an operator dict of texts and beside
  -- any other entries, of which those in front have no key that is no text, makes the whole call raise
  -- InvalidMetadataFilterError.
  pub build_metadata_filter_unknown :
      (before after : Filter)
      → has_foreign before ≡ false
      → build_metadata_filter (some (before ++ (f, dict (a ++ (k, v) ∷ b)) ∷ after))
        ≡ err invalid_metadata_filter
  unfolding build_metadata_filter
  build_metadata_filter_unknown before after z = filter_parts_unknown before after z
