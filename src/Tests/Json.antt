-- ===== src/Tests/Json.antt =====
-- A writer and a reader of JSON values for the tests: each value is a tag and its parts, and a text its
-- length and its code points.
use yaadien.Prelude.{
  ℕ, zero, suc, ◌+◌, ◌≤◌, ◌≡◌, refl, ap, true, false, Option, none, some, [], ◌∷◌, ◌++◌, length,
  take, drop, arith, length-append, codes,
}
use yaadien.Model.{Text}
use yaadien.Adapters.Json.{
  Json, null, boolean, number, string, array, object, Items, nil, item, Fields, end, field, Python,
  RoundTrips,
}

abbrev write_text : Text → Text → Text
write_text s k = length s ∷ (s ++ k)

mutual
  write : Json → Text → Text
  write null k = 0 ∷ k
  write (boolean false) k = 1 ∷ k
  write (boolean true) k = 2 ∷ k
  write (number s) k = 3 ∷ write_text s k
  write (string s) k = 4 ∷ write_text s k
  write (array items) k = 5 ∷ write_items items k
  write (object fields) k = 6 ∷ write_fields fields k

  write_items : Items → Text → Text
  write_items nil k = 0 ∷ k
  write_items (item j rest) k = 1 ∷ write j (write_items rest k)

  write_fields : Fields → Text → Text
  write_fields end k = 0 ∷ k
  write_fields (field name j rest) k = 1 ∷ write_text name (write j (write_fields rest k))

-- what a reader finds, and the rest of the text
abbrev Found : Type 0 → Type 0
Found A = Option (A × Text)

abbrev and_then : {A B : Type 0} → Found A → (A → Text → Found B) → Found B
and_then none f = none
and_then (some (a, k)) f = f a k

abbrev read_text : Text → Found Text
read_text [] = none
read_text (n ∷ k) = some (take n k, drop n k)

mutual
  read : ℕ → Text → Found Json
  read zero t = none
  read (suc f) [] = none
  read (suc f) (zero ∷ k) = some (null, k)
  read (suc f) (suc zero ∷ k) = some (boolean false, k)
  read (suc f) (suc (suc zero) ∷ k) = some (boolean true, k)
  read (suc f) (suc (suc (suc zero)) ∷ k) = and_then (read_text k) (λ s r. some (number s, r))
  read (suc f) (suc (suc (suc (suc zero))) ∷ k) = and_then (read_text k) (λ s r. some (string s, r))
  read (suc f) (suc (suc (suc (suc (suc zero)))) ∷ k) =
      and_then (read_items f k) (λ items r. some (array items, r))
  read (suc f) (suc (suc (suc (suc (suc (suc n))))) ∷ k) =
      and_then (read_fields f k) (λ fields r. some (object fields, r))

  read_items : ℕ → Text → Found Items
  read_items zero t = none
  read_items (suc f) [] = none
  read_items (suc f) (zero ∷ k) = some (nil, k)
  read_items (suc f) (suc n ∷ k) =
      and_then (read f k) (λ j r. and_then (read_items f r) (λ rest r'. some (item j rest, r')))

  read_fields : ℕ → Text → Found Fields
  read_fields zero t = none
  read_fields (suc f) [] = none
  read_fields (suc f) (zero ∷ k) = some (end, k)
  read_fields (suc f) (suc n ∷ k) = and_then (read_text k) (λ name r.
      and_then (read f r)
        (λ j r'. and_then (read_fields f r') (λ rest r''. some (field name j rest, r''))))

take-length-append : (s k : Text) → take (length s) (s ++ k) ≡ s
take-length-append [] k = refl
take-length-append (c ∷ s) k = ap (λ t. c ∷ t) (take-length-append s k)

drop-length-append : (s k : Text) → drop (length s) (s ++ k) ≡ k
drop-length-append [] k = refl
drop-length-append (c ∷ s) k = drop-length-append s k

read_text-write_text : (s k : Text) → read_text (write_text s k) ≡ some (s, k)
read_text-write_text s k = rw (take-length-append, drop-length-append) refl

-- the rounds that a value takes
mutual
  rounds : Json → ℕ
  rounds (array items) = suc (rounds_items items)
  rounds (object fields) = suc (rounds_fields fields)
  rounds _ = 1

  rounds_items : Items → ℕ
  rounds_items nil = 1
  rounds_items (item j rest) = suc (rounds j + rounds_items rest)

  rounds_fields : Fields → ℕ
  rounds_fields end = 1
  rounds_fields (field name j rest) = suc (rounds j + rounds_fields rest)

mutual
  unfolding read write rounds

  read-write : (f : ℕ) (j : Json) (k : Text) → rounds j ≤ f → read f (write j k) ≡ some (j, k)
  read-write zero null k h = absurd (omega arith)
  read-write zero (boolean b) k h = absurd (omega arith)
  read-write zero (number s) k h = absurd (omega arith)
  read-write zero (string s) k h = absurd (omega arith)
  read-write zero (array items) k h = absurd (omega arith)
  read-write zero (object fields) k h = absurd (omega arith)
  read-write (suc f) null k h = refl
  read-write (suc f) (boolean false) k h = refl
  read-write (suc f) (boolean true) k h = refl
  read-write (suc f) (number s) k h = rw (take-length-append s k, drop-length-append s k) refl
  read-write (suc f) (string s) k h = rw (take-length-append s k, drop-length-append s k) refl
  read-write (suc f) (array items) k h = rw (read_items-write f items k (omega arith)) refl
  read-write (suc f) (object fields) k h = rw (read_fields-write f fields k (omega arith)) refl

  read_items-write :
      (f : ℕ) (l : Items) (k : Text)
      → rounds_items l ≤ f
      → read_items f (write_items l k) ≡ some (l, k)
  read_items-write zero nil k h = absurd (omega arith)
  read_items-write zero (item j rest) k h = absurd (omega arith)
  read_items-write (suc f) nil k h = refl
  read_items-write (suc f) (item j rest) k h =
      rw (read-write f j (write_items rest k) (omega arith))
        (rw (read_items-write f rest k (omega arith)) refl)

  read_fields-write :
      (f : ℕ) (l : Fields) (k : Text)
      → rounds_fields l ≤ f
      → read_fields f (write_fields l k) ≡ some (l, k)
  read_fields-write zero end k h = absurd (omega arith)
  read_fields-write zero (field name j rest) k h = absurd (omega arith)
  read_fields-write (suc f) end k h = refl
  read_fields-write (suc f) (field name j rest) k h =
      let tail = write j (write_fields rest k) in
      rw (take-length-append name tail, drop-length-append name tail)
        (rw (read-write f j (write_fields rest k) (omega arith))
          (rw (read_fields-write f rest k (omega arith)) refl))

mutual
  unfolding write rounds

  rounds-le : (j : Json) (k : Text) → rounds j + length k ≤ length (write j k)
  rounds-le null k = omega arith
  rounds-le (boolean false) k = omega arith
  rounds-le (boolean true) k = omega arith
  rounds-le (number s) k = omega (arith, length-append s k)
  rounds-le (string s) k = omega (arith, length-append s k)
  rounds-le (array items) k = omega (arith, rounds_items-le items k)
  rounds-le (object fields) k = omega (arith, rounds_fields-le fields k)

  rounds_items-le : (l : Items) (k : Text) → rounds_items l + length k ≤ length (write_items l k)
  rounds_items-le nil k = omega arith
  rounds_items-le (item j rest) k =
      omega (arith, rounds-le j (write_items rest k), rounds_items-le rest k)

  rounds_fields-le :
      (l : Fields) (k : Text) → rounds_fields l + length k ≤ length (write_fields l k)
  rounds_fields-le end k = omega arith
  rounds_fields-le (field name j rest) k = omega (
    arith,
    length-append name (write j (write_fields rest k)),
    rounds-le j (write_fields rest k),
    rounds_fields-le rest k,
  )

abbrev whole : Found Json → Option Json
whole none = none
whole (some (j, k)) = some j

unfoldable pub python : Python
unfolding read write
python = record {
  dumps = λ j. write j [];
  loads = λ t. whole (read (length t) t);
  repr = λ j. codes "?";
  is_zero = λ s. false;
}

pub python-RoundTrips : RoundTrips python
unfolding python
python-RoundTrips j =
    ap whole (read-write (length (write j [])) j [] (omega (arith, rounds-le j [])))
