-- ===== src/GoMap.antt =====
-- Go's `map` with string keys, as an association list: the list's order is the order in which
-- `range` visits the entries. A new key joins at the end, and no key is ever deleted.
use golang_assignment.Prelude.{
  ◌+◌, ◌<◌, String, ◌≡◌, ◌≢◌, refl, Option, none, some, List, [], ◌∷◌, arith, ◌==◌, eq_iff, eq_refl,
  if◌then◌else◌, is_some, length,
}

abbrev pub GoMap {ℓ} : Type ℓ → Type ℓ
GoMap V = List (String × V)

module _ {ℓ} {V : Type ℓ} where
  -- m[key], with `none` for a missing key
  unfoldable pub lookup : String → GoMap V → Option V
  lookup key [] = none
  lookup key ((x, value) ∷ entries) = if x == key then some value else lookup key entries

  -- m[key] = value
  unfoldable pub insert : String → V → GoMap V → GoMap V
  insert key value [] = (key, value) ∷ []
  insert key value ((x, old) ∷ entries) =
      if x == key then (x, value) ∷ entries else (x, old) ∷ insert key value entries

  -- After a write the key has the new value, and all others have theirs.
  pub lookup-insert :
      (key other : String) (value : V) (entries : GoMap V)
      → lookup other (insert key value entries)
        ≡ (if key == other then some value else lookup other entries)
  unfolding lookup insert
  lookup-insert key other value [] = refl
  lookup-insert key other value ((x, old) ∷ entries) =
      let later = lookup-insert key other value entries in
      ground (arith, later, eq_iff x key, eq_iff x other, eq_iff key other)

  pub lookup-insert_self : (k : String) (v : V) (m : GoMap V) → lookup k (insert k v m) ≡ some v
  lookup-insert_self k v m = simp (lookup-insert, eq_refl)

  pub lookup-insert_ne :
      (k j : String) (v : V) (m : GoMap V) → k ≢ j → lookup j (insert k v m) ≡ lookup j m
  lookup-insert_ne k j v m h = ground (arith, lookup-insert k j v m, eq_iff k j)

  -- `len(m)` after a write: one more exactly for a new key.
  pub length-insert :
      (k : String) (v : V) (m : GoMap V)
      → length (insert k v m) ≡ (if is_some (lookup k m) then length m else length m + 1)
  unfolding lookup insert
  length-insert k v [] = omega arith
  length-insert k v ((i, w) ∷ m) = ground (arith, length-insert k v m)

  pub length-insert_pos : (k : String) (v : V) (m : GoMap V) → 0 < length (insert k v m)
  unfolding insert
  length-insert_pos k v [] = omega arith
  length-insert_pos k v ((i, w) ∷ m) = ground arith

  -- No two entries have one key.
  abbrev pub HasDistinctKeys : GoMap V → Type ℓ
  HasDistinctKeys [] = Unit
  HasDistinctKeys ((k, v) ∷ m) = (lookup k m ≡ none) × HasDistinctKeys m

  pub insert-HasDistinctKeys :
      (k : String) (v : V) (m : GoMap V) → HasDistinctKeys m → HasDistinctKeys (insert k v m)
  unfolding lookup insert
  insert-HasDistinctKeys k v [] h = (refl, tt)
  insert-HasDistinctKeys k v ((i, w) ∷ m) (fresh, h) =
      ground (arith, insert-HasDistinctKeys k v m, lookup-insert k i v m, eq_iff i k, eq_iff k i)
