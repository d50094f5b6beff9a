-- ===== src/Common/Dict.antt =====
-- Go maps (and sync.Map) as association lists over keys with decidable equality. A key that is
-- not there has no value; `insert` replaces the value of a key that is there.
use mathlib.Core.Logic.{ite}
use actorgo.Common.{◌+◌, ◌≤◌, ◌≡◌, refl, Option, none, some, List, [], ◌∷◌, ◌++◌, arith, length}

module _ {V : Type 0} {K : Type 0} (d : Discrete K) where
  unfoldable pub lookup : K → List (K × V) → Option V
  lookup k [] = none
  lookup k ((j, v) ∷ m) = ite (d j k) (some v) (lookup k m)

  unfoldable pub insert : K → V → List (K × V) → List (K × V)
  insert k v [] = (k, v) ∷ []
  insert k v ((j, w) ∷ m) = ite (d j k) ((k, v) ∷ m) ((j, w) ∷ insert k v m)

  unfoldable pub delete : K → List (K × V) → List (K × V)
  delete k [] = []
  delete k ((j, w) ∷ m) = ite (d j k) (delete k m) ((j, w) ∷ delete k m)

  pub lookup-insert :
      (j k : K) (v : V) (m : List (K × V))
      → lookup j (insert k v m) ≡ ite (d k j) (some v) (lookup j m)
  unfolding lookup insert
  lookup-insert j k v [] = refl
  lookup-insert j k v ((i, w) ∷ m) = ground (arith, lookup-insert j k v m)

  pub lookup-delete :
      (j k : K) (m : List (K × V)) → lookup j (delete k m) ≡ ite (d k j) none (lookup j m)
  unfolding lookup delete
  lookup-delete j k [] = ground arith
  lookup-delete j k ((i, w) ∷ m) = ground (arith, lookup-delete j k m)

  pub length-insert_new :
      (k : K) (v : V) (m : List (K × V)) → lookup k m ≡ none → length (insert k v m) ≡ length m + 1
  unfolding lookup insert
  length-insert_new k v [] h = omega arith
  length-insert_new k v ((i, w) ∷ m) h = ground (arith, length-insert_new k v m)

  pub length-delete-le : (k : K) (m : List (K × V)) → length (delete k m) ≤ length m
  unfolding delete
  length-delete-le k [] = omega arith
  length-delete-le k ((i, w) ∷ m) = ground (arith, length-delete-le k m)

  -- No key has two entries.
  abbrev pub Distinct : List (K × V) → Type 0
  Distinct [] = Unit {0}
  Distinct ((k, v) ∷ m) = (lookup k m ≡ none) × Distinct m

  pub insert_new :
      (k : K) (v : V) (m : List (K × V)) → lookup k m ≡ none → insert k v m ≡ m ++ (k, v) ∷ []
  unfolding lookup insert
  insert_new k v [] h = refl
  insert_new k v ((j, w) ∷ m) h = ground (arith, insert_new k v m)

  pub insert-Distinct : (k : K) (v : V) (m : List (K × V)) → Distinct m → Distinct (insert k v m)
  unfolding insert lookup
  insert-Distinct k v [] h = (refl, tt)
  insert-Distinct k v ((j, w) ∷ m) h =
      ground (arith, insert-Distinct k v m h.1, lookup-insert j k v m)

  pub delete-Distinct : (k : K) (m : List (K × V)) → Distinct m → Distinct (delete k m)
  unfolding delete
  delete-Distinct k [] h = tt
  delete-Distinct k ((j, w) ∷ m) h = ground (arith, delete-Distinct k m h.1, lookup-delete j k m)

  pub delete_absent : (k : K) (m : List (K × V)) → lookup k m ≡ none → delete k m ≡ m
  unfolding lookup delete
  delete_absent k [] h = refl
  delete_absent k ((j, w) ∷ m) h = ground (arith, delete_absent k m)

  pub delete-insert_new :
      (k : K) (v : V) (m : List (K × V)) → lookup k m ≡ none → delete k (insert k v m) ≡ m
  unfolding lookup insert delete
  delete-insert_new k v [] h = ground arith
  delete-insert_new k v ((j, w) ∷ m) h = ground (arith, delete-insert_new k v m)

  lookup-none_middle :
      (j k : K) (v : V) (xs ys : List (K × V)) → lookup j (xs ++ (k, v) ∷ ys) ≡ none → ¬ (k ≡ j)
  unfolding lookup
  lookup-none_middle j k v [] ys h = ground arith
  lookup-none_middle j k v ((i, w) ∷ xs) ys h = ground (arith, lookup-none_middle j k v xs ys)

  pub lookup-append_key :
      (k : K) (v : V) (xs ys : List (K × V))
      → Distinct (xs ++ (k, v) ∷ ys)
      → (lookup k xs ≡ none) × (lookup k ys ≡ none)
  unfolding lookup
  lookup-append_key k v [] ys h = (refl, h.0)
  lookup-append_key k v ((j, w) ∷ xs) ys h =
      ground (arith, lookup-append_key k v xs ys h.1, lookup-none_middle j k v xs ys h.0)

  pub delete-append_key :
      (k : K) (v : V) (xs ys : List (K × V))
      → Distinct (xs ++ (k, v) ∷ ys)
      → delete k (xs ++ (k, v) ∷ ys) ≡ xs ++ ys
  unfolding delete
  delete-append_key k v [] ys h = ground (arith, delete_absent k ys)
  delete-append_key k v ((j, w) ∷ xs) ys h =
      ground (arith, delete-append_key k v xs ys h.1, lookup-none_middle j k v xs ys h.0)
