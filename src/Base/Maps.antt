-- ===== src/Base/Maps.antt =====
-- Go maps with string keys: association lists with at most one entry for a key, in the order in
-- which a `range` loop would visit them.
use Prim.Native.Nat.{suc}
use mathlib.Core.Path.{◌≡◌, refl}
use mathlib.Core.Option.{Option, none, some}
use mathlib.Core.Bool.{Bool}
use mathlib.Core.List.{List, [], ◌∷◌, ◌++◌}
use native.Mathlib.Omega.{arith}
use docpine.Base.Tests.{if◌then◌else◌, Bool-cases}
use mathlib.Core.Logic.{inl, inr}
use docpine.Base.Lists.{length, All}
use docpine.Base.Strings.{Bytes, str_eq, str_eq_iff}

abbrev pub Dict {ℓ} : Type ℓ → Type ℓ
Dict V = List (Bytes × V)

module _ {ℓ} {V : Type ℓ} where
  unfoldable pub lookup : Bytes → Dict V → Option V
  lookup k [] = none
  lookup k ((j, v) ∷ m) = if str_eq j k then some v else lookup k m

  -- m[k] = v
  unfoldable pub insert : Bytes → V → Dict V → Dict V
  insert k v [] = (k, v) ∷ []
  insert k v ((j, w) ∷ m) = if str_eq j k then (k, v) ∷ m else (j, w) ∷ insert k v m

  -- delete(m, k)
  unfoldable pub delete : Bytes → Dict V → Dict V
  delete k [] = []
  delete k ((j, w) ∷ m) = if str_eq j k then delete k m else (j, w) ∷ delete k m

  -- Distinct keys: an entry's key is not bound further on.
  abbrev pub IsDict : Dict V → Type ℓ
  IsDict [] = Unit
  IsDict ((j, w) ∷ m) = (lookup j m ≡ none) × IsDict m

module _ {ℓ} {V : Type ℓ} where
  pub lookup-insert :
      (k j : Bytes) (v : V) (m : Dict V)
      → lookup j (insert k v m) ≡ (if str_eq k j then some v else lookup j m)
  unfolding lookup insert
  lookup-insert k j v [] = refl
  lookup-insert k j v ((i, w) ∷ m) =
      ground (arith, str_eq_iff k j, str_eq_iff i k, str_eq_iff i j, lookup-insert k j v m)

  pub lookup-delete :
      (k j : Bytes) (m : Dict V) → lookup j (delete k m) ≡ (if str_eq k j then none else lookup j m)
  unfolding lookup delete
  lookup-delete k j [] = ground arith
  lookup-delete k j ((i, w) ∷ m) =
      ground (arith, str_eq_iff k j, str_eq_iff i k, str_eq_iff i j, lookup-delete k j m)

  pub insert-IsDict : (k : Bytes) (v : V) (m : Dict V) → IsDict m → IsDict (insert k v m)
  unfolding insert lookup
  insert-IsDict k v [] d = (refl, tt)
  insert-IsDict k v ((i, w) ∷ m) d =
      ground (arith, str_eq_iff i k, str_eq_iff k i, lookup-insert k i v m, insert-IsDict k v m)

  pub delete-IsDict : (k : Bytes) (m : Dict V) → IsDict m → IsDict (delete k m)
  unfolding delete lookup
  delete-IsDict k [] d = tt
  delete-IsDict k ((i, w) ∷ m) d = ground (arith, lookup-delete k i m, delete-IsDict k m)

  pub length-insert_fresh :
      (k : Bytes) (v : V) (m : Dict V) → lookup k m ≡ none → length (insert k v m) ≡ suc (length m)
  unfolding insert lookup
  length-insert_fresh k v [] h = refl
  length-insert_fresh k v ((i, w) ∷ m) h = ground (arith, length-insert_fresh k v m)

  pub delete_absent : (k : Bytes) (m : Dict V) → lookup k m ≡ none → delete k m ≡ m
  unfolding delete lookup
  delete_absent k [] h = refl
  delete_absent k ((i, w) ∷ m) h = ground (arith, delete_absent k m)

  -- Removing a key that is bound removes one entry.
  pub length-delete :
      (k : Bytes) (v : V) (m : Dict V)
      → IsDict m
      → lookup k m ≡ some v
      → suc (length (delete k m)) ≡ length m
  unfolding delete lookup
  length-delete k v [] d h = cc
  length-delete k v ((i, w) ∷ m) d h =
      ground (arith, str_eq_iff i k, delete_absent k m, length-delete k v m)

-- The entries that a `range` loop with `delete` leaves: those whose value passes the test.
unfoldable pub retain {ℓ} : {V : Type ℓ} → (V → Bool) → Dict V → Dict V
retain keep [] = []
retain keep ((j, w) ∷ m) = if keep w then (j, w) ∷ retain keep m else retain keep m

module _ {ℓ} {V : Type ℓ} (keep : V → Bool) where
  lookup-retain_absent :
      (k : Bytes) (m : Dict V) → lookup k m ≡ none → lookup k (retain keep m) ≡ none
  unfolding lookup retain
  lookup-retain_absent k [] h = refl
  lookup-retain_absent k ((j, w) ∷ m) h = ground (arith, lookup-retain_absent k m)

  -- An entry is kept exactly when its value passes the test.
  pub lookup-retain :
      (k : Bytes) (m : Dict V)
      → IsDict m
      → lookup k (retain keep m)
        ≡ elim (lookup k m) [ none ↦ none | some v ↦ if keep v then some v else none ]
  unfolding lookup retain
  lookup-retain k [] d = refl
  lookup-retain k ((j, w) ∷ m) d =
      ground (arith, str_eq_iff j k, lookup-retain_absent k m, lookup-retain k m)

  pub retain-IsDict : (m : Dict V) → IsDict m → IsDict (retain keep m)
  unfolding retain
  retain-IsDict [] d = tt
  retain-IsDict ((j, w) ∷ m) d = ground (arith, retain-IsDict m, lookup-retain_absent j m)

module _ {ℓ} {V : Type ℓ} where
  pub lookup-insert_self : (k : Bytes) (v : V) (m : Dict V) → lookup k (insert k v m) ≡ some v
  lookup-insert_self k v m = ground (arith, lookup-insert k k v m, str_eq_iff k k)

  pub lookup-insert_ne :
      (k j : Bytes) (v : V) (m : Dict V) → ¬ (k ≡ j) → lookup j (insert k v m) ≡ lookup j m
  lookup-insert_ne k j v m ne = ground (arith, lookup-insert k j v m, str_eq_iff k j)

  pub lookup-delete_self : (k : Bytes) (m : Dict V) → lookup k (delete k m) ≡ none
  lookup-delete_self k m = ground (arith, lookup-delete k k m, str_eq_iff k k)

  pub lookup-delete_ne : (k j : Bytes) (m : Dict V) → ¬ (k ≡ j) → lookup j (delete k m) ≡ lookup j m
  lookup-delete_ne k j m ne = ground (arith, lookup-delete k j m, str_eq_iff k j)

module _ {ℓ} {V : Type ℓ} where
  lookup_middle : (k : Bytes) (v : V) (xs ys : Dict V) → ¬ (lookup k (xs ++ ((k, v) ∷ ys)) ≡ none)
  unfolding lookup
  lookup_middle k v [] ys h = ground (arith, str_eq_iff k k)
  lookup_middle k v ((j, w) ∷ xs) ys h = ground (arith, lookup_middle k v xs ys)

  -- Removing the key of an entry removes that entry.
  pub delete_middle :
      (k : Bytes) (v : V) (xs ys : Dict V)
      → IsDict (xs ++ ((k, v) ∷ ys))
      → delete k (xs ++ ((k, v) ∷ ys)) ≡ xs ++ ys
  unfolding delete
  delete_middle k v [] ys d = ground (arith, str_eq_iff k k, delete_absent k ys)
  delete_middle k v ((j, w) ∷ xs) ys d =
      ground (arith, str_eq_iff j k, lookup_middle k v xs ys, delete_middle k v xs ys d.1)

  pub lookup_middle_eq :
      (k : Bytes) (v : V) (xs ys : Dict V)
      → IsDict (xs ++ ((k, v) ∷ ys))
      → lookup k (xs ++ ((k, v) ∷ ys)) ≡ some v
  unfolding lookup
  lookup_middle_eq k v [] ys d = ground (arith, str_eq_iff k k)
  lookup_middle_eq k v ((j, w) ∷ xs) ys d =
      ground (arith, str_eq_iff j k, lookup_middle k v xs ys, lookup_middle_eq k v xs ys d.1)

module _ {ℓ κ} {V : Type ℓ} (P : Bytes × V → Type κ) where
  pub All-insert : (k : Bytes) (v : V) (m : Dict V) → P (k, v) → All P m → All P (insert k v m)
  unfolding insert
  All-insert k v [] p h = (p, tt)
  All-insert k v ((j, w) ∷ m) p h = elim (Bool-cases (str_eq j k)) [
    | inl same ↦ rw same (p, h.1)
    | inr other ↦ rw other (h.0, All-insert k v m p h.1)
  ]

  pub All-delete : (k : Bytes) (m : Dict V) → All P m → All P (delete k m)
  unfolding delete
  All-delete k [] h = tt
  All-delete k ((j, w) ∷ m) h = elim (Bool-cases (str_eq j k)) [
    | inl same ↦ rw same (All-delete k m h.1)
    | inr other ↦ rw other (h.0, All-delete k m h.1)
  ]
