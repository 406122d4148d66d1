-- ===== src/Base/Orders.antt =====
-- Maps that hold the same entries in another order.
use Prim.Native.Nat.{suc}
use mathlib.Core.Path.{◌≡◌, refl, sym, ap, ◌∙◌}
use mathlib.Core.Logic.{◌↔◌}
use mathlib.Core.Option.{Option, none, some}
use mathlib.Core.Bool.{Bool, true}
use mathlib.Core.List.{[], ◌∷◌}
use native.Mathlib.Omega.{arith}
use docpine.Base.Tests.{if◌then◌else◌}
use docpine.Base.Lists.{length, count}
use docpine.Base.Strings.{Bytes, str_eq_iff, str_eq_refl}
use docpine.Base.Maps.{Dict, IsDict, lookup, delete, delete_absent, delete-IsDict, lookup-delete}

-- Two options that hold the same values are equal.
pub option_ext {ℓ} :
    {A : Type ℓ} (o o' : Option A) → ((a : A) → (o ≡ some a) ↔ (o' ≡ some a)) → o ≡ o'
option_ext none none h = refl
option_ext none (some b) h = (h b).1 refl
option_ext (some a) o' h = sym ((h a).0 refl)

module _ {ℓ} {V : Type ℓ} where
  abbrev pub SameEntries : Dict V → Dict V → Type ℓ
  SameEntries m m' = (k : Bytes) → lookup k m ≡ lookup k m'

  count-delete :
      (f : V → Bool) (k : Bytes) (v : V) (m : Dict V)
      → IsDict m
      → lookup k m ≡ some v
      → let rest = count (λ e. f e.1) (delete k m) in
        count (λ e. f e.1) m ≡ (if f v then suc rest else rest)
  unfolding delete lookup
  count-delete f k v [] d h = cc
  count-delete f k v ((j, w) ∷ m) d h =
      ground (arith, str_eq_iff j k, delete_absent k m, count-delete f k v m)

  no_entries : (m : Dict V) → ((k : Bytes) → lookup k m ≡ none) → m ≡ []
  unfolding lookup
  no_entries [] h = refl
  no_entries ((j, w) ∷ m) h = absurd (ground (arith, h j, str_eq_refl j))

  same_rest :
      (j : Bytes) (v : V) (m m' : Dict V)
      → lookup j m ≡ none
      → SameEntries ((j, v) ∷ m) m'
      → SameEntries m (delete j m')
  unfolding lookup
  same_rest j v m m' fresh h k = ground (arith, lookup-delete j k m', h k, str_eq_iff j k)

  -- How many entries pass a test depends on the entries alone.
  pub count-SameEntries :
      (f : V → Bool) (m m' : Dict V)
      → IsDict m
      → IsDict m'
      → SameEntries m m'
      → count (λ e. f e.1) m ≡ count (λ e. f e.1) m'
  unfolding lookup
  count-SameEntries f [] m' d d' h = rw (no_entries m' (λ k. sym (h k))) refl
  count-SameEntries f ((j, v) ∷ m) m' d d' h =
      let found : lookup j m' ≡ some v = sym (h j) ∙ ground (arith, str_eq_refl j) in
      let rest =
        count-SameEntries f m (delete j m') d.1 (delete-IsDict j m' d')
          (same_rest j v m m' d.0 h) in
      ground (arith, rest, count-delete f j v m' d' found)

  count-all : (m : Dict V) → count (λ e. true) m ≡ length m
  count-all [] = refl
  count-all (e ∷ m) = ap suc (count-all m)

  pub length-SameEntries :
      (m m' : Dict V) → IsDict m → IsDict m' → SameEntries m m' → length m ≡ length m'
  length-SameEntries m m' d d' h =
      sym (count-all m) ∙ count-SameEntries (λ v. true) m m' d d' h ∙ count-all m'
