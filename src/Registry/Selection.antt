-- ===== src/Registry/Selection.antt =====
-- Which backend runtime.New selects, and what it has checked of it.
use docpine.Base.{
  ◌≢◌, ◌↔◌, [], ◌∷◌, All, str_eq_iff, ◌≡◌, refl, sym, inl, inr, ap, ◌∙◌, false, Option,
  Option-cases, none, some, Bytes, Dict, lookup, lookup-insert_self, is_empty, arith,
}
use docpine.Runtime.{Error, Result, ok, err, Runtime}
use docpine.Registry.{Factory, normalized, register, available, resolved, verify_host, instantiate}

pair : {A B : Type 0} {p : A × B} {a : A} {b : B} → p.0 ≡ a → p.1 ≡ b → p ≡ (a, b)
pair h k = cc

-- The prerequisite check of a backend that was made.
abbrev check_of : {W S P : Type 0} → W → Result (Runtime W S P) → W × Option Error
check_of w (err e) = (w, none)
check_of w (ok rt) = rt.check_prerequisites w

verify_host_quiet :
    {W S P : Type 0} (w : W) (rt : Runtime W S P)
    → (rt.check_prerequisites w).1 ≡ none
    → verify_host (w, ok rt) ≡ ((rt.check_prerequisites w).0, ok rt)
unfolding verify_host
verify_host_quiet w rt quiet = rw (quiet, verify_host) refl

verify_host-ok :
    {W S P : Type 0} (w w' : W) (made : Result (Runtime W S P)) (rt : Runtime W S P)
    → verify_host (w, made) ≡ (w', ok rt)
    → (made ≡ ok rt) × (rt.check_prerequisites w ≡ (w', none))
unfolding verify_host
verify_host-ok w w' (err e) rt h = absurd (ground arith)
verify_host-ok w w' (ok made) rt h = elim (Option-cases (made.check_prerequisites w).1) [
  | inl quiet ↦
      let same = sym (verify_host_quiet w made quiet) ∙ h in
      let made_eq = ap (λ x. x.1) same in
      (made_eq, sym (ap (check_of w) made_eq) ∙ pair (ap (λ x. x.0) same) quiet)
  | inr (e, failed) ↦ absurd (ground arith)
]

resolved_spelling :
    (name spelling : Bytes)
    → normalized spelling ≡ normalized name
    → is_empty (normalized name) ≡ false
    → resolved spelling ≡ normalized name
unfolding resolved
resolved_spelling name spelling same visible = ground arith

instantiate_found :
    {C W S P : Type 0} (fs : Dict (Factory C W S P)) (name : Bytes) (cfg : C) (w : W)
    (f : Factory C W S P)
    → lookup (resolved name) fs ≡ some f
    → instantiate fs name cfg w ≡ verify_host (f cfg w)
unfolding instantiate
instantiate_found fs name cfg w f found = rw (found, instantiate) refl

-- The names that Available lists are those that `New` finds.
available_lem :
    {F : Type 0} (name : Bytes) (fs : Dict F)
    → All (λ n. n ≢ name) (available fs) ↔ (lookup name fs ≡ none)
unfolding available lookup
available_lem name [] = (λ h. refl, λ h. tt)
available_lem name ((n, f) ∷ fs) = ground (arith, str_eq_iff n name, available_lem name fs)

module _ {C W S P : Type 0} where
  -- A backend that `New` returns is the one that the factory made which is registered under the
  -- resolved name, and the check of the host's prerequisites has just succeeded for it.
  instantiate_ok :
      (fs : Dict (Factory C W S P)) (name : Bytes) (cfg : C) (w w' : W) (rt : Runtime W S P)
      → instantiate fs name cfg w ≡ (w', ok rt)
      → (f : Factory C W S P) × (lookup (resolved name) fs ≡ some f)
        × ((f cfg w).1 ≡ ok rt)
        × (rt.check_prerequisites (f cfg w).0 ≡ (w', none))
  unfolding instantiate
  instantiate_ok fs name cfg w w' rt h = elim (Option-cases (lookup (resolved name) fs)) [
    | inl missing ↦ absurd (ground arith)
    | inr (f, found) ↦
        let (made, checked) =
          verify_host-ok (f cfg w).0 w' (f cfg w).1 rt
            (sym (instantiate_found fs name cfg w f found) ∙ h) in
        (f, found, made, checked)
  ]

  -- Names count up to case and surrounding spaces: right after a factory has been registered, `New`
  -- under any spelling of its name, unless that is blank, makes and checks the backend of this
  -- factory.
  instantiate-register :
      (fs : Dict (Factory C W S P)) (name spelling : Bytes) (f : Factory C W S P) (cfg : C) (w : W)
      → normalized spelling ≡ normalized name
      → is_empty (normalized name) ≡ false
      → instantiate (register name f fs) spelling cfg w ≡ verify_host (f cfg w)
  unfolding register
  instantiate-register fs name spelling f cfg w same visible =
      instantiate_found (register name f fs) spelling cfg w f (
        rw (resolved_spelling name spelling same visible)
          (lookup-insert_self (normalized name) f fs))
