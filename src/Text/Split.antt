-- ===== src/Text/Split.antt =====
-- Splitting undoes joining, for pieces without the separator.
use docpine.Base.{
  ℕ, ◌≡◌, refl, sym, ap, ◌∙◌, ◌≢◌, List, [], ◌∷◌, ◌++◌, Bytes, All, arith, append_assoc, append-nil,
  ◌==◌, Bool-cases, inl, inr,
}
use docpine.Text.{split_from, split}

-- No byte of the text is the separator.
abbrev pub Free : ℕ → Bytes → Type 0
Free sep [] = Unit
Free sep (c ∷ s) = (c ≢ sep) × Free sep s

pub Free-append : (sep : ℕ) (s t : Bytes) → Free sep s → Free sep t → Free sep (s ++ t)
Free-append sep [] t f g = g
Free-append sep (c ∷ s) t f g = (f.0, Free-append sep s t f.1 g)

-- strings.Join for one separator byte: the pieces with the separator between them.
abbrev pub join : ℕ → Bytes → List Bytes → Bytes
join sep p [] = p
join sep p (q ∷ qs) = p ++ sep ∷ join sep q qs

split_from-append :
    (sep : ℕ) (cur p s : Bytes)
    → Free sep p
    → split_from sep cur (p ++ s) ≡ split_from sep (cur ++ p) s
unfolding split_from
split_from-append sep cur [] s f = rw append-nil
split_from-append sep cur (c ∷ p) s f =
    ground (arith, split_from-append sep (cur ++ c ∷ []) p s f.1, append_assoc cur (c ∷ []) p)

split_from-join :
    (sep : ℕ) (p : Bytes) (ps : List Bytes)
    → All (Free sep) (p ∷ ps)
    → split_from sep [] (join sep p ps) ≡ p ∷ ps
unfolding split_from
split_from-join sep p [] f = ground (arith, split_from-append sep [] p [] f.0, append-nil p)
split_from-join sep p (q ∷ qs) f =
    ground
      (arith, split_from-append sep [] p (sep ∷ join sep q qs) f.0, split_from-join sep q qs f.1)

pub split-join :
    (sep : ℕ) (p : Bytes) (ps : List Bytes)
    → All (Free sep) (p ∷ ps)
    → split sep (join sep p ps) ≡ p ∷ ps
unfolding split
split-join sep p ps f = split_from-join sep p ps f

-- Conversely the pieces are free of the separator, and joining them gives the text back.
join_from-split :
    (sep : ℕ) (cur s : Bytes)
    → Free sep cur
    → (p : Bytes) × (ps : List Bytes) × (split_from sep cur s ≡ p ∷ ps)
      × All (Free sep) (p ∷ ps)
      × (join sep p ps ≡ cur ++ s)
unfolding split_from
join_from-split sep cur [] f = (cur, [], refl, (f, tt), sym (append-nil cur))
join_from-split sep cur (c ∷ s) f = elim (Bool-cases (c == sep)) [
  | inl hit ↦
      let (p, ps, e, free, back) = join_from-split sep [] s tt in
      (cur, p ∷ ps, rw hit (ap (λ l. cur ∷ l) e), (f, free), rw back (ground arith))
  | inr miss ↦
      let (p, ps, e, free, back) =
        join_from-split sep (cur ++ c ∷ []) s (Free-append sep cur (c ∷ []) f (ground arith)) in
      (p, ps, rw miss e, free, back ∙ append_assoc cur (c ∷ []) s)
]

pub join-split :
    (sep : ℕ) (s : Bytes)
    → (p : Bytes) × (ps : List Bytes) × (split sep s ≡ p ∷ ps)
      × All (Free sep) (p ∷ ps)
      × (join sep p ps ≡ s)
unfolding split
join-split sep s = join_from-split sep [] s tt
