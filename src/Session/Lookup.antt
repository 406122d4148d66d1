-- ===== src/Session/Lookup.antt =====
-- Who finds a session: `Get`, on each of its branches, and `ActiveCount` beside it.
use docpine.Base.{
  ℕ, ◌+◌, ◌≤◌, ◌<◌, ◌≡◌, ◌↔◌, inl, inr, not, none, some, [], ◌∷◌, Bytes, Dict, lookup, count, ltb,
  Option-cases, arith, ◌==◌,
}
use docpine.Runtime.{session_not_found, session_expired, ok, err}
use docpine.Session.{Session, Manager, has_expired, get, active_count}

tally :
    {S : Type 0} (now : ℕ) (m : Dict (Session S))
    → count (λ e. not (has_expired now e.1)) m
      ≡ count (λ e. ltb now e.1.expires_at) m + count (λ e. e.1.expires_at == now) m
tally now [] = omega arith
tally now ((id, s) ∷ m) = ground (arith, tally now m)

module _ {W S : Type 0} where
  -- `Get` answers with a session exactly when the registry holds it and its expiry is not past; it
  -- reports an expired session exactly when the registry holds one whose expiry is past, and no
  -- session exactly when the registry holds none.
  get_iff :
      (id : Bytes) (now : ℕ) (m : Manager W S)
      → ((s : Session S)
          → (get id now m ≡ ok s) ↔ ((lookup id m.sessions ≡ some s) × (now ≤ s.expires_at)))
        × ((get id now m ≡ err session_expired)
            ↔ ((s : Session S) × (lookup id m.sessions ≡ some s) × (s.expires_at < now)))
        × ((get id now m ≡ err session_not_found) ↔ (lookup id m.sessions ≡ none))
  unfolding get
  get_iff id now m = elim (Option-cases (lookup id m.sessions)) [
    | inl e ↦ (λ s. ground arith, ground arith, ground arith)
    | inr (s, e) ↦ (λ t. ground arith, (λ h. (s, e, ground arith), λ h. ground arith), ground arith)
  ]

  -- The sessions that `Get` accepts at an instant are those that `ActiveCount` counts there and
  -- those that expire at that very instant.
  active_count_boundary :
      (now : ℕ) (m : Manager W S)
      → count (λ e. not (has_expired now e.1)) m.sessions
        ≡ active_count now m + count (λ e. e.1.expires_at == now) m.sessions
  unfolding active_count
  active_count_boundary now m = tally now m.sessions
