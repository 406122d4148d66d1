-- ===== src/Session/Reaper.antt =====
-- What the reaper and the shutdown take, and what the reaper leaves.
use docpine.Base.{
  ℕ, ◌+◌, ◌≤◌, ◌<◌, ◌≡◌, refl, ◌↔◌, inl, inr, Option, none, some, List, [], ◌∷◌, ◌++◌, ◌∙◌, Bytes,
  Dict, IsDict, lookup, length, count, ltb, if◌then◌else◌, str_eq_iff, Option-cases, arith,
}
use native.Mathlib.Decide.{dec_le}
use docpine.Background.{Wake, stopped, ticked, run_loop, AtRounds}
use docpine.Runtime.{session_not_found, session_expired, Result, ok, err, Runtime}
use docpine.Session.{
  Session, Process, has_expired, get, active_count, expired, remaining, reap_expired, run_reaper,
  close, values, notify_each, destroy_each,
}

-- What `Get` answers about an entry.
abbrev answer : {S : Type 0} → ℕ → Option (Session S) → Result (Session S)
answer now none = err session_not_found
answer now (some s) = if has_expired now s then err session_expired else ok s

module _ {S : Type 0} where
  lookup-remaining_absent :
      (now : ℕ) (id : Bytes) (m : Dict (Session S))
      → lookup id m ≡ none
      → lookup id (remaining now m) ≡ none
  unfolding lookup remaining
  lookup-remaining_absent now id [] h = refl
  lookup-remaining_absent now id ((j, s) ∷ m) h = ground (arith, lookup-remaining_absent now id m)

  lookup-remaining_dead :
      (now : ℕ) (id : Bytes) (s : Session S) (m : Dict (Session S))
      → IsDict m
      → lookup id m ≡ some s
      → s.expires_at < now
      → lookup id (remaining now m) ≡ none
  unfolding lookup remaining
  lookup-remaining_dead now id s [] d h late = cc
  lookup-remaining_dead now id s ((j, t) ∷ m) d h late =
      ground
        (arith, str_eq_iff j id, lookup-remaining_absent now id m, lookup-remaining_dead now id s m)

  lookup-remaining_live :
      (now : ℕ) (id : Bytes) (s : Session S) (m : Dict (Session S))
      → lookup id m ≡ some s
      → now ≤ s.expires_at
      → lookup id (remaining now m) ≡ some s
  unfolding lookup remaining
  lookup-remaining_live now id s [] h live = cc
  lookup-remaining_live now id s ((j, t) ∷ m) h live =
      ground (arith, lookup-remaining_live now id s m)

  lookup-remaining_iff :
      (now : ℕ) (id : Bytes) (s : Session S) (m : Dict (Session S))
      → IsDict m
      → (lookup id (remaining now m) ≡ some s) ↔ ((lookup id m ≡ some s) × (now ≤ s.expires_at))
  lookup-remaining_iff now id s m d = (
    λ h. elim (Option-cases (lookup id m)) [
      | inl e ↦ absurd (cc (lookup-remaining_absent now id m e))
      | inr (t, e) ↦ elim (dec_le now t.expires_at) [
        | yes live ↦ ground (arith, lookup-remaining_live now id t m e live)
        | no late ↦ absurd (cc (lookup-remaining_dead now id t m d e (omega arith)))
      ]
    ],
    λ h. lookup-remaining_live now id s m h.0 h.1,
  )

  pub remaining-IsDict : (now : ℕ) (m : Dict (Session S)) → IsDict m → IsDict (remaining now m)
  unfolding remaining
  remaining-IsDict now [] d = tt
  remaining-IsDict now ((j, t) ∷ m) d =
      ground (arith, remaining-IsDict now m, lookup-remaining_absent now j m)

  pub length-expired :
      (now : ℕ) (m : Dict (Session S))
      → length (expired now m) + length (remaining now m) ≡ length m
  unfolding expired remaining
  length-expired now [] = omega arith
  length-expired now ((j, t) ∷ m) = ground (arith, length-expired now m)

  count-remaining :
      (now later : ℕ) (m : Dict (Session S))
      → now ≤ later
      → count (λ e. ltb later e.1.expires_at) (remaining now m)
        ≡ count (λ e. ltb later e.1.expires_at) m
  unfolding remaining
  count-remaining now later [] h = refl
  count-remaining now later ((j, t) ∷ m) h = ground (arith, count-remaining now later m)

module _ {W S P : Type 0} (rt : Runtime W S P) where
  -- On a registry with distinct ids, a round of the reaper removes exactly the sessions that are
  -- past their expiry, leaves every other one as it is, does not change how many sessions count as
  -- active, and keeps the ids distinct.
  pub reap_expired_lem :
      (now : ℕ) (p : Process W S)
      → IsDict p.mngr.sessions
      → let q = reap_expired rt now p in
        ((id : Bytes) (s : Session S)
          → (lookup id q.mngr.sessions ≡ some s)
            ↔ ((lookup id p.mngr.sessions ≡ some s) × (now ≤ s.expires_at)))
        × (active_count now q.mngr ≡ active_count now p.mngr)
        × IsDict q.mngr.sessions
  unfolding reap_expired active_count
  reap_expired_lem now p d = (
    λ id s. lookup-remaining_iff now id s p.mngr.sessions d,
    count-remaining now now p.mngr.sessions (omega arith),
    remaining-IsDict now p.mngr.sessions d,
  )

  -- On a registry with distinct ids, the goroutine of the reaper, however often it wakes until it
  -- is stopped, leaves exactly the sessions that are not past their expiry at any of its rounds,
  -- each as it was, and keeps the ids distinct; and at any time that is before none of the rounds,
  -- as many sessions count as active as would without it. After the stop it does nothing.
  pub run_reaper_lem :
      (ws : List Wake) (p : Process W S)
      → IsDict p.mngr.sessions
      → let q = run_reaper rt ws p in
        ((id : Bytes) (s : Session S)
          → (lookup id q.mngr.sessions ≡ some s)
            ↔ ((lookup id p.mngr.sessions ≡ some s) × AtRounds (λ now. now ≤ s.expires_at) ws))
        × ((later : ℕ)
            → AtRounds (λ now. now ≤ later) ws
            → active_count later q.mngr ≡ active_count later p.mngr)
        × IsDict q.mngr.sessions
        × ((ws' : List Wake)
            → run_reaper rt (ws ++ (stopped ∷ ws')) p ≡ run_reaper rt (ws ++ (stopped ∷ [])) p)
  unfolding run_reaper run_loop reap_expired active_count
  run_reaper_lem [] p d = (λ id s. (λ h. (h, tt), λ h. h.0), λ later h. refl, d, λ ws'. refl)
  run_reaper_lem (stopped ∷ ws) p d =
      (λ id s. (λ h. (h, tt), λ h. h.0), λ later h. refl, d, λ ws'. refl)
  run_reaper_lem (ticked now ∷ ws) p d =
      let q = reap_expired rt now p in
      let (kept, counted, distinct, over) =
        run_reaper_lem ws q (remaining-IsDict now p.mngr.sessions d) in
      (
        λ id s.
            let here = lookup-remaining_iff now id s p.mngr.sessions d in
            (
              λ h.
                  let (there, rounds) = (kept id s).0 h in
                  let (before, live) = here.0 there in (before, (live, rounds)),
              λ (before, (live, rounds)). (kept id s).1 (here.1 (before, live), rounds),
            ),
        λ later (early, rounds).
            counted later rounds ∙ count-remaining now later p.mngr.sessions early,
        distinct,
        over,
      )

  -- After `Close` no session is left, and a second `Close` does nothing and reports no error.
  close_lem :
      (p : Process W S) (id : Bytes) (now : ℕ)
      → let q = (close rt p).0 in
        (get id now q.mngr ≡ err session_not_found)
        × (active_count now q.mngr ≡ 0)
        × (close rt q ≡ (q, none))
  unfolding close get active_count lookup values notify_each destroy_each
  close_lem p id now = (refl, refl, refl)
