-- ===== src/Session/Tests.antt =====
-- The session manager on concrete registries, and the theorems at them.
use docpine.Base.{
  insert, ℕ, ◌≤◌, ◌≡◌, ◌≢◌, ◌↔◌, ◌⊎◌, refl, none, some, List, [], ◌∷◌, ◌++◌, codes, lookup, IsDict,
  ltb, if◌then◌else◌, str_eq, Bytes,
}
use docpine.Runtime.{session_not_found, session_expired, ok, err}
use docpine.Session.{
  Session, Process, new_session, create_options, create, destroy, attach, get, active_count,
  reap_expired, run_reaper, expired, remaining, notify, close, reap_each,
}
use docpine.Session.Lifecycle.{create-get, attach_cases}
use docpine.Session.Reaper.{run_reaper_lem}
use docpine.Background.{Wake, ticked, stopped, AtRounds}
use docpine.Fixtures.{counting, failing, early, later, two_sessions}

abbrev one_made : Process ℕ ℕ
one_made = (create counting (codes "s3") 120 two_sessions).0

session_tests :
    (get (codes "s1") 110 two_sessions.mngr ≡ ok early)
    × (get (codes "s1") 111 two_sessions.mngr ≡ err session_expired)
    × (get (codes "s3") 111 two_sessions.mngr ≡ err session_not_found)
    × (active_count 110 two_sessions.mngr ≡ 1)
    × ((attach counting (codes "s2") 111 two_sessions).1 ≡ ok 1)
    × ((attach counting (codes "s1") 111 two_sessions).1 ≡ err session_expired)
    × ((reap_expired counting 111 two_sessions).mngr.sessions ≡ (codes "s2", later) ∷ [])
    × ((create failing (codes "s3") 120 two_sessions).0.mngr ≡ two_sessions.mngr)
    × (get (codes "s3") 130 one_made.mngr ≡ ok (new_session 10 (codes "s3") 2 120))
    × ((close counting two_sessions).0.mngr.sessions ≡ [])
unfolding get active_count attach create reap_expired remaining expired reap_each notify close
    lookup destroy insert str_eq
session_tests = (refl, refl, refl, refl, refl, refl, refl, refl, refl, refl)

create-get_example :
    (codes "s3" ≡ codes "s3")
    × ((s : ℕ) × ((counting.create_sandbox (create_options (codes "s3")) 2).1 ≡ ok s)
        × ((at : ℕ)
            → get (codes "s3") at one_made.mngr ≡ (
                if ltb 130 at
                then err session_expired
                else ok (new_session 10 (codes "s3") s 120))))
    × ((j : Bytes) (at : ℕ) → codes "s3" ≢ j → get j at one_made.mngr ≡ get j at two_sessions.mngr)
unfolding create
create-get_example = create-get counting (codes "s3") 120 two_sessions one_made (codes "s3") refl

attach_cases_example :
    ((get (codes "s1") 111 two_sessions.mngr ≡ err session_not_found)
      × (attach counting (codes "s1") 111 two_sessions ≡ (two_sessions, err session_not_found)))
    ⊎ ((get (codes "s1") 111 two_sessions.mngr ≡ err session_expired)
        × (attach counting (codes "s1") 111 two_sessions
            ≡ ((destroy counting (codes "s1") two_sessions).0, err session_expired))
        × (lookup (codes "s1") (attach counting (codes "s1") 111 two_sessions).0.mngr.sessions
            ≡ none))
    ⊎ ((s : Session ℕ) × (get (codes "s1") 111 two_sessions.mngr ≡ ok s)
        × ((attach counting (codes "s1") 111 two_sessions).0.mngr ≡ two_sessions.mngr)
        × ((attach counting (codes "s1") 111 two_sessions).1 ≡ (counting.attach_pty s.sandbox 2).1))
attach_cases_example = attach_cases counting (codes "s1") 111 two_sessions

two_sessions-IsDict : IsDict two_sessions.mngr.sessions
unfolding lookup str_eq
two_sessions-IsDict = (refl, (refl, tt))

abbrev rounds : List Wake
rounds = ticked 111 ∷ ticked 120 ∷ stopped ∷ ticked 999 ∷ []

run_reaper_lem_example :
    let q = run_reaper counting rounds two_sessions in
    ((id : Bytes) (s : Session ℕ)
      → (lookup id q.mngr.sessions ≡ some s) ↔ (
          (lookup id two_sessions.mngr.sessions ≡ some s)
          × AtRounds (λ now. now ≤ s.expires_at) rounds))
    × ((later : ℕ)
        → AtRounds (λ now. now ≤ later) rounds
        → active_count later q.mngr ≡ active_count later two_sessions.mngr)
    × IsDict q.mngr.sessions
    × ((ws' : List Wake)
        → run_reaper counting (rounds ++ (stopped ∷ ws')) two_sessions
          ≡ run_reaper counting (rounds ++ (stopped ∷ [])) two_sessions)
run_reaper_lem_example = run_reaper_lem counting rounds two_sessions two_sessions-IsDict
