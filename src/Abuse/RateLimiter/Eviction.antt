-- ===== src/Abuse/RateLimiter/Eviction.antt =====
-- Which buckets the eviction keeps.
use docpine.Base.{
  ℕ, ◌+◌, ◌≤◌, ◌≡◌, ◌↔◌, some, List, [], ◌∷◌, Bytes, Dict, IsDict, lookup, lookup-retain, retain,
  retain-IsDict, arith,
}
use docpine.Background.{Wake, stopped, ticked, run_loop, AtRounds}
use docpine.Abuse.RateLimiter.{
  Entry, RateLimiter, is_recent, stale_after, evict, evict_stale_entries,
}

lookup-retain_iff :
    {L : Type 0} (now : ℕ) (key : Bytes) (e : Entry L) (m : Dict (Entry L))
    → IsDict m
    → (lookup key (retain (is_recent now) m) ≡ some e)
      ↔ ((lookup key m ≡ some e) × (now ≤ e.last_seen + stale_after))
lookup-retain_iff now key e m d = ground (arith, lookup-retain (is_recent now) key m d)

-- An entry was seen in the hour before each round.
abbrev pub Recent : {L : Type 0} → List Wake → Entry L → Type 0
Recent ws e = AtRounds (λ now. now ≤ e.last_seen + stale_after) ws

-- The entry under a key, before and after.
abbrev pub Keeps : {L : Type 0} → List Wake → Bytes → Dict (Entry L) → Dict (Entry L) → Type 0
Keeps {L} ws key m m' =
    (e : Entry L) → (lookup key m' ≡ some e) ↔ ((lookup key m ≡ some e) × Recent ws e)

Keeps-retain :
    {L : Type 0} (ws : List Wake) (now : ℕ) (key : Bytes) (m m' : Dict (Entry L))
    → IsDict m
    → Keeps ws key (retain (is_recent now) m) m'
    → Keeps (ticked now ∷ ws) key m m'
Keeps-retain ws now key m m' d kept e =
    let here = lookup-retain_iff now key e m d in
    (
      λ h.
          let (there, rounds) = (kept e).0 h in
          let (before, recent) = here.0 there in (before, (recent, rounds)),
      λ (before, (recent, rounds)). (kept e).1 (here.1 (before, recent), rounds),
    )

-- In maps with distinct keys, the goroutine of the eviction, however often it wakes until it is
-- stopped, keeps exactly the entries that were seen in the hour before each of its rounds, each as
-- it was, in both maps, and keeps the keys distinct.
pub evict_stale_entries_lem :
    {L : Type 0} (ws : List Wake) (rl : RateLimiter L)
    → IsDict rl.pairs
    → IsDict rl.ip_only
    → let rl' = evict_stale_entries ws rl in
      ((key : Bytes) → Keeps ws key rl.pairs rl'.pairs × Keeps ws key rl.ip_only rl'.ip_only)
      × IsDict rl'.pairs
      × IsDict rl'.ip_only
unfolding evict_stale_entries run_loop evict
evict_stale_entries_lem [] rl d d' =
    (λ key. (λ e. (λ h. (h, tt), λ h. h.0), λ e. (λ h. (h, tt), λ h. h.0)), d, d')
evict_stale_entries_lem (stopped ∷ ws) rl d d' =
    (λ key. (λ e. (λ h. (h, tt), λ h. h.0), λ e. (λ h. (h, tt), λ h. h.0)), d, d')
evict_stale_entries_lem (ticked now ∷ ws) rl d d' =
    let rl' = evict now rl in
    let (kept, distinct, distinct') =
      evict_stale_entries_lem ws rl' (retain-IsDict (is_recent now) rl.pairs d)
        (retain-IsDict (is_recent now) rl.ip_only d') in
    (
      λ key. (
        Keeps-retain ws now key rl.pairs _ d (kept key).0,
        Keeps-retain ws now key rl.ip_only _ d' (kept key).1,
      ),
      distinct,
      distinct',
    )
