-- ===== src/App/Agreement.antt =====
-- The guard's view of the sessions and the registry's: when they agree, and what keeps them so.
use docpine.Base.{
  ℕ, suc, ◌+◌, ◌≡◌, ap, ◌∙◌, ◌≢◌, ◌↔◌, false, none, some, Bytes, Dict, IsDict, lookup, insert,
  delete, length, insert-IsDict, delete-IsDict, length-insert_fresh, length-delete, lookup-insert,
  lookup-delete, arith, pos, magnitude,
}
use docpine.Session.{Session}
use docpine.Abuse.Concurrency.{ConcurrencyLimiter, release, IsBounded, releases}
use docpine.Abuse.Concurrency.Bounds.{perform-IsBounded}
use docpine.Http.{Request, Response}
use docpine.Abuse.Guard.{
  Guard, Peers, Clocks, proceeds, has_active_device_session, register_session, release_session,
  release_slot, check_anonymous_create,
}
use docpine.Abuse.Guard.Slots.{check-slots}
use docpine.Abuse.Guard.Frame.{SameBindings, check-frame}
use docpine.Abuse.Guard.Bindings.{
  IsPaired, register_session-IsPaired, release_session_lem, release_session_frame,
}

-- Every registered session is bound to a device, and every bound one is registered; the counter is
-- the number of sessions and of `n` slots that requests hold.
pub record Agrees {L S : Type 0} (n : ℕ) (g : Guard L) (ss : Dict (Session S)) : Type 0 where
  pub distinct : IsDict ss
  pub paired : IsPaired g
  pub bounded : IsBounded g.concurrency
  pub balanced : g.concurrency.active ≡ pos (length ss + n)
  pub live : (id : Bytes) → (lookup id g.session_devices ≡ none) ↔ (lookup id ss ≡ none)

-- What the guard does when a session ends.
abbrev pub ended : {L : Type 0} → Bytes → Guard L → Guard L
ended id g = let g' = release_session id g in record g' { concurrency = release g'.concurrency }

released :
    (n : ℕ) (c : ConcurrencyLimiter) → c.active ≡ pos (suc n) → (release c).active ≡ pos (n + 0)
unfolding release
released n c h = ground arith

active_of_magnitude :
    (c : ConcurrencyLimiter) (n : ℕ) → IsBounded c → magnitude c.active ≡ n → c.active ≡ pos n
active_of_magnitude c n b h = ground arith

module _ {L S : Type 0} where
  pub register-Agrees :
      (d id : Bytes) (x : Session S) (g : Guard L) (ss : Dict (Session S))
      → Agrees 1 g ss
      → has_active_device_session d g ≡ false
      → lookup id ss ≡ none
      → Agrees 0 (register_session d id g) (insert id x ss)
  register-Agrees d id x g ss a idle fresh = record {
    distinct = insert-IsDict id x ss a.distinct;
    paired = (register_session-IsPaired d id g a.paired idle ((a.live id).1 fresh)).0;
    bounded = unfold register_session in a.bounded;
    balanced =
        unfold register_session in
        a.balanced ∙ ap pos (omega (arith, length-insert_fresh id x ss fresh));
    live = λ j.
        unfold register_session in
        ground (arith, lookup-insert id j x ss, lookup-insert id j d g.session_devices, a.live j);
  }

  pub ended-Agrees :
      (id : Bytes) (x : Session S) (g : Guard L) (ss : Dict (Session S))
      → Agrees 0 g ss
      → lookup id ss ≡ some x
      → Agrees 0 (ended id g) (delete id ss)
  ended-Agrees id x g ss a found =
      let (same, devices) = release_session_frame id g in
      record {
        distinct = delete-IsDict id ss a.distinct;
        paired = (release_session_lem id g a.paired).0;
        bounded = perform-IsBounded releases (release_session id g).concurrency (rw same a.bounded);
        balanced = rw same (
            released (length (delete id ss)) g.concurrency
              (a.balanced ∙ ap pos (omega (arith, length-delete id x ss a.distinct found))));
        live = λ j. ground (arith, lookup-delete id j ss, devices j, a.live j);
      }

  -- Giving back the slot of a request that failed.
  pub release_slot-Agrees :
      (g : Guard L) (ss : Dict (Session S)) → Agrees 1 g ss → Agrees 0 (release_slot false g).1 ss
  unfolding release_slot
  release_slot-Agrees g ss a = record {
    distinct = a.distinct;
    paired = a.paired;
    bounded = perform-IsBounded releases g.concurrency a.bounded;
    balanced = released (length ss) g.concurrency (a.balanced ∙ ap pos (omega arith));
    live = a.live;
  }

  transfer :
      (n : ℕ) {g g' : Guard L} (ss : Dict (Session S))
      → Agrees 0 g ss
      → SameBindings g g'
      → IsBounded g'.concurrency
      → g'.concurrency.active ≡ pos (length ss + n)
      → Agrees n g' ss
  transfer n {g} {g'} ss a same bounded balanced = record {
    distinct = a.distinct;
    paired = λ d s. rw (same.0, same.1) (a.paired d s);
    bounded = bounded;
    balanced = balanced;
    live = λ id. rw same.1 (a.live id);
  }

  -- A check leaves a guard that agrees, with a slot more if the request passes.
  pub check-Agrees :
      {R : Type 0} (peers : Peers L R) (r : Request) (t uuid : Bytes) (clocks : Clocks)
      (g : Guard L) (w : Response) (ss : Dict (Session S))
      → Agrees 0 g ss
      → let o = check_anonymous_create peers r t uuid clocks g w in
        (o.verdict ≡ proceeds → Agrees 1 o.guard ss) × (o.verdict ≢ proceeds → Agrees 0 o.guard ss)
  check-Agrees peers r t uuid clocks g w ss a =
      let (passes, stays, bounded) = check-slots peers r t uuid clocks g w a.bounded in
      let (same, _) = check-frame peers r t uuid clocks g w in
      (
        λ h. transfer 1 ss a same bounded (
            active_of_magnitude (check_anonymous_create peers r t uuid clocks g w).guard.concurrency
              (length ss + 1) bounded
              ((passes h).0 ∙ ap (λ z. magnitude z + 1) a.balanced ∙ omega arith)),
        λ h. transfer 0 ss a same bounded (stays h ∙ a.balanced),
      )
