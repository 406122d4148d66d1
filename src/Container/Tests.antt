-- ===== src/Container/Tests.antt =====
-- The container backends on a daemon that keeps a list of ids, and the theorems on them.
use docpine.Base.{
  ◌⊎◌, lookup, ℕ, ◌≡◌, ◌||◌, ◌&&◌, not, refl, suc, Bool, true, false, none, some, List, [], ◌∷◌,
  Bytes, codes, str_eq, str_eq_iff, arith, if◌then◌else◌,
}
use docpine.Runtime.{Error, other, Result, ok, err}
use docpine.Container.{destroy, Daemon, Host, missing}
use docpine.Container.Leaks.{IsDocumented, CanRemove}
use docpine.Container.Ownership.{
  destroy_reports, IsStoppable, live, on_daemon, container_runtimes-IsTidy,
}
use docpine.Runtime.Tidy.{IsTidy}
use docpine.Terminal.{eof}
use docpine.Container.Stream.{Wires, PtyStream, hijacked, read, close}
use docpine.Gvisor.{gvisor_runtime}
use docpine.Docker.{docker_runtime}

abbrev is_listed : Bytes → List Bytes → Bool
is_listed x [] = false
is_listed x (y ∷ d) = str_eq y x || is_listed x d

abbrev without : Bytes → List Bytes → List Bytes
without id [] = []
without id (y ∷ d) = if str_eq y id then without id d else y ∷ without id d

abbrev create_listed : Bytes → List Bytes → List Bytes × Result Bytes
create_listed name d =
    if is_listed name d then (d, err (other (codes "in use"))) else (name ∷ d, ok name)

-- The name of a container is its id, and no container starts.
abbrev listing : Daemon (List Bytes) ℕ
listing = record {
  ping = λ d. (d, none);
  image_inspect = λ img d. (d, missing);
  image_pull = λ img d. (d, none);
  container_create = λ cfg name d. create_listed name d;
  container_start = λ id d. (d, some (other (codes "no memory")));
  container_stop = λ id t d. (d, none);
  container_remove = λ id force volumes d. (without id d, none);
  container_inspect = λ id d. (d, ok (some 42));
  container_attach = λ id d. (d, ok 1);
  close = λ d. (d, none);
}

is_listed-without :
    (x id : Bytes) (d : List Bytes)
    → is_listed x (without id d) ≡ (not (str_eq id x) && is_listed x d)
is_listed-without x id [] = ground arith
is_listed-without x id (y ∷ d) =
    ground (arith, is_listed-without x id d, str_eq_iff y id, str_eq_iff id x, str_eq_iff y x)

gone : (id : Bytes) (d : List Bytes) → is_listed id (without id d) ≡ false
gone id d = ground (arith, is_listed-without id id d, str_eq_iff id id)

listing-IsDocumented : IsDocumented listing is_listed
listing-IsDocumented = record {
  inspects = λ x img d. refl;
  pulls = λ x img d. refl;
  starts = λ x id d. refl;
  refuses = λ x cfg name d e h. ground arith;
  fresh = λ cfg name d id h. ground arith;
  creates = λ x cfg name d id h. ground arith;
  removes = λ id volumes d h. gone id d;
  spares = λ x id volumes d other. ground (arith, is_listed-without x id d);
}

listing-CanRemove : CanRemove listing
listing-CanRemove = record { succeeds = λ id volumes d. refl }

abbrev host : Host (List Bytes)
host = record { daemon = codes "docpine-s1" ∷ []; destroyed = (codes "docpine-s1", false) ∷ [] }

listing-IsStoppable : IsStoppable listing is_listed
listing-IsStoppable = record { stops = λ x id t d. refl; attaches = λ x id d. refl }

-- A daemon that removes nothing.
abbrev stubborn : Daemon (List Bytes) ℕ
stubborn = record listing {
  container_remove = λ id force volumes d. (d, some (other (codes "restarting")));
}

stubborn-IsDocumented : IsDocumented stubborn is_listed
stubborn-IsDocumented = record {
  inspects = λ x img d. refl;
  pulls = λ x img d. refl;
  starts = λ x id d. refl;
  refuses = λ x cfg name d e h. ground arith;
  fresh = λ cfg name d id h. ground arith;
  creates = λ x cfg name d id h. ground arith;
  removes = λ id volumes d h. absurd (cc);
  spares = λ x id volumes d apart. refl;
}

stubborn-IsStoppable : IsStoppable stubborn is_listed
stubborn-IsStoppable = record { stops = λ x id t d. refl; attaches = λ x id d. refl }

destroy_reports_example :
    let (h', failed) = destroy stubborn (codes "docpine-s1") host in
    ((x : Bytes)
      → str_eq (codes "docpine-s1") x ≡ false
      → is_listed x h'.daemon ≡ is_listed x host.daemon)
    × ((is_listed (codes "docpine-s1") h'.daemon ≡ false) ⊎ ((e : Error) × (failed ≡ some e)))
    × (destroy stubborn (codes "docpine-s1") h' ≡ (h', none))
unfolding lookup str_eq
destroy_reports_example =
    destroy_reports stubborn is_listed stubborn-IsDocumented stubborn-IsStoppable
      (codes "docpine-s1") host refl

container_runtimes-IsTidy_example :
    IsTidy (docker_runtime listing [] (codes "none")) (on_daemon is_listed) str_eq live
    × IsTidy
        (gvisor_runtime listing
          (λ name d. ok name)
          (λ path d. (d, none))
          (λ d. (d, ok []))
          []
          (codes "none")
          [])
        (on_daemon is_listed)
        str_eq
        live
container_runtimes-IsTidy_example =
    container_runtimes-IsTidy listing is_listed listing-IsDocumented listing-IsStoppable
      listing-CanRemove (λ name d. ok name) (λ path d. (d, none)) (λ d. (d, ok [])) []
      (codes "none") []

-- The daemon counts the connections that were closed; the buffer holds the banner.
abbrev wires : Wires ℕ Bytes ℕ
wires = record {
  read_buffered = λ banner d. (d, banner, none);
  read_conn = λ q d. (d, [], some eof);
  write_conn = λ q bytes d. (d, none);
  close_conn = λ q d. (suc d, none);
}

abbrev shell : PtyStream ℕ Bytes ℕ
shell = hijacked (codes "$ ") 1 suc

stream_tests :
    (read wires shell 0 ≡ (0, codes "$ ", none))
    × ((close wires shell 0).0.1 ≡ 1)
    × ((close wires (close wires shell 0).0.0 1) ≡ ((record shell { closed = true }, 1), none))
unfolding hijacked read close
stream_tests = (refl, refl, refl)
