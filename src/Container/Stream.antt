-- ===== src/Container/Stream.antt =====
-- ptyStream of internal/runtime/docker/docker.go and gvisorPTYStream of
-- internal/runtime/gvisor/gvisor.go: the two ends of a hijacked connection as one stream. `R` is a
-- bufio.Reader and `Q` a connection, over the daemon's state `D`.
use docpine.Base.{◌≡◌, Bool, true, false, Option, none, some, Bytes, arith, if◌then◌else◌}
use docpine.Runtime.{Error}
use docpine.Terminal.{ReadError}

-- The methods of bufio.Reader and net.Conn.
pub record Wires (D R Q : Type 0) : Type 0 where
  pub read_buffered : R → D → D × Bytes × Option ReadError
  pub read_conn : Q → D → D × Bytes × Option ReadError
  pub write_conn : Q → Bytes → D → D × Option Error
  pub close_conn : Q → D → D × Option Error

-- AttachPTY always sets the connection; `closed` is closeOnce.
pub record PtyStream (D R Q : Type 0) : Type 0 where
  pub reader : Option R
  pub conn : Q
  pub close_func : Option (D → D × Option Error)
  pub closed : Bool

module _ {D R Q : Type 0} where
  -- The stream of a connection that ContainerAttach has handed out; `hang_up` is its Close.
  unfoldable pub hijacked : R → Q → (D → D) → PtyStream D R Q
  hijacked reader conn hang_up = record {
    reader = some reader;
    conn = conn;
    close_func = some (λ d. (hang_up d, none));
    closed = false;
  }

module _ {D R Q : Type 0} (wires : Wires D R Q) where
  unfoldable pub read : PtyStream D R Q → D → D × Bytes × Option ReadError
  read p d = elim p.reader [
    | some reader ↦ wires.read_buffered reader d
    | none ↦ wires.read_conn p.conn d
  ]

  unfoldable pub write : PtyStream D R Q → Bytes → D → D × Option Error
  write p bytes d = wires.write_conn p.conn bytes d

  unfoldable pub close : PtyStream D R Q → D → (PtyStream D R Q × D) × Option Error
  close p d =
      let (d', failed) : D × Option Error = elim p.close_func [
        | some hang_up ↦ hang_up d
        | none ↦ wires.close_conn p.conn d
      ] in
      if p.closed then ((p, d), none) else ((record p { closed = true }, d'), failed)

  -- Only the first Close reaches the connection.
  close-close :
      (p : PtyStream D R Q) (d d' : D) → let q = (close p d).0.0 in close q d' ≡ ((q, d'), none)
  unfolding close
  close-close p d d' = ground arith
