-- ===== src/Registry.antt =====
-- internal/runtime/registry.go: the factories by name. `C` is config.Runtime, which only the
-- factories read, and the world is where they connect.
pub mod Selection
mod Tests
use docpine.Base.{
  List, [], ◌∷◌, none, some, Bytes, codes, Dict, lookup, insert, is_empty, if◌then◌else◌,
}
use docpine.Text.{trim_space, to_lower}
use docpine.Runtime.{runtime_not_found, wrap, Result, ok, err, Runtime}

abbrev pub Factory : Type 0 → Type 0 → Type 0 → Type 0 → Type 0
Factory C W S P = C → W → W × Result (Runtime W S P)

unfoldable pub normalized : Bytes → Bytes
normalized name = to_lower (trim_space name)

unfoldable pub register : {F : Type 0} → Bytes → F → Dict F → Dict F
register name f factories = insert (normalized name) f factories

-- Available, in the order of the entries; Go's order is any.
unfoldable pub available : {F : Type 0} → Dict F → List Bytes
available [] = []
available ((name, f) ∷ factories) = name ∷ available factories

-- An empty name stands for Docker.
unfoldable pub resolved : Bytes → Bytes
resolved name = if is_empty (normalized name) then codes "docker" else normalized name

-- The host is checked at once; a backend that cannot run there is closed again.
unfoldable pub verify_host :
    {W S P : Type 0} → W × Result (Runtime W S P) → W × Result (Runtime W S P)
verify_host (w, err e) = (w, err (wrap (codes "failed to initialize runtime") e))
verify_host (w, ok rt) =
    let (w', failed) = rt.check_prerequisites w in
    let closed = (rt.close w').0 in
    elim failed [
      | some e ↦ (closed, err (wrap (codes "runtime prerequisite check failed") e))
      | none ↦ (w', ok rt)
    ]

unfoldable pub instantiate :
    {C W S P : Type 0} → Dict (Factory C W S P) → Bytes → C → W → W × Result (Runtime W S P)
instantiate factories name cfg w = elim (lookup (resolved name) factories) [
  | none ↦ (w, err (wrap (resolved name) runtime_not_found))
  | some factory ↦ verify_host (factory cfg w)
]
