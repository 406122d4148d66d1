-- ===== src/Registry/Tests.antt =====
-- The registry with one factory, and the theorems on it.
use docpine.Base.{ℕ, [], ◌∷◌, codes, Dict}
use docpine.Runtime.{ok}
use docpine.Registry.{Factory}
use docpine.Fixtures.{counting}

-- A factory that counts its calls.
abbrev make : Factory ℕ ℕ ℕ ℕ
make cfg w = (w, ok counting)

abbrev known : Dict (Factory ℕ ℕ ℕ ℕ)
known = (codes "docker", make) ∷ []
