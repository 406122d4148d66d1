-- ===== src/Abuse/RateLimiter/Keys.antt =====
-- The key of a pair determines its address and its device.
use docpine.Base.{ℕ, ◌≡◌, refl, sym, [], ◌∷◌, ◌++◌, Bytes}
use mathlib.Core.Path.{subst}
use docpine.Text.Split.{Free}
use docpine.Abuse.RateLimiter.{pair_key}

-- The separator stands in the second text only if the texts are equal.
not-Free : (s t : Bytes) → ¬ Free b':' (s ++ b':' ∷ t)
not-Free [] t f = f.0 refl
not-Free (c ∷ s) t f = not-Free s t f.1

tail_path : {c d : ℕ} {s t : Bytes} → c ∷ s ≡ d ∷ t → s ≡ t
tail_path h = cc

-- Two pairs have the same key only if they are the same pair, for device ids without a colon,
-- whatever colons the addresses have.
pair_key_injective :
    (ip ip' device device' : Bytes)
    → Free b':' device
    → Free b':' device'
    → pair_key ip device ≡ pair_key ip' device'
    → (ip ≡ ip') × (device ≡ device')
unfolding pair_key
pair_key_injective [] [] device device' f g h = (refl, cc)
pair_key_injective [] (c ∷ ip') device device' f g h =
    absurd (not-Free ip' device' (subst (Free b':') (tail_path h) f))
pair_key_injective (c ∷ ip) [] device device' f g h =
    absurd (not-Free ip device (subst (Free b':') (sym (tail_path h)) g))
pair_key_injective (c ∷ ip) (d ∷ ip') device device' f g h =
    let (same, rest) = pair_key_injective ip ip' device device' f g (tail_path h) in (cc, rest)
