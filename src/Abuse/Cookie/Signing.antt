-- ===== src/Abuse/Cookie/Signing.antt =====
-- What the device cookie proves: what is issued is accepted until it is stale, and what is accepted
-- was signed.
use docpine.Base.{
  ℕ, ◌+◌, ◌*◌, ◌/◌, ◌^◌, ◌≤◌, ◌<◌, ◌≡◌, false, none, some, List, [], ◌∷◌, ◌++◌, Bytes, ltb,
  if◌then◌else◌, str_eq_iff, str_eq_refl, ℤ, pos, arith, Option-cases, inl, inr,
}
use docpine.Text.{split, hex_encode}
use docpine.Text.Split.{Free, split-join, join, join-split}
use docpine.Text.Decimal.{print_int, parse_int, parse_int-print, print, print-Free}
use docpine.Abuse.Cookie.{
  second, is_stale, is_early, sign, verify_parts, verify_list, verify, cookie_value,
}

hex_encode-Free : (bs : Bytes) → Free b'.' (hex_encode bs)
unfolding hex_encode
hex_encode-Free [] = tt
hex_encode-Free (b ∷ bs) = ground (arith, hex_encode-Free bs)

module _ (mac : Bytes → Bytes → Bytes) (secret : Bytes) where
  split-cookie_value :
      (id : Bytes) (now : ℕ)
      → Free b'.' id
      → split b'.' (cookie_value mac secret id now)
        ≡ id ∷ print_int (pos (now / second)) ∷ sign mac secret id (pos (now / second)) ∷ []
  unfolding cookie_value print_int sign
  split-cookie_value id now f =
      split-join b'.' id (print (now / second) ∷ hex_encode _ ∷ [])
        (f, (print-Free b'.' (now / second) (omega arith), (hex_encode-Free _, tt)))

  verify_parts-sign :
      (id : Bytes) (ts now now' : ℕ)
      → ts < 2 ^ 63
      → is_early (pos ts) now' ≡ false
      → verify_parts mac secret id (print_int (pos ts)) (sign mac secret id (pos ts)) now now'
        ≡ (if ltb (ts * second + 600 * second) now then none else some id)
  unfolding verify_parts is_stale print_int
  verify_parts-sign id ts now now' small h =
      ground (arith, parse_int-print ts small, str_eq_refl (sign mac secret id (pos ts)))

  -- A cookie that was issued for an id without a dot, in a second that fits 63 bits and not after
  -- the second reading of the clock, is accepted and names that id up to ten minutes after the full
  -- second in which it was issued, and is refused after that.
  pub verify-cookie_value :
      (id : Bytes) (issued now now' : ℕ)
      → Free b'.' id
      → issued / second < 2 ^ 63
      → issued ≤ now'
      → verify mac secret (cookie_value mac secret id issued) now now'
        ≡ (if ltb (issued / second * second + 600 * second) now then none else some id)
  unfolding verify is_early
  verify-cookie_value id issued now now' f small later =
      rw (split-cookie_value id issued f, verify_list)
        (verify_parts-sign id (issued / second) now now' small (ground arith))

  abbrev Accepted : Bytes → Bytes → ℕ → ℕ → Type 0
  Accepted value id now now' =
      (ts_str : Bytes) × (ts : ℤ) × (value
        ≡ id ++ (b'.' ∷ (ts_str ++ (b'.' ∷ sign mac secret id ts))))
      × (parse_int ts_str ≡ some ts)
      × (is_stale ts now ≡ false)
      × (is_early ts now' ≡ false)

  verify_parts_sound :
      (dev ts_str sig id : Bytes) (now now' : ℕ)
      → verify_parts mac secret dev ts_str sig now now' ≡ some id
      → (ts : ℤ) × (dev ≡ id)
        × (sig ≡ sign mac secret id ts)
        × (parse_int ts_str ≡ some ts)
        × (is_stale ts now ≡ false)
        × (is_early ts now' ≡ false)
  unfolding verify_parts
  verify_parts_sound dev ts_str sig id now now' h = elim (Option-cases (parse_int ts_str)) [
    | inl e ↦ absurd (ground arith)
    | inr (ts, e) ↦ (
      ts,
      ground arith,
      ground (arith, str_eq_iff sig (sign mac secret dev ts)),
      e,
      ground arith,
      ground arith,
    )
  ]

  verify_list_sound :
      (p : Bytes) (ps : List Bytes) (value id : Bytes) (now now' : ℕ)
      → join b'.' p ps ≡ value
      → verify_list mac secret (p ∷ ps) now now' ≡ some id
      → Accepted value id now now'
  unfolding verify_list
  verify_list_sound p (t ∷ s ∷ []) value id now now' back h =
      let (ts, dev, sig, parsed, fresh, lead) = verify_parts_sound p t s id now now' h in
      (t, ts, cc, parsed, fresh, lead)
  verify_list_sound p [] value id now now' back h = cc
  verify_list_sound p (t ∷ []) value id now now' back h = cc
  verify_list_sound p (t ∷ s ∷ u ∷ v) value id now now' back h = cc

  -- A cookie that is accepted has three parts; the first is the device id, and the last is the
  -- signature of that id with the time that the second one states, which is not stale and leads
  -- the clock by five minutes at most.
  pub verify_sound :
      (value id : Bytes) (now now' : ℕ)
      → verify mac secret value now now' ≡ some id
      → (ts_str : Bytes) × (ts : ℤ) × (value
          ≡ id ++ (b'.' ∷ (ts_str ++ (b'.' ∷ sign mac secret id ts))))
        × (parse_int ts_str ≡ some ts)
        × (is_stale ts now ≡ false)
        × (is_early ts now' ≡ false)
  unfolding verify
  verify_sound value id now now' h =
      let (p, ps, e, free, back) = join-split b'.' value in
      verify_list_sound p ps value id now now' back (rw e at h)
