-- ===== src/Abuse/Turnstile.antt =====
-- internal/abuse/turnstile.go: the check of a challenge token with Cloudflare's siteverify service.
use docpine.Base.{
  is_empty_ne, ℕ, ◌≡◌, refl, ◌↔◌, ◌≢◌, Bool, true, false, not, Option, none, some, List, [], ◌∷◌,
  Bytes, codes, is_empty, if◌then◌else◌, arith,
}
use docpine.Text.{trim_space}
use docpine.Runtime.{Error, wrap, turnstile_failed, turnstile_missing}

-- The fields of the form that is posted.
abbrev pub Form : Type 0
Form = List (Bytes × Bytes)

-- How the exchange with the service ends: the request cannot be built or sent, the body cannot be
-- read or parsed, or the service answers with `success` and its error codes.
pub data Reply : Type 0 where
  bad_request send_failed read_failed parse_failed : Error → Reply
  answered : Bool → List Bytes → Reply

-- NewTurnstileValidator keeps the secret without the space around it.
unfoldable pub secret_key : Bytes → Bytes
secret_key secret = trim_space secret

-- IsEnabled
unfoldable pub is_enabled : Bytes → Bool
is_enabled key = not (is_empty key)

unfoldable pub verify_form : Bytes → Bytes → Bytes → Form
verify_form key token client_ip =
    (codes "secret", key)
    ∷ (codes "response", token)
    ∷ (if is_empty client_ip then [] else (codes "remoteip", client_ip) ∷ [])

unfoldable pub reply_error : Reply → Option Error
reply_error (bad_request e) = some (wrap (codes "failed to create turnstile verify request") e)
reply_error (send_failed e) = some (wrap (codes "turnstile verification request failed") e)
reply_error (read_failed e) = some (wrap (codes "failed to read turnstile response") e)
reply_error (parse_failed e) = some (wrap (codes "failed to parse turnstile response") e)
reply_error (answered true error_codes) = none
reply_error (answered false error_codes) = some (wrap (codes "error codes") turnstile_failed)

reply_error-eq_none :
    (r : Reply)
    → reply_error r ≡ none
    → (error_codes : List Bytes) × (r ≡ answered true error_codes)
unfolding reply_error
reply_error-eq_none (answered true error_codes) h = (error_codes, refl)
reply_error-eq_none (answered false error_codes) h = cc
reply_error-eq_none (bad_request e) h = cc
reply_error-eq_none (send_failed e) h = cc
reply_error-eq_none (read_failed e) h = cc
reply_error-eq_none (parse_failed e) h = cc

module _ (siteverify : Form → Reply) where
  -- `none` is success.
  unfoldable pub verify : Bytes → Bytes → Bytes → Option Error
  unfolding is_enabled
  verify key token client_ip =
      if not (is_enabled key)
      then none
      else if is_empty token
      then some turnstile_missing
      else reply_error (siteverify (verify_form key token client_ip))

  verify_sent :
      (key : Bytes) (c : ℕ) (token client_ip : Bytes)
      → key ≢ []
      → verify key (c ∷ token) client_ip
        ≡ reply_error (siteverify (verify_form key (c ∷ token) client_ip))
  unfolding verify
  verify_sent key c token client_ip set = ground (arith, is_empty_ne key set)

  -- With a secret that is not empty, a token passes exactly when it is not empty and the service,
  -- asked about this token under this secret, answers with success.
  verify_iff :
      (key token client_ip : Bytes)
      → key ≢ []
      → (verify key token client_ip ≡ none) ↔ (
          (token ≢ [])
          × ((error_codes : List Bytes) × (siteverify (verify_form key token client_ip)
                ≡ answered true error_codes)))
  verify_iff key [] client_ip set = unfold verify in ground (arith, is_empty_ne key set)
  verify_iff key (c ∷ token) client_ip set =
      rw (verify_sent key c token client_ip set) (
        λ h. (cc, reply_error-eq_none _ h),
        λ (given, (codes, h)). rw h (unfold reply_error in refl),
      )
