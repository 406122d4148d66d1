-- ===== src/Abuse/ClientIp/Sources.antt =====
-- Where the client's address comes from.
use docpine.Base.{
  is_empty_ne, ◌≡◌, refl, ap, ◌∙◌, ◌≢◌, true, inl, inr, Bool-cases, Option, none, some, List, [],
  ◌∷◌, ◌++◌, Bytes, codes, Dict, is_empty, All, arith,
}
use docpine.Text.{trim_space, split}
use docpine.Http.{get_header}
use docpine.Abuse.ClientIp.{
  first_address, cloudflare_address, forwarded_address, remote_address, get_client_ip,
}

eq_of_is_empty : (s : Bytes) → is_empty s ≡ true → s ≡ []
eq_of_is_empty [] h = refl
eq_of_is_empty (c ∷ s) h = cc

module _ (parse_ip : Bytes → Option Bytes) where
  blank_header : parse_ip [] ≡ none → first_address parse_ip (split b',' []) ≡ none
  unfolding first_address split trim_space
  blank_header blank = rw (blank) refl

  -- An entry of a list that is no address.
  abbrev pub IsNoAddress : Bytes → Type 0
  IsNoAddress part = parse_ip (trim_space part) ≡ none

  first_address_skips :
      (junk parts : List Bytes)
      → All IsNoAddress junk
      → first_address parse_ip (junk ++ parts) ≡ first_address parse_ip parts
  unfolding first_address
  first_address_skips [] parts h = refl
  first_address_skips (p ∷ junk) parts h =
      rw (h.0, first_address) (first_address_skips junk parts h.1)

-- The candidates of a request in their order: CF-Connecting-IP, and the entries of
-- X-Forwarded-For.
abbrev pub candidates : Dict Bytes → List Bytes
candidates header =
    get_header (codes "CF-Connecting-IP") header
    ∷ split b',' (get_header (codes "X-Forwarded-For") header)

module _ (parse_ip split_host_port : Bytes → Option Bytes) where
  -- A CF-Connecting-IP header that is not blank and is an address decides; what the other headers
  -- and the connection say does not matter.
  get_client_ip_cloudflare :
      (header : Dict Bytes) (remote_addr ip : Bytes)
      → trim_space (get_header (codes "CF-Connecting-IP") header) ≢ []
      → parse_ip (trim_space (get_header (codes "CF-Connecting-IP") header)) ≡ some ip
      → get_client_ip parse_ip split_host_port header remote_addr ≡ ip
  unfolding get_client_ip cloudflare_address
  get_client_ip_cloudflare header remote_addr ip given h =
      ground (arith, is_empty_ne (trim_space (get_header (codes "CF-Connecting-IP") header)) given)

  -- Where the CF-Connecting-IP header gives no address, the answer is the first entry of
  -- X-Forwarded-For that is an address, however many entries before it are none.
  get_client_ip_forwarded :
      (header : Dict Bytes) (remote_addr part ip : Bytes) (junk parts : List Bytes)
      → cloudflare_address parse_ip header ≡ none
      → get_header (codes "X-Forwarded-For") header ≢ []
      → split b',' (get_header (codes "X-Forwarded-For") header) ≡ junk ++ part ∷ parts
      → All (IsNoAddress parse_ip) junk
      → parse_ip (trim_space part) ≡ some ip
      → get_client_ip parse_ip split_host_port header remote_addr ≡ ip
  unfolding get_client_ip forwarded_address
  get_client_ip_forwarded header remote_addr part ip junk parts no_cf given entries skip h =
      rw (no_cf, get_client_ip)
        (rw
          (
            is_empty_ne (get_header (codes "X-Forwarded-For") header) given,
            entries,
            first_address_skips parse_ip junk (part ∷ parts) skip,
          )
          (unfold first_address in rw (h, first_address)))

  forwarded_address-split :
      (header : Dict Bytes)
      → parse_ip [] ≡ none
      → forwarded_address parse_ip header
        ≡ first_address parse_ip (split b',' (get_header (codes "X-Forwarded-For") header))
  unfolding forwarded_address first_address
  forwarded_address-split header blank =
      elim (Bool-cases (is_empty (get_header (codes "X-Forwarded-For") header))) [
        | inl missing ↦
            let xff = eq_of_is_empty (get_header (codes "X-Forwarded-For") header) missing in
            ground (arith, blank_header parse_ip blank, xff)
        | inr given ↦ rw (given) refl
      ]

  -- The address of a request is the first one among its candidates that parses as an address,
  -- with spaces around it cut off, and that of the connection where none does, as long as the
  -- empty text is no address: a header that is missing, empty or blank is as good as none.
  pub get_client_ip-first_address :
      (header : Dict Bytes) (remote_addr : Bytes)
      → parse_ip [] ≡ none
      → get_client_ip parse_ip split_host_port header remote_addr
        ≡ elim (first_address parse_ip (candidates header)) [
          | some ip ↦ ip
          | none ↦ remote_address parse_ip split_host_port remote_addr
        ]
  unfolding get_client_ip cloudflare_address first_address
  get_client_ip-first_address header remote_addr blank =
      let cf = trim_space (get_header (codes "CF-Connecting-IP") header) in
      let rest = forwarded_address-split header blank in
      elim (Bool-cases (is_empty cf)) [
        | inl missing ↦
            let none_given : parse_ip cf ≡ none = ap parse_ip (eq_of_is_empty cf missing) ∙ blank in
            ground (arith, missing, none_given, rest)
        | inr given ↦ ground (arith, given, rest)
      ]
