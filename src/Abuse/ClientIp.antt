-- ===== src/Abuse/ClientIp.antt =====
-- internal/abuse/ip.go: the address that a request is counted under. `parse_ip` is net.ParseIP
-- followed by the address's own print, and `split_host_port` the host of net.SplitHostPort.
pub mod Sources
use docpine.Base.{Option, none, some, List, [], ◌∷◌, Bytes, codes, Dict, is_empty, if◌then◌else◌}
use docpine.Text.{trim_space, split}
use docpine.Http.{get_header}

module _ (parse_ip : Bytes → Option Bytes) where
  -- The loop over the entries of X-Forwarded-For.
  unfoldable pub first_address : List Bytes → Option Bytes
  first_address [] = none
  first_address (part ∷ parts) = elim (parse_ip (trim_space part)) [
    | some ip ↦ some ip
    | none ↦ first_address parts
  ]

  unfoldable pub cloudflare_address : Dict Bytes → Option Bytes
  cloudflare_address header =
      let cf_ip = trim_space (get_header (codes "CF-Connecting-IP") header) in
      if is_empty cf_ip then none else parse_ip cf_ip

  unfoldable pub forwarded_address : Dict Bytes → Option Bytes
  unfolding first_address
  forwarded_address header =
      let xff = get_header (codes "X-Forwarded-For") header in
      if is_empty xff then none else first_address (split b',' xff)

module _ (parse_ip split_host_port : Bytes → Option Bytes) where
  unfoldable pub remote_address : Bytes → Bytes
  remote_address remote_addr = elim (split_host_port remote_addr) [
    | none ↦ trim_space remote_addr
    | some host ↦ elim (parse_ip host) [ some ip ↦ ip | none ↦ host ]
  ]

  unfoldable pub get_client_ip : Dict Bytes → Bytes → Bytes
  get_client_ip header remote_addr = elim (cloudflare_address parse_ip header) [
    | some ip ↦ ip
    | none ↦ elim (forwarded_address parse_ip header) [
      | some ip ↦ ip
      | none ↦ remote_address remote_addr
    ]
  ]
