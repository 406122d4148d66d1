-- ===== src/Http.antt =====
-- What the handlers see of net/http, and jsonio/io.go. Header names are written in one spelling, so
-- a lookup by name is a lookup of that spelling. A response is the header map, the status once it
-- has been written, the cookies set and the bodies written.
use docpine.Base.{
  ℕ, Bool, Option, none, some, List, [], ◌∷◌, ◌++◌, Bytes, codes, Dict, lookup, insert, ℤ,
}

pub data Value : Type 0 where
  text : Bytes → Value
  num : ℤ → Value
  flag : Bool → Value

-- The JSON object that is the body of an answer.
abbrev pub Json : Type 0
Json = List (Bytes × Value)

-- The fields of the cookie that the response sets; the other ones are constants.
pub record Cookie : Type 0 where
  pub name : Bytes
  pub value : Bytes
  pub path : Bytes
  pub max_age : ℕ
  pub http_only : Bool
  pub secure : Bool
  pub same_site_none : Bool

pub record Response : Type 0 where
  pub header : Dict Bytes
  pub status : Option ℕ
  pub cookies : List Cookie
  pub body : List Json

abbrev pub no_response : Response
no_response = record { header = []; status = none; cookies = []; body = [] }

abbrev pub set_header : Bytes → Bytes → Response → Response
set_header name value w = record w { header = insert name value w.header }

-- A second call of WriteHeader has no effect.
abbrev pub write_header : ℕ → Response → Response
write_header code w = elim w.status [ none ↦ record w { status = some code } | some earlier ↦ w ]

-- jsonio.SendJson, for objects that can be encoded.
unfoldable pub send_json : Json → ℕ → Response → Response
send_json v code w =
    let w' = write_header code (set_header (codes "Content-Type") (codes "application/json") w) in
    record w' { body = w'.body ++ v ∷ [] }

-- jsonio.SendError
unfoldable pub send_error : Bytes → ℕ → Response → Response
unfolding send_json
send_error v code w =
    send_json ((codes "error", text v) ∷ (codes "code", num (ℤ.pos code)) ∷ []) code w

-- r.Header.Get: the empty text stands for a header that is not there.
unfoldable pub get_header : Bytes → Dict Bytes → Bytes
get_header name h = elim (lookup name h) [ none ↦ [] | some v ↦ v ]

-- What the handlers read of a request: its method, its path, its headers, the address of the connection, and
-- the value of its device cookie, if it has one.
pub record Request : Type 0 where
  pub method : Bytes
  pub path : Bytes
  pub header : Dict Bytes
  pub remote_addr : Bytes
  pub device_cookie : Option Bytes

-- http.SetCookie
abbrev pub set_cookie : Option Cookie → Response → Response
set_cookie none w = w
set_cookie (some c) w = record w { cookies = w.cookies ++ c ∷ [] }
