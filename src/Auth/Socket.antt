-- ===== src/Auth/Socket.antt =====
-- src/auth/ws/ws-auth.guard.ts, `WsAuthGuard`. `decode` is `decodeURIComponent`, and `token_in` what
-- `URLSearchParams` finds under `token` in the text after the `?`.
pub mod Sources
use Prim.Native.Char.{Char, code}
use Prim.Native.String
use luoluo_auth.Common.{
  ℕ, zero, suc, String, Bool, true, false, ◌&&◌, ◌||◌, Option, none, some, List, [], ◌∷◌, map,
  nat_eq, leb, if◌then◌else◌, truthy, get_or, or_text, ◌==◌,
}
use luoluo_auth.MemoryStore.Data.{SessionData}
use luoluo_auth.Permission.{split}
use luoluo_auth.Auth.Errors.{Outcome, ok, throw}
use luoluo_auth.Auth.Service.{World, Deps}
use luoluo_auth.Auth.Service.Tokens.{validate_token}
use luoluo_auth.Auth.Guard.{extract_bearer_token}

-- The handshake of Socket.IO, by the texts that `getStringFromObject` reads out of it.
pub record Handshake : Type 0 where
  pub auth_token : Option String
  pub authorization : Option String
  pub cookie_header : Option String
  pub query_token : Option String
  pub address : Option String
  pub user_agent : Option String

-- The upgrade request of a plain socket.
pub record UpgradeRequest : Type 0 where
  pub authorization : Option String
  pub cookie_header : Option String
  pub url : Option String
  pub remote_address : Option String
  pub user_agent : Option String

pub record SocketClient : Type 0 where
  pub handshake : Option Handshake
  pub upgrade : Option UpgradeRequest

pub data SocketAnswer : Type 0 where
  joined : SessionData → SocketAnswer
  missing_token invalid_token : SocketAnswer

-- The text without what it starts with, if it does.
unfoldable pub strip_prefix : String → String → Option String
strip_prefix String.[] s = some s
strip_prefix (String.◌∷◌ c p) String.[] = none
strip_prefix (String.◌∷◌ c p) (String.◌∷◌ d s) =
    let rest = strip_prefix p s in if nat_eq (code c) (code d) then rest else none

abbrev pub is_space : Char → Bool
is_space c = nat_eq (code c) 32 || leb 9 (code c) && leb (code c) 13 || nat_eq (code c) 160

-- `part.trim()`
unfoldable pub trim_start : String → String
trim_start String.[] = String.[]
trim_start (String.◌∷◌ c s) = if is_space c then trim_start s else String.◌∷◌ c s

unfoldable pub trim_end : String → String
trim_end String.[] = String.[]
trim_end (String.◌∷◌ c s) =
    let rest = trim_end s in if is_space c && (rest == "") then String.[] else String.◌∷◌ c rest

unfoldable pub trim : String → String
unfolding trim_start trim_end
trim s = trim_end (trim_start s)

-- `.find((part) => part.startsWith(`${name}=`))`, and what follows the prefix.
unfoldable pub find_cookie : String → List String → Option String
unfolding strip_prefix trim
find_cookie prefix [] = none
find_cookie prefix (part ∷ parts) =
    let rest = find_cookie prefix parts in
    elim (strip_prefix prefix (trim part)) [ none ↦ rest | some value ↦ some value ]

-- `url.split('?')[1]`
abbrev pub second : List String → Option String
second [] = none
second (a ∷ []) = none
second (a ∷ b ∷ rest) = some b

module _ (name : String) (decode : String → String) (token_in : String → Option String) where
  unfoldable pub read_cookie : String → Option String
  unfolding split find_cookie
  read_cookie cookie_header = elim (find_cookie (String.◌++◌ name "=") (split b';' cookie_header)) [
    | none ↦ none
    | some value ↦ some (decode value)
  ]

  unfoldable pub extract_token_from_url : Option String → Option String
  unfolding split
  extract_token_from_url url =
      let search = second (split b'?' (get_or url "")) in
      if truthy url && truthy search
      then (let found = token_in (get_or search "") in if truthy found then found else none)
      else none

  -- The cookie, or what comes after it.
  abbrev pub cookie_or : Bool → Option String → Option String → Option String
  cookie_or enabled cookie_header otherwise =
      if truthy cookie_header && enabled then read_cookie (get_or cookie_header "") else otherwise

  unfoldable pub from_upgrade : Bool → Option UpgradeRequest → Option String
  unfolding extract_bearer_token read_cookie extract_token_from_url
  from_upgrade enabled none = none
  from_upgrade enabled (some u) =
      let header_token = extract_bearer_token u.authorization in
      if truthy header_token
      then header_token
      else cookie_or enabled u.cookie_header (extract_token_from_url u.url)

  -- The sources of a handshake; without a token in them the upgrade request is looked at.
  unfoldable pub from_handshake : Bool → Handshake → Option String → Option String
  unfolding extract_bearer_token read_cookie
  from_handshake enabled h otherwise =
      let header_token = extract_bearer_token h.authorization in
      if truthy h.auth_token
      then h.auth_token
      else if truthy header_token
      then header_token
      else cookie_or enabled h.cookie_header
          (if truthy h.query_token then h.query_token else otherwise)

  unfoldable pub extract_token : Bool → SocketClient → Option String
  unfolding from_upgrade from_handshake
  extract_token enabled client = elim client.handshake [
    | none ↦ from_upgrade enabled client.upgrade
    | some h ↦ from_handshake enabled h (from_upgrade enabled client.upgrade)
  ]

  -- The address and the user agent.
  unfoldable pub extract_client_info : SocketClient → Option String × Option String
  extract_client_info client = elim client.handshake [
    | some h ↦ (h.address, h.user_agent)
    | none ↦ elim client.upgrade [ some u ↦ (u.remote_address, u.user_agent) | none ↦ (none, none) ]
  ]

  module _ {S L K R : Type 0} (d : Deps S L K R) where
    abbrev pub answer_of : World S L K R × Outcome SessionData → World S L K R × SocketAnswer
    answer_of (w, ok session) = (w, joined session)
    answer_of (w, throw e) = (w, invalid_token)

    unfoldable pub can_activate : SocketClient → World S L K R → World S L K R × SocketAnswer
    unfolding extract_token extract_client_info
    can_activate client w =
        let token = extract_token d.cookies_enabled client in
        let (ip, user_agent) = extract_client_info client in
        if truthy token
        then answer_of (validate_token d (get_or token "") ip user_agent w)
        else (w, missing_token)
