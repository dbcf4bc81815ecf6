-- ===== src/Auth/Guard.antt =====
-- src/auth/auth.guard.ts, `AuthGuard` for HTTP, and `extractBearerToken` of
-- src/auth/utils/token.util.ts.
pub mod Laws
pub mod Refusals
pub mod Rpc
pub mod RpcAdmission
use luoluo_auth.Common.{
  ℕ, ◌+◌, ◌*◌, ◌/◌, String, Bool, true, false, not, ◌&&◌, ◌||◌, Option, none, some, List, [], ◌∷◌,
  if◌then◌else◌, truthy, get_or, is_some, ltb, nat_eq, or_number, ◌==◌,
}
use luoluo_auth.MemoryStore.Data.{SessionData}
use luoluo_auth.Permission.{split, has_role, has_permission}
use luoluo_auth.Auth.Errors.{Outcome, ok, throw, AuthException}
use luoluo_auth.Auth.Strategies.{DecodedToken}
use luoluo_auth.Auth.Service.{World, Deps, write}
use luoluo_auth.Auth.Service.Tokens.{validate_token, rotate_token}
use luoluo_auth.Auth.Service.Sessions.{is_user_banned, renew_session, is_safe_auth}

-- What the guard reads of a request: the `Authorization` header and the token cookie, which
-- `CookieService.read` finds under the configured name.
pub record Request : Type 0 where
  pub authorization : Option String
  pub cookie : Option String
  pub ip : Option String
  pub user_agent : Option String

-- The metadata of the handler or its class, through the reflector.
pub record Metadata : Type 0 where
  pub auth : Bool
  pub roles : Option (List String)
  pub permissions : Option (List String)
  pub safe_auth : Bool

pub data TokenSource : Type 0 where
  header cookie : TokenSource

-- `true`, with the session that was put on the request, or an exception by its status.
pub data Answer : Type 0 where
  allow : Option SessionData → Answer
  deny : ℕ → Answer

-- `const [type, token] = authHeader.split(' ')`
abbrev pub bearer_of : List String → Option String
bearer_of [] = none
bearer_of (kind ∷ []) = none
bearer_of (kind ∷ token ∷ rest) = if kind == "Bearer" then some token else none

unfoldable pub extract_bearer_token : Option String → Option String
extract_bearer_token auth_header =
    if truthy auth_header then bearer_of (split b' ' (get_or auth_header "")) else none

unfoldable pub extract_token : Bool → Request → Option (String × TokenSource)
unfolding extract_bearer_token
extract_token cookies_enabled q =
    let bearer = extract_bearer_token q.authorization in
    if truthy bearer
    then some (get_or bearer "", header)
    else if cookies_enabled && truthy q.cookie
    then some (get_or q.cookie "", cookie)
    else none

unfoldable pub has_auth_metadata : Metadata → Bool
has_auth_metadata m = m.auth || is_some m.roles || is_some m.permissions || m.safe_auth

-- 403 stays 403, every other failure of the token is 401.
abbrev pub refusal : AuthException → Answer
refusal e = if nat_eq e.status 403 then deny 403 else deny 401

-- An absent or empty list requires nothing.
abbrev pub required : Option (List String) → List String
required none = []
required (some names) = names

module _ {S L K R : Type 0} (d : Deps S L K R) (decode : String → Option DecodedToken) where
  -- Whether the blacklist is asked, and what it says.
  unfoldable pub check_banned : Option DecodedToken → World S L K R → World S L K R × Outcome Bool
  unfolding is_user_banned
  check_banned none w = (w, ok false)
  check_banned (some decoded) w =
      if decoded.user_id == "" then (w, ok false) else is_user_banned d decoded.user_id w

  -- `cookieService.write(response, rotatedToken ?? token)`
  abbrev pub put_cookie : String → World S L K R × Outcome (Option String) → World S L K R
  put_cookie token (w, ok rotated) = record w {
    cookies = write (get_or rotated token) none ∷ w.cookies;
  }
  put_cookie token (w, throw e) = w

  unfoldable pub refresh_cookie : TokenSource → String → World S L K R → World S L K R
  unfolding rotate_token
  refresh_cookie header token w = w
  refresh_cookie cookie token w =
      if d.cookies_enabled then put_cookie token (rotate_token d token w) else w

  -- `totalTtl > 0 && remaining < totalTtl / 3`, with both sides times 3 and the negative terms
  -- moved over; in seconds.
  unfoldable pub is_due : ℕ → DecodedToken → Bool
  is_due now decoded =
      let iat = or_number decoded.iat now in
      let exp = or_number decoded.exp now in ltb iat exp && ltb (3 * exp + iat) (exp + 3 * now)

  unfoldable pub try_auto_renew : Option DecodedToken → World S L K R → World S L K R
  unfolding is_due renew_session
  try_auto_renew none w = w
  try_auto_renew (some decoded) w =
      if d.config.auto_renew && is_due (w.now / 1000) decoded
      then (renew_session d decoded.session_id w).0
      else w

  -- The three checks of the session at the end.
  unfoldable pub check_session : Metadata → ℕ → SessionData → Answer
  check_session m now session =
      if not (has_role session (required m.roles))
      then deny 403
      else if not (has_permission session (required m.permissions))
      then deny 403
      else if m.safe_auth && not (is_safe_auth d now session)
      then deny 403
      else allow (some session)

  -- What follows once the blacklist has answered.
  unfoldable pub finish :
      Metadata
      → String
      → TokenSource
      → SessionData
      → World S L K R × Outcome Bool
      → World S L K R × Answer
  unfolding refresh_cookie try_auto_renew check_session
  finish m token source session (w, throw e) = (w, deny e.status)
  finish m token source session (w, ok true) = (w, deny 403)
  finish m token source session (w, ok false) =
      let w' = try_auto_renew (decode token) (refresh_cookie source token w) in
      (w', check_session m w'.now session)

  unfoldable pub admit :
      Metadata → String → TokenSource → World S L K R × Outcome SessionData → World S L K R × Answer
  unfolding check_banned finish
  admit m token source (w, throw e) = (w, refusal e)
  admit m token source (w, ok session) =
      finish m token source session (check_banned (decode token) w)

  unfoldable pub can_activate : Metadata → Request → World S L K R → World S L K R × Answer
  unfolding extract_token has_auth_metadata validate_token admit
  can_activate m q w =
      if has_auth_metadata m
      then elim (extract_token d.cookies_enabled q) [
        | none ↦ (w, deny 401)
        | some (token, source) ↦ admit m token source (validate_token d token q.ip q.user_agent w)
      ]
      else (w, allow none)
