-- ===== src/Auth/Guard/Rpc.antt =====
-- src/auth/auth.guard.ts, `AuthGuard.forMicroservice`, and `extractTokenFromRpcContext` of
-- src/auth/utils/token.util.ts.
use luoluo_auth.Common.{
  ℕ, String, Bool, true, false, not, ◌&&◌, Option, none, some, if◌then◌else◌, truthy, get_or,
  or_text, ◌==◌,
}
use luoluo_auth.MemoryStore.Data.{SessionData}
use luoluo_auth.Permission.{has_role, has_permission}
use luoluo_auth.Auth.Errors.{Outcome, ok, throw, AuthException}
use luoluo_auth.Auth.Service.{World, Deps}
use luoluo_auth.Auth.Service.Tokens.{validate_rpc_token}
use luoluo_auth.Auth.Service.Sessions.{is_user_banned, is_safe_auth}
use luoluo_auth.Auth.Guard.{Metadata, extract_bearer_token, required}

-- A field of a context: a text, or another value by its truthiness.
pub data Field : Type 0 where
  text : String → Field
  other : Bool → Field

-- The two spellings of the field with the token.
pub record AuthFields : Type 0 where
  pub lower : Option Field
  pub upper : Option Field

-- An object: what its `getMap()` answers, for gRPC metadata, and its own fields.
pub record RpcContext : Type 0 where
  pub metadata : Option AuthFields
  pub own : AuthFields
  pub ip : Option String
  pub client_ip : Option String
  pub peer : Option String

-- `true` with the session on the context, or an RpcException: by its reason, or that of the
-- service.
pub data RpcAnswer : Type 0 where
  admitted : SessionData → RpcAnswer
  missing_token banned role_required permission_required safe_auth_required : RpcAnswer
  rejected : AuthException → RpcAnswer

abbrev pub is_truthy : Option Field → Bool
is_truthy none = false
is_truthy (some (text s)) = if s == "" then false else true
is_truthy (some (other b)) = b

-- `extractBearerToken(authHeader) || authHeader`, for a text.
abbrev pub token_of : Option Field → Option String
token_of none = none
token_of (some (other b)) = none
token_of (some (text s)) = some (or_text (extract_bearer_token (some s)) s)

-- `fields['authorization'] || fields['Authorization']`
abbrev pub auth_field : AuthFields → Option Field
auth_field f = if is_truthy f.lower then f.lower else f.upper

unfoldable pub extract_token_from_rpc_context : Option RpcContext → Option String
unfolding extract_bearer_token
extract_token_from_rpc_context none = none
extract_token_from_rpc_context (some context) = elim context.metadata [
  | none ↦ token_of (auth_field context.own)
  | some fields ↦ token_of (auth_field fields)
]

unfoldable pub extract_client_ip_from_rpc : Option RpcContext → Option String
extract_client_ip_from_rpc none = none
extract_client_ip_from_rpc (some context) =
    if truthy context.ip
    then context.ip
    else if truthy context.client_ip
    then context.client_ip
    else if truthy context.peer
    then context.peer
    else none

module _ {S L K R : Type 0} (d : Deps S L K R) where
  -- The three checks of the session at the end.
  unfoldable pub check_rpc_session : Metadata → ℕ → SessionData → RpcAnswer
  check_rpc_session m now session =
      if not (has_role session (required m.roles))
      then role_required
      else if not (has_permission session (required m.permissions))
      then permission_required
      else if m.safe_auth && not (is_safe_auth d now session)
      then safe_auth_required
      else admitted session

  -- What follows once the blacklist has answered.
  unfoldable pub finish_rpc :
      Metadata → SessionData → World S L K R × Outcome Bool → World S L K R × RpcAnswer
  unfolding check_rpc_session
  finish_rpc m session (w, throw e) = (w, rejected e)
  finish_rpc m session (w, ok true) = (w, banned)
  finish_rpc m session (w, ok false) = (w, check_rpc_session m w.now session)

  unfoldable pub admit_rpc :
      Metadata → World S L K R × Outcome SessionData → World S L K R × RpcAnswer
  unfolding finish_rpc
  admit_rpc m (w, throw e) = (w, rejected e)
  admit_rpc m (w, ok session) = finish_rpc m session (is_user_banned d session.user_id w)

  -- `canActivate` for a context of type `rpc`.
  unfoldable pub can_activate_rpc :
      Metadata → Option RpcContext → World S L K R → World S L K R × RpcAnswer
  unfolding admit_rpc
  can_activate_rpc m context w =
      let token = extract_token_from_rpc_context context in
      if truthy token
      then admit_rpc m
          (validate_rpc_token d (get_or token "") (extract_client_ip_from_rpc context) none w)
      else (w, missing_token)
