-- ===== src/Sso.antt =====
-- src/extras/sso/sso.service.ts, `SsoService`.
pub mod Laws
use luoluo_auth.Common.{
  String, Bool, true, false, Option, none, some, List, [], ◌∷◌, if◌then◌else◌, truthy, get_or,
  or_text, ◌==◌,
}
use luoluo_auth.Common.JsMap
use luoluo_auth.Common.JsMap.{JsMap}
use luoluo_auth.MemoryStore.Data.{SessionData}
use luoluo_auth.Permission.{split}
use luoluo_auth.Auth.Errors.{Outcome, ok, throw}
use luoluo_auth.Auth.Service.{World, Deps}
use luoluo_auth.Auth.Service.Tokens.{validate_token}
use luoluo_auth.Auth.Guard.{bearer_of}

pub data TokenSource : Type 0 where
  header cookie query : TokenSource

pub record SsoCodeExchangeResult : Type 0 where
  pub user_id : String
  pub username : Option String
  pub roles : Option (List String)
  pub permissions : Option (List String)

-- `code_exchange_handler` is the application's: its result for a code and a state, or none.
pub record SsoServiceConfig : Type 0 where
  pub token_strategy : Option (List TokenSource)
  pub login_url : Option String
  pub token_param_name : Option String
  pub code_exchange_handler : Option (String → Option String → Option SsoCodeExchangeResult)

pub record SsoCallbackQuery : Type 0 where
  pub code : Option String
  pub state : Option String
  pub error : Option String
  pub error_description : Option String

pub record SsoRedirectFormData : Type 0 where
  pub url : String
  pub redirect_uri : String
  pub token : String

-- A URL, with the parameters that are set in its query.
pub record SsoRedirectUrl : Type 0 where
  pub url : String
  pub parameters : List (String × String)

pub record SsoUserInfo : Type 0 where
  pub user_id : String
  pub username : Option String
  pub roles : Option (List String)
  pub permissions : Option (List String)

-- A value in the query: a text, or a list or object of them.
pub data QueryValue : Type 0 where
  text : String → QueryValue
  other : QueryValue

pub record SsoRequest : Type 0 where
  pub authorization : Option String
  pub cookies : JsMap String
  pub query : JsMap QueryValue

-- The user, or the Error that is thrown.
pub data SsoReply : Type 0 where
  user : SsoUserInfo → SsoReply
  authorization_failed : (error description : String) → SsoReply
  missing_code no_valid_user invalid_code : SsoReply

abbrev pub text_value : Option QueryValue → Option String
text_value (some (text s)) = some s
text_value (some other) = none
text_value none = none

module _ (config : SsoServiceConfig) where
  unfoldable pub build_redirect_form_data : String → String → SsoRedirectFormData
  build_redirect_form_data client_app_url token = record {
    url = or_text config.login_url "/auth/login";
    redirect_uri = client_app_url;
    token = token;
  }

  -- A parameter name that is `redirect_uri` replaces the first parameter: `searchParams.set`.
  unfoldable pub build_redirect_url : String → String → SsoRedirectUrl
  build_redirect_url client_app_url token = record {
    url = or_text config.login_url "/auth/login";
    parameters =
        JsMap.set (("redirect_uri", client_app_url) ∷ []) (or_text config.token_param_name "token")
          token;
  }

  unfoldable pub extract_token_from_source : SsoRequest → TokenSource → String → Option String
  extract_token_from_source q header name =
      if truthy q.authorization then bearer_of (split b' ' (get_or q.authorization "")) else none
  extract_token_from_source q cookie name = JsMap.get q.cookies name
  extract_token_from_source q query name = text_value (JsMap.get q.query name)

  -- The loop over the sources.
  unfoldable pub first_token : SsoRequest → String → List TokenSource → Option String
  unfolding extract_token_from_source
  first_token q name [] = none
  first_token q name (source ∷ sources) =
      let rest = first_token q name sources in
      let token = extract_token_from_source q source name in if truthy token then token else rest

  unfoldable pub extract_token_from_request : SsoRequest → Option String
  unfolding first_token
  extract_token_from_request q =
      first_token q (or_text config.token_param_name "token")
        (get_or config.token_strategy (header ∷ cookie ∷ query ∷ []))

  -- What the handler's result means.
  unfoldable pub exchanged : Option SsoCodeExchangeResult → SsoReply
  exchanged none = no_valid_user
  exchanged (some result) =
      if result.user_id == ""
      then no_valid_user
      else user (record {
        user_id = result.user_id;
        username = some (or_text result.username result.user_id);
        roles = result.roles;
        permissions = result.permissions;
      })

  module _ {S L K R : Type 0} (d : Deps S L K R) where
    abbrev pub of_session : World S L K R × Outcome SessionData → World S L K R × SsoReply
    of_session (w, throw e) = (w, invalid_code)
    of_session (w, ok session) = (
      w,
      user (record {
        user_id = session.user_id;
        username = some session.user_id;
        roles = session.roles;
        permissions = session.permissions;
      }),
    )

    unfoldable pub handle_callback : SsoCallbackQuery → World S L K R → World S L K R × SsoReply
    unfolding exchanged
    handle_callback q w =
        if truthy q.error
        then (w, authorization_failed (get_or q.error "") (or_text q.error_description ""))
        else if truthy q.code
        then elim config.code_exchange_handler [
          | some handler ↦ (w, exchanged (handler (get_or q.code "") q.state))
          | none ↦ of_session (validate_token d (get_or q.code "") none none w)
        ]
        else (w, missing_code)
