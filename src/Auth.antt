-- ===== src/Auth.antt =====
-- web/auth.py: the signed session cookie and the middleware that asks for it.
pub mod Laws
pub mod Browse
mod Tests
use text.Mathlib.Text.{starts_with}
use accounting_tool.Prelude.Dict.{lookup, get_or}
use accounting_tool.Prelude.{
  ℕ, ◌∷◌, ◌++◌, Bool, some, String, ◌*◌, Option, List, none, [], ◌=?◌, if◌then◌else◌, ◌>>=◌, ◌&&◌,
  true, ◌||◌, ltb, string_eq, ◌+◌,
}

-- A value of the JSON that the cookie carries. A number is in epoch seconds; any other value, a
-- negative number too, is kept as its text.
pub data Json : Type 0 where
  text_value : String → Json
  number : ℕ → Json
  null : Json
  other : String → Json

pub data Payload : Type 0 where
  object : List (String × Json) → Payload
  not_object : Payload

-- The assignee and the session are read from JSON, and their types are not checked.
pub record Session : Type 0 where
  pub assignee_id : Json
  pub last_activity : ℕ
  pub session_id : Json

pub record AuthConfig : Type 0 where
  pub passphrase : String
  pub signing_secret : String
  pub cookie_secure : Bool
  pub inactivity_seconds : ℕ

abbrev pub default_inactivity_seconds : ℕ
default_inactivity_seconds = 8 * 60 * 60

-- The serializer of itsdangerous under the signing secret, which reads the wall clock, and `int()`
-- of Python on a value of JSON. `loads` gives none where it raises.
pub record Serializer (Cookie : Type 0) : Type 0 where
  pub is_empty : Cookie → Bool
  pub dumps : ℕ → List (String × Json) → Cookie
  pub loads : ℕ → Cookie → ℕ → Option Payload
  pub int_of : Json → Option ℕ

pub data CookieChange (Cookie : Type 0) : Type 0 where
  set_to : Cookie → Bool → CookieChange Cookie
  cleared : CookieChange Cookie

-- A response, with the Set-Cookie headers for the session cookie in the order they were added.
pub record Response (Cookie : Type 0) : Type 0 where
  pub status_code : ℕ
  pub location : Option String
  pub body : String
  pub set_cookies : List (CookieChange Cookie)

pub record Request (Cookie : Type 0) : Type 0 where
  pub path : String
  pub method : String
  pub cookie : Option Cookie

-- What the middleware puts in `request.state`.
abbrev pub RequestState : Type 0
RequestState = Json × Json

-- `_is_public`
unfoldable pub is_public : String → Bool
is_public path =
    if path =? "/login" then true else (path =? "/static" || starts_with path "/static/")

-- `_redirect_to_login`
abbrev pub redirect_to_login : {Cookie : Type 0} → Response Cookie
redirect_to_login = record {
  status_code = 302;
  location = some "/login";
  body = "";
  set_cookies = [];
}

abbrev pub set_session_cookie :
    {Cookie : Type 0} → Cookie → Bool → Response Cookie → Response Cookie
set_session_cookie value secure response = record response {
  set_cookies = response.set_cookies ++ (set_to value secure ∷ []);
}

abbrev pub clear_session_cookie : {Cookie : Type 0} → Response Cookie → Response Cookie
clear_session_cookie response = record response {
  set_cookies = response.set_cookies ++ (cleared ∷ []);
}

module _ {Cookie : Type 0} (s : Serializer Cookie) where
  -- `SessionAuthenticator.sign`, at the reading `clock` of the wall clock.
  unfoldable pub sign : ℕ → Session → Cookie
  sign clock session = s.dumps clock (
      ("a", session.assignee_id)
      ∷ ("t", number session.last_activity)
      ∷ ("s", session.session_id)
      ∷ [])

  -- `payload["a"]` and `int(payload["t"])`, in this order, and then the inactivity test.
  unfoldable pub read_payload : ℕ → ℕ → Payload → Option Session
  read_payload max_age now_epoch not_object = none
  read_payload max_age now_epoch (object fields) = lookup "a" fields >>= (λ assignee_id.
      lookup "t" fields >>= (λ t. s.int_of t >>= (λ last_activity.
        if ltb (last_activity + max_age) now_epoch
        then none
        else some (record {
          assignee_id = assignee_id;
          last_activity = last_activity;
          session_id = get_or "s" null fields;
        }))))

  -- `SessionAuthenticator.verify`
  unfoldable pub verify : ℕ → Option Cookie → ℕ → ℕ → Option Session
  unfolding read_payload
  verify clock none max_age now_epoch = none
  verify clock (some cookie_value) max_age now_epoch =
      if s.is_empty cookie_value
      then none
      else s.loads clock cookie_value max_age
        >>= (λ payload. read_payload max_age now_epoch payload)

  abbrev pub is_logout : Request Cookie → Bool
  is_logout request = request.method =? "POST" && request.path =? "/logout"

  -- `_now`: the override, or the wall clock.
  abbrev pub now_or : Option ℕ → ℕ → ℕ
  now_or none clock = clock
  now_or (some now_epoch) clock = now_epoch

  -- The rest of `dispatch` once the cookie was verified. `call_next` is the application below for
  -- this request, and `clock` the wall clock when it has answered.
  unfoldable pub dispatch_verified :
      AuthConfig
      → ℕ
      → ℕ
      → (Option RequestState → Response Cookie)
      → Request Cookie
      → Option Session
      → Response Cookie
  unfolding sign
  dispatch_verified config now clock call_next request none = redirect_to_login
  dispatch_verified config now clock call_next request (some session) =
      let response = call_next (some (session.assignee_id, session.session_id)) in
      let refreshed : Session = record session { last_activity = now } in
      if is_logout request
      then response
      else set_session_cookie (sign clock refreshed) config.cookie_secure response

  -- `AuthMiddleware.dispatch`, with the readings of the wall clock before and after `call_next`.
  unfoldable pub dispatch :
      AuthConfig
      → Option ℕ
      → ℕ
      → ℕ
      → (Option RequestState → Response Cookie)
      → Request Cookie
      → Response Cookie
  unfolding is_public verify dispatch_verified
  dispatch config override clock_in clock_out call_next request =
      if is_public request.path
      then call_next none
      else let now = now_or override clock_in in
        dispatch_verified config now clock_out call_next request
          (verify clock_in request.cookie config.inactivity_seconds now)
