-- ===== src/Session.antt =====
-- session/protocol.go: sessions and the cookies that carry them.
pub mod Cookie
pub mod Renewal
mod Tests
use tick_framework.Base.{
  ℕ, ℤ, pos, negsuc, is_below, Bool, true, false, not, ◌&&◌, List, [], ◌∷◌, ◌++◌, Option, none,
  some, Bytes, GoMap, codes, lookup, assign, delete, bytes_eq, if◌then◌else◌, Res, ok, fail, panic,
}

-- What a request has that the code looks at; cookies in their order.
pub record Request : Type 0 where
  pub cookies : List (Bytes × Bytes)
  pub form : GoMap Bytes
  pub header : GoMap (List Bytes)
  pub scheme : Bytes
  pub has_tls : Bool

-- `http.Cookie`, without the time at which it expires
pub record SetCookie : Type 0 where
  pub name : Bytes
  pub value : Bytes
  pub path : Bytes
  pub http_only : Bool
  pub secure : Bool
  pub domain : Bytes
  pub max_age : ℤ

-- The headers of a response that the code sets.
pub record Response : Type 0 where
  pub set_cookies : List SetCookie
  pub header : GoMap (List Bytes)

-- The settings of `Session`
pub record Session : Type 0 where
  pub cookie_name : Bytes
  pub enable_set_cookie : Bool
  pub secure : Bool
  pub cookie_life_time : ℤ
  pub domain : Bytes
  pub enable_sid_in_http_header : Bool
  pub session_name_in_http_header : Bytes
  pub enable_sid_in_url_query : Bool

-- What is not of this package: escaping in a query, the spelling of a header's name that
-- `Header.Set` and `Header.Del` use, and the handler of a provider with a state of its own.
pub record Provider (S Store E : Type 0) : Type 0 where
  pub query_escape : Bytes → Bytes
  pub query_unescape : Bytes → Option Bytes
  pub canonical_key : Bytes → Bytes
  pub exist : Bytes → S → Res E Bool
  pub read : Bytes → S → Res E Store × S
  pub regenerate : Bytes → Bytes → S → Res E Store × S
  pub destroy : Bytes → S → S

-- A request and its response, with the provider's state.
pub record Exchange (S : Type 0) : Type 0 where
  pub store : S
  pub request : Request
  pub response : Response

pub data SessionError (E : Type 0) : Type 0 where
  bad_cookie no_random session_not_exist : SessionError E
  handler_failed : E → SessionError E

abbrev pub is_empty : Bytes → Bool
is_empty [] = true
is_empty (c ∷ s) = false

abbrev pub or_empty : Option Bytes → Bytes
or_empty none = []
or_empty (some s) = s

-- `Request.Cookie`: the first of the name; its value reads as empty if there is none.
abbrev pub cookie_value : Bytes → List (Bytes × Bytes) → Bytes
cookie_value name cookies = or_empty (lookup name cookies)

abbrev pub first_or : Bytes → Option (List Bytes) → Bytes
first_or sid none = sid
first_or sid (some []) = sid
first_or sid (some (s ∷ ss)) = s

-- `isSecure`
unfoldable pub is_secure : Session → Request → Bool
is_secure s r =
    if not s.secure
    then false
    else if not (is_empty r.scheme)
    then bytes_eq r.scheme (codes "https")
    else r.has_tls

module _ {S Store E : Type 0} (s : Session) (p : Provider S Store E) where
  -- `getSid` without a cookie
  unfoldable pub sid_elsewhere : Request → Bytes
  sid_elsewhere r =
      let sid = if s.enable_sid_in_url_query then or_empty (lookup s.cookie_name r.form) else [] in
      if s.enable_sid_in_http_header && is_empty sid
      then first_or sid (lookup s.session_name_in_http_header r.header)
      else sid

  unfoldable pub sid_of : Bytes → Request → Option Bytes
  sid_of [] r = some (sid_elsewhere r)
  sid_of (c ∷ value) r = p.query_unescape (c ∷ value)

  -- `getSid`; `none` is an error.
  unfoldable pub get_sid : Request → Option Bytes
  get_sid r = sid_of (cookie_value s.cookie_name r.cookies) r

  abbrev pub wrap : {A : Type 0} → Res E A → Res (SessionError E) A
  wrap (ok a) = ok a
  wrap (fail e) = fail (handler_failed e)
  wrap panic = panic

  unfoldable pub read_session : Bytes → Exchange S → Res (SessionError E) Store × Exchange S
  read_session sid x =
      let answer = p.read sid x.store in (wrap answer.0, record x { store = answer.1 })

  abbrev new_cookie : Bytes → Request → SetCookie
  new_cookie sid r = record {
    name = s.cookie_name;
    value = p.query_escape sid;
    path = codes "/";
    http_only = true;
    secure = is_secure s r;
    domain = s.domain;
    max_age = pos 0;
  }

  abbrev live : SetCookie → SetCookie
  live c = record c {
    max_age = if is_below s.cookie_life_time (pos 1) then c.max_age else s.cookie_life_time;
  }

  -- The last part of `Start` and `RegenerateID`: the cookie goes to the client and joins the request.
  unfoldable pub hand_out : Bytes → SetCookie → Exchange S → Exchange S
  hand_out sid c x =
      let key = p.canonical_key s.session_name_in_http_header in
      record {
        store = x.store;
        request = record (x.request) {
          cookies = x.request.cookies ++ (c.name, c.value) ∷ [];
          header =
              if s.enable_sid_in_http_header
              then assign key (sid ∷ []) x.request.header
              else x.request.header;
        };
        response = record {
          set_cookies =
              if s.enable_set_cookie
              then x.response.set_cookies ++ c ∷ []
              else x.response.set_cookies;
          header =
              if s.enable_sid_in_http_header
              then assign key (sid ∷ []) x.response.header
              else x.response.header;
        };
      }

  unfoldable pub handed :
      Bytes → Res (SessionError E) Store × Exchange S → Res (SessionError E) Store × Exchange S
  handed sid (ok store, x) = (ok store, hand_out sid (live (new_cookie sid x.request)) x)
  handed sid (fail e, x) = (fail e, x)
  handed sid (panic, x) = (panic, x)

  -- `Start` where there is no session; the new id is random and may be missing.
  unfoldable pub start_new : Option Bytes → Exchange S → Res (SessionError E) Store × Exchange S
  start_new none x = (fail no_random, x)
  start_new (some sid) x = handed sid (read_session sid x)

  unfoldable pub start_known :
      Option Bytes → Bytes → Res E Bool → Exchange S → Res (SessionError E) Store × Exchange S
  start_known new_id sid (ok found) x =
      if not (is_empty sid) && found then read_session sid x else start_new new_id x
  start_known new_id sid (fail e) x = (fail (handler_failed e), x)
  start_known new_id sid panic x = (panic, x)

  unfoldable pub start_with :
      Option Bytes → Option Bytes → Exchange S → Res (SessionError E) Store × Exchange S
  start_with new_id none x = (fail bad_cookie, x)
  start_with new_id (some sid) x = start_known new_id sid (p.exist sid x.store) x

  -- `Start`
  unfoldable pub start : Option Bytes → Exchange S → Res (SessionError E) Store × Exchange S
  start new_id x = start_with new_id (get_sid x.request) x

  unfoldable pub store_known :
      Bytes → Res E Bool → Exchange S → Res (SessionError E) Store × Exchange S
  store_known sid (ok found) x =
      if not (is_empty sid) && found then read_session sid x else (fail session_not_exist, x)
  store_known sid (fail e) x = (fail (handler_failed e), x)
  store_known sid panic x = (panic, x)

  unfoldable pub store_with : Option Bytes → Exchange S → Res (SessionError E) Store × Exchange S
  store_with none x = (fail bad_cookie, x)
  store_with (some sid) x = store_known sid (p.exist sid x.store) x

  -- `GetStore`
  unfoldable pub get_store : Exchange S → Res (SessionError E) Store × Exchange S
  get_store x = store_with (get_sid x.request) x

  abbrev expired_cookie : SetCookie
  expired_cookie = record {
    name = s.cookie_name;
    value = [];
    path = codes "/";
    http_only = true;
    secure = false;
    domain = [];
    max_age = negsuc 0;
  }

  -- The header is deleted first.
  unfoldable pub forget_header : Exchange S → Exchange S
  forget_header x =
      let key = p.canonical_key s.session_name_in_http_header in
      if s.enable_sid_in_http_header
      then record x {
        request = record (x.request) { header = delete key x.request.header };
        response = record (x.response) { header = delete key x.response.header };
      }
      else x

  unfoldable pub destroy_sid : Bytes → Exchange S → Exchange S
  destroy_sid sid x = record x {
    store = p.destroy sid x.store;
    response = record (x.response) {
      set_cookies =
          if s.enable_set_cookie
          then x.response.set_cookies ++ expired_cookie ∷ []
          else x.response.set_cookies;
    };
  }

  unfoldable pub destroy_value : Bytes → Exchange S → Exchange S
  destroy_value [] x = x
  destroy_value (c ∷ value) x = destroy_sid (or_empty (p.query_unescape (c ∷ value))) x

  -- `Destroy`; a value that cannot be unescaped reads as empty.
  unfoldable pub destroy_session : Exchange S → Exchange S
  destroy_session x =
      let y = forget_header x in destroy_value (cookie_value s.cookie_name y.request.cookies) y

  -- The new session and its cookie, by the value of the cookie of the request.
  unfoldable pub renew : Bytes → Bytes → Exchange S → Res E Store × (S × SetCookie)
  renew sid [] x =
      let answer = p.read sid x.store in (answer.0, (answer.1, new_cookie sid x.request))
  renew sid (c ∷ value) x =
      let answer = p.regenerate (or_empty (p.query_unescape (c ∷ value))) sid x.store in
      (answer.0, (answer.1, record (new_cookie sid x.request) { secure = false; domain = [] }))

  abbrev store_or_nil : Res E Store → Option Store
  store_or_nil (ok store) = some store
  store_or_nil _ = none

  -- `RegenerateID`; errors of the handler are dropped, and leave a nil session.
  unfoldable pub regenerate_id : Option Bytes → Exchange S → Option Store × Exchange S
  regenerate_id none x = (none, x)
  regenerate_id (some sid) x =
      let renewed = renew sid (cookie_value s.cookie_name x.request.cookies) x in
      (store_or_nil renewed.0, hand_out sid (live renewed.1.1) (record x { store = renewed.1.0 }))
