-- ===== src/Session/Tests.antt =====
-- Runs of sessions.
use tick_framework.Base.{
  ℕ, ◌≡◌, refl, Bool, true, false, ◌||◌, List, [], ◌∷◌, Option, none, some, Bytes, codes, bytes_eq,
  pos, if◌then◌else◌, Res, ok, fail,
}
use tick_framework.Session.{
  Session, Provider, Request, Response, Exchange, SessionError, session_not_exist, get_store, start,
  destroy_session, regenerate_id,
}
use tick_framework.Session.Renewal.{start-get_store, get_store-start, get_store-start_stale}

abbrev session : Session
session = record {
  cookie_name = codes "sid";
  enable_set_cookie = true;
  secure = false;
  cookie_life_time = pos 60;
  domain = [];
  enable_sid_in_http_header = false;
  session_name_in_http_header = [];
  enable_sid_in_url_query = false;
}

abbrev member : Bytes → List Bytes → Bool
member id [] = false
member id (i ∷ ids) = bytes_eq i id || member id ids

abbrev insert : Bytes → List Bytes → List Bytes
insert id ids = if member id ids then ids else id ∷ ids

-- A provider that keeps ids; a session is its id.
abbrev ids : Provider (List Bytes) Bytes ℕ
ids = record {
  query_escape = λ s. s;
  query_unescape = λ s. some s;
  canonical_key = λ s. s;
  exist = λ id st. ok (member id st);
  read = λ id st. (ok id, insert id st);
  regenerate = λ old id st. (ok id, insert id st);
  destroy = λ id st. [];
}

abbrev exchange : List Bytes → List (Bytes × Bytes) → Exchange (List Bytes)
exchange st cookies = record {
  store = st;
  request = record {
    cookies = cookies;
    form = [];
    header = [];
    scheme = codes "https";
    has_tls = true;
  };
  response = record { set_cookies = []; header = [] };
}

-- A provider that stores nothing when it reads, as the one over redis.
abbrev lazy_ids : Provider (List Bytes) Bytes ℕ
lazy_ids = record ids { read = λ id st. (ok id, st) }

get_store-start_example :
    ((start session lazy_ids (some (codes "a")) (exchange [] [])).0 ≡ ok (codes "a"))
    × ((get_store session lazy_ids (start session lazy_ids (some (codes "a")) (exchange [] [])).1).0
        ≡ fail session_not_exist)
unfolding tick_framework.Session.get_sid tick_framework.Session.sid_of
    tick_framework.Session.sid_elsewhere tick_framework.Base.lookup bytes_eq
get_store-start_example =
    get_store-start session lazy_ids (codes "a") [] (exchange [] []) (codes "a") [] false refl refl
      refl refl refl refl refl refl refl

-- a request with the cookie of a session that is gone
abbrev stale : Exchange (List Bytes)
stale = exchange [] ((codes "sid", codes "o") ∷ [])

get_store-start_stale_example :
    ((start session ids (some (codes "a")) stale).0 ≡ ok (codes "a"))
    × ((get_store session ids (start session ids (some (codes "a")) stale).1).0
        ≡ fail session_not_exist)
unfolding tick_framework.Base.lookup bytes_eq
get_store-start_stale_example =
    get_store-start_stale session ids (codes "a") (codes "o") (codes "o") stale (codes "a")
      (codes "a" ∷ []) refl refl refl refl refl refl

-- a request with the cookie of a session
abbrev live_exchange : Exchange (List Bytes)
live_exchange = exchange (codes "o" ∷ []) ((codes "sid", codes "o") ∷ [])

start-get_store_example :
    start session ids (some (codes "a")) live_exchange ≡ (ok (codes "o"), live_exchange)
unfolding get_store tick_framework.Session.get_sid tick_framework.Session.sid_of
    tick_framework.Session.store_with tick_framework.Session.store_known
    tick_framework.Session.read_session tick_framework.Base.lookup bytes_eq
start-get_store_example =
    start-get_store session ids (some (codes "a")) live_exchange live_exchange (codes "o") refl
