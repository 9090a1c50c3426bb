-- ===== src/Session/Renewal.antt =====
-- session/protocol.go: the session that `Start` makes, as the same request sees it later.
use tick_framework.Base.{
  ◌≡◌, refl, ap, ◌∙◌, Bool, true, false, Bool-cases, not, ◌&&◌, List, [], ◌∷◌, ◌++◌, Option, none,
  some, Res, if◌then◌else◌, Bytes, GoMap, lookup, bytes_eq, bytes_eq_refl, ok, fail, inl, inr,
  arith,
}
use tick_framework.Session.{
  Request, Session, Provider, Exchange, SessionError, session_not_exist, is_empty, or_empty,
  get_sid, sid_of, start, start_with, start_known, start_new, handed, hand_out, read_session,
  get_store, store_with, store_known,
}

lookup-append :
    {A : Type 0} (k : Bytes) (m n : GoMap A)
    → lookup k (m ++ n) ≡ elim (lookup k m) [ none ↦ lookup k n | some v ↦ some v ]
unfolding lookup
lookup-append k [] n = refl
lookup-append k ((j, v) ∷ m) n = elim (Bool-cases (bytes_eq j k)) [
  | inl e ↦ rw e refl
  | inr e ↦ rw e (lookup-append k m n)
]

module _ {S Store E : Type 0} (s : Session) (p : Provider S Store E) where
  -- `Start` on a request whose session `GetStore` finds does what `GetStore` does: it makes no new
  -- session, and sends no cookie.
  pub start-get_store :
      (new_id : Option Bytes) (x x' : Exchange S) (store : Store)
      → get_store s p x ≡ (ok store, x')
      → start s p new_id x ≡ (ok store, x')
  unfolding start get_store start_with store_with start_known store_known
  start-get_store new_id x x' store e = ground arith

  -- What `Start` leaves of a request without a session: the cookies with the new one behind them.
  start_makes :
      (sid : Bytes) (x : Exchange S) (old : Bytes) (store : Store) (st : S)
      → get_sid s p x.request ≡ some old
      → p.exist old x.store ≡ ok false
      → p.read sid x.store ≡ (ok store, st)
      → ((start s p (some sid) x).0 ≡ ok store)
        × ((start s p (some sid) x).1.store ≡ st)
        × ((start s p (some sid) x).1.request.cookies
            ≡ x.request.cookies ++ (s.cookie_name, p.query_escape sid) ∷ [])
  unfolding start start_with start_known start_new handed hand_out read_session
  start_makes sid x old store st known missing made =
      let off : (not (is_empty old) && false) ≡ false = ground arith in
      rw (known, start_with, missing, start_known, off, start_new, made) (refl, refl, refl)

  -- The value of the request's cookie behind `Start`
  sid_found :
      (sid : Bytes) (cookies : List (Bytes × Bytes))
      → lookup s.cookie_name cookies ≡ none
      → or_empty (lookup s.cookie_name (cookies ++ (s.cookie_name, p.query_escape sid) ∷ []))
        ≡ p.query_escape sid
  unfolding lookup
  sid_found sid cookies none_before =
      rw
        (
          lookup-append s.cookie_name cookies ((s.cookie_name, p.query_escape sid) ∷ []),
          none_before,
          bytes_eq_refl s.cookie_name,
        )
        refl

  sid_kept :
      (value : Bytes) (sid : Bytes) (cookies : List (Bytes × Bytes))
      → lookup s.cookie_name cookies ≡ some value
      → or_empty (lookup s.cookie_name (cookies ++ (s.cookie_name, p.query_escape sid) ∷ []))
        ≡ value
  sid_kept value sid cookies before =
      rw (lookup-append s.cookie_name cookies ((s.cookie_name, p.query_escape sid) ∷ []), before)
        refl

  sid_of-value :
      (value : Bytes) (sid : Bytes) (r : Request)
      → is_empty value ≡ false
      → p.query_unescape value ≡ some sid
      → sid_of s p value r ≡ some sid
  unfolding sid_of
  sid_of-value [] sid r full e = ground arith
  sid_of-value (c ∷ value) sid r full e = e

  get_store_at :
      (sid : Bytes) (b : Bool) (x : Exchange S)
      → get_sid s p x.request ≡ some sid
      → p.exist sid x.store ≡ ok b
      → get_store s p x ≡ store_known s p sid (ok b) x
  unfolding get_store store_with
  get_store_at sid b x e f = rw (e, f, store_with) refl

  -- What `GetStore` makes of the answer of `Exist` for an id that is not empty.
  abbrev pub found_or_gone : Bool → Store → Res (SessionError E) Store
  found_or_gone b store = if b then ok store else fail session_not_exist

  store_read :
      (sid : Bytes) (b : Bool) (x : Exchange S) (store : Store) (st : S)
      → is_empty sid ≡ false
      → p.read sid x.store ≡ (ok store, st)
      → (store_known s p sid (ok b) x).0 ≡ found_or_gone b store
  unfolding store_known read_session
  store_read sid true x store st full e = rw (full, e, read_session) refl
  store_read sid false x store st full e = rw full refl

  -- On a request without a cookie of the session's name, whose session does not exist: where the
  -- provider reads a session for the new id, and would again, and the id is not empty and survives
  -- escaping, Start gives that session, and GetStore of the same request looks for the new id and
  -- finds that session if the provider has stored it with the first Read, and otherwise fails,
  -- because there is no session.
  pub get_store-start :
      (sid old : Bytes) (x : Exchange S) (store : Store) (st : S) (b : Bool)
      → lookup s.cookie_name x.request.cookies ≡ none
      → get_sid s p x.request ≡ some old
      → p.exist old x.store ≡ ok false
      → p.read sid x.store ≡ (ok store, st)
      → p.exist sid st ≡ ok b
      → p.read sid st ≡ (ok store, st)
      → is_empty sid ≡ false
      → is_empty (p.query_escape sid) ≡ false
      → p.query_unescape (p.query_escape sid) ≡ some sid
      → ((start s p (some sid) x).0 ≡ ok store)
        × ((get_store s p (start s p (some sid) x).1).0 ≡ found_or_gone b store)
  unfolding get_sid store_known read_session
  get_store-start sid old x store st b absent known missing made there again full escaped back =
      let (answer, kept, cookies) = start_makes sid x old store st known missing made in
      let y = (start s p (some sid) x).1 in
      let found : get_sid s p y.request ≡ some sid =
        ap (λ c. sid_of s p (or_empty (lookup s.cookie_name c)) y.request) cookies
        ∙ ap (λ v. sid_of s p v y.request) (sid_found sid x.request.cookies absent)
        ∙ sid_of-value (p.query_escape sid) sid y.request escaped back in
      (
        answer,
        ap (λ r. r.0) (get_store_at sid b y found (ap (p.exist sid) kept ∙ there))
            ∙ store_read sid b y store st full (ap (p.read sid) kept ∙ again),
      )

  -- On a request with a cookie of the session's name, which is not empty and names a session that
  -- does not exist, and where `Start` makes one that is not it: `Start` gives the new session, but
  -- `GetStore` of the same request still goes by the old cookie, and fails.
  pub get_store-start_stale :
      (sid old value : Bytes) (x : Exchange S) (store : Store) (st : S)
      → lookup s.cookie_name x.request.cookies ≡ some value
      → is_empty value ≡ false
      → p.query_unescape value ≡ some old
      → p.exist old x.store ≡ ok false
      → p.read sid x.store ≡ (ok store, st)
      → p.exist old st ≡ ok false
      → ((start s p (some sid) x).0 ≡ ok store)
        × ((get_store s p (start s p (some sid) x).1).0 ≡ fail session_not_exist)
  unfolding get_sid store_known
  get_store-start_stale sid old value x store st present full back missing made still =
      let known : get_sid s p x.request ≡ some old =
        ap (λ v. sid_of s p (or_empty v) x.request) present
        ∙ sid_of-value value old x.request full back in
      let (answer, kept, cookies) = start_makes sid x old store st known missing made in
      let y = (start s p (some sid) x).1 in
      let found : get_sid s p y.request ≡ some old =
        ap (λ c. sid_of s p (or_empty (lookup s.cookie_name c)) y.request) cookies
        ∙ ap (λ v. sid_of s p v y.request) (sid_kept value sid x.request.cookies present)
        ∙ sid_of-value value old y.request full back in
      let off : (not (is_empty old) && false) ≡ false = ground arith in
      (
        answer,
        ap (λ r. r.0) (get_store_at old false y found (ap (p.exist old) kept ∙ still))
            ∙ rw off refl,
      )
