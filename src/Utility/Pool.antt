-- ===== src/Utility/Pool.antt =====
-- utility/pooling.go: a pool of connections. A method is cut at its `Unlock` and `Wait` calls into
-- critical sections, each a function on the pool.
pub mod Threads
pub mod Accounts
pub mod Behaviour
mod Tests
use tick_framework.Base.{
  ℕ, zero, suc, Bool, true, false, ◌||◌, List, [], ◌∷◌, Option, none, some, ◌==◌, ltb, length, map,
  if◌then◌else◌, ℤ, pos, increment, decrement, is_below, is_zero,
}

-- A connection, by its identity.
abbrev pub Conn : Type 0
Conn = ℕ

pub record IdleItem : Type 0 where
  pub idle_time : ℕ
  pub idle_conn : Conn

-- The head of `idle` is its front.
pub record Pool : Type 0 where
  pub max_idle : ℤ
  pub idle_num : ℤ
  pub idle : List IdleItem
  pub closed : Bool

unfoldable pub new_pool : ℤ → Pool
new_pool max_idle = record { max_idle = max_idle; idle_num = pos 0; idle = []; closed = false }

-- Where a critical section of `Get` ends: with an idle connection to test, and the rounds of the loop
-- over the idle ones that are left; with `errPoolClosed`; with a call of `NewFn`; or in `Wait`.
pub data Next : Type 0 where
  borrows : IdleItem → ℕ → Next
  refused : Next
  creates : Next
  waits : Next

-- `Get` behind the loop over the idle connections
unfoldable pub settle : Pool → Pool × Next
settle p =
    if p.closed
    then (p, refused)
    else if is_zero p.max_idle || is_below p.idle_num p.max_idle
    then (record p { idle_num = increment p.idle_num }, creates)
    else (p, waits)

-- The loop over the idle connections, from a round on.
unfoldable pub get_from : ℕ → Pool → Pool × Next
get_from zero p = settle p
get_from (suc left) p = elim p.idle [
  | [] ↦ settle p
  | item ∷ rest ↦ (record p { idle = rest }, borrows item left)
]

-- `Get` from its start, and after `Wait`
unfoldable pub get_enter : Pool → Pool × Next
get_enter p = get_from (length p.idle) p

-- `Get` after a connection that did not pass `TestOnBorrow`
unfoldable pub get_discard : ℕ → Pool → Pool × Next
get_discard left p = get_from left (record p { idle_num = decrement p.idle_num })

-- `Get` after an error of `NewFn`
unfoldable pub get_abort : Pool → Pool
get_abort p = record p { idle_num = decrement p.idle_num }

-- `list.Back`, with the list that `list.Remove` leaves
unfoldable pub split_back : List IdleItem → Option (IdleItem × List IdleItem)
split_back [] = none
split_back (e ∷ es) = elim (split_back es) [
  | none ↦ some (e, [])
  | some (last, rest) ↦ some (last, e ∷ rest)
]

-- What `Put` and `Remove` return, with the connection that they close.
pub data Return : Type 0 where
  pool_closed : Return
  returns : Option Conn → Return

unfoldable pub trim_back : Pool → Pool × Return
trim_back p = elim (is_below p.max_idle (pos (length p.idle))) [
  | false ↦ (p, returns none)
  | true ↦ elim (split_back p.idle) [
    | none ↦ (p, returns none)
    | some (last, rest) ↦
        (record p { idle = rest; idle_num = decrement p.idle_num }, returns (some last.idle_conn))
  ]
]

unfoldable pub put : ℕ → Conn → Pool → Pool × Return
put now c p =
    if p.closed
    then (p, pool_closed)
    else trim_back (record p { idle = record { idle_time = now; idle_conn = c } ∷ p.idle })

unfoldable pub remove : Conn → Pool → Pool × Return
remove c p =
    if p.closed
    then (p, pool_closed)
    else (record p { idle_num = decrement p.idle_num }, returns (some c))

-- `Recycle` of a connection whose last `Do` failed or not
unfoldable pub recycle : ℕ → Bool → Conn → Pool → Pool × Return
recycle now failed c p = if failed then remove c p else put now c p

-- `p.idle.Init()`
unfoldable pub init_list : Pool → Pool
init_list p = record p { idle = [] }

abbrev pub conns : List IdleItem → List Conn
conns = map (λ e. e.idle_conn)

-- `Close` with the connections that it closes: its variable `idle` points at the pool's own list, so
-- the loop runs over what `Init` has left there.
unfoldable pub close : Pool → Pool × Option (List Conn)
close p =
    let p' = init_list (record p { closed = true }) in
    if p.closed then (p, none) else (p', some (conns p'.idle))
