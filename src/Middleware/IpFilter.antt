-- ===== src/Middleware/IpFilter.antt =====
-- middleware/ipfilter.go: which clients a request may come from.
pub mod Whitelist
mod Tests
use tick_framework.Base.{
  ℕ, ◌-◌, Bool, true, false, ◌||◌, List, [], ◌∷◌, ◌++◌, Option, none, some, Bytes, codes, length,
  take, bytes_eq, has_prefix, ◌==◌, if◌then◌else◌,
}

pub record IpFilter : Type 0 where
  pub whitelist : List Bytes
  pub real_ip : Bool

-- `Prepare`: the two values of the context, `none` where one is absent or of another type
unfoldable pub prepare : Option (List Bytes) → Option Bool → IpFilter → IpFilter
prepare whitelist real_ip filter = record {
  whitelist = elim whitelist [ none ↦ filter.whitelist | some l ↦ l ];
  real_ip = elim real_ip [ none ↦ filter.real_ip | some b ↦ b ];
}

-- What a request comes to: the next handler, or status 403 with a message, if there is one.
pub data Verdict : Type 0 where
  passes : Verdict
  forbidden : Option Bytes → Verdict

-- `strings.HasSuffix(s, "*")`
unfoldable pub has_star : Bytes → Bool
has_star [] = false
has_star (c ∷ []) = c == b'*'
has_star (c ∷ d ∷ s) = has_star (d ∷ s)

-- `match` and `prefix`
pub record Rules : Type 0 where
  pub exact : List Bytes
  pub prefixes : List Bytes

unfoldable pub add_entry : Bytes → Rules → Rules
add_entry s rules =
    if has_star s
    then record rules { prefixes = rules.prefixes ++ take (length s - 1) s ∷ [] }
    else record rules { exact = rules.exact ++ s ∷ [] }

-- The loop over the whitelist.
unfoldable pub sort_entries : List Bytes → Rules → Rules
sort_entries [] rules = rules
sort_entries (s ∷ whitelist) rules = sort_entries whitelist (add_entry s rules)

unfoldable pub any_exact : List Bytes → Bytes → Bool
any_exact [] ip = false
any_exact (s ∷ l) ip = bytes_eq s ip || any_exact l ip

unfoldable pub any_prefix : List Bytes → Bytes → Bool
any_prefix [] ip = false
any_prefix (p ∷ l) ip = has_prefix ip p || any_prefix l ip

unfoldable pub decide_ip : Rules → Bytes → Verdict
decide_ip rules ip =
    if any_exact rules.exact ip
    then passes
    else if any_prefix rules.prefixes ip
    then passes
    else forbidden (some (codes "access not allow for ip: " ++ ip))

unfoldable pub check_ip : List Bytes → Bytes → Verdict
check_ip [] ip = forbidden none
check_ip (s ∷ l) ip = decide_ip (sort_entries (s ∷ l) (record { exact = []; prefixes = [] })) ip

-- `OnRequestStartup`; the addresses are what the routing library reads off the request.
unfoldable pub on_request_startup : IpFilter → Bytes → Bytes → Verdict
on_request_startup filter client_real_ip client_remote_ip =
    check_ip filter.whitelist (if filter.real_ip then client_real_ip else client_remote_ip)
