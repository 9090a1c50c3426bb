-- ===== src/Middleware/IpFilter/Whitelist.antt =====
-- middleware/ipfilter.go: a client passes exactly if an entry of the whitelist admits its address.
use tick_framework.Base.{
  ℕ, zero, suc, bytes_eq_refl, ◌-◌, ◌≡◌, ◌⊎◌, ◌↔◌, inl, inr, refl, sym, ◌∙◌, ap, Bool, true, false,
  ◌||◌, List, [], ◌∷◌, ◌++◌, Bytes, length, take, bytes_eq, bytes_eq_iff, has_prefix, if◌then◌else◌,
  Bool-cases, arith, take-append, length-append,
}
use tick_framework.Middleware.IpFilter.{
  IpFilter, passes, Rules, has_star, add_entry, sort_entries, any_exact, any_prefix, decide_ip,
  check_ip, on_request_startup,
}

-- The entry is the address, or the address begins with what the entry has in front of its star.
abbrev pub Admits : Bytes → Bytes → Type 0
Admits ip s =
    ((has_star s ≡ false) × (s ≡ ip))
    ⊎ ((p : Bytes) × ((rest : Bytes) × (s ≡ p ++ b'*' ∷ []) × (ip ≡ p ++ rest)))

abbrev pub SomeAdmits : Bytes → List Bytes → Type 0
SomeAdmits ip [] = ⊥
SomeAdmits ip (s ∷ l) = Admits ip s ⊎ SomeAdmits ip l

cons_eq : {x y : ℕ} {xs ys : Bytes} → x ≡ y → xs ≡ ys → x ∷ xs ≡ y ∷ ys
cons_eq e e' = cc

head_eq : {x y : ℕ} {xs ys : Bytes} → x ∷ xs ≡ y ∷ ys → x ≡ y
head_eq h = cc

tail_eq : {x y : ℕ} {xs ys : Bytes} → x ∷ xs ≡ y ∷ ys → xs ≡ ys
tail_eq h = cc

or_false : (b : Bool) → (b || false) ≡ b
or_false b = ground arith

or_true : (b : Bool) → (b || true) ≡ true
or_true b = ground arith

or_assoc : (a b c : Bool) → (a || (b || c)) ≡ ((a || b) || c)
or_assoc a b c = ground arith

has_prefix_iff : (ip p : Bytes) → (has_prefix ip p ≡ true) ↔ ((rest : Bytes) × (ip ≡ p ++ rest))
unfolding has_prefix
has_prefix_iff ip [] = ((λ _. (ip, refl)), λ _. refl)
has_prefix_iff [] (c ∷ p) = ((λ h. absurd cc), λ (rest, h). absurd cc)
has_prefix_iff (d ∷ ip) (c ∷ p) = (
  (λ h.
      let e : d ≡ c = ground (arith, h) in
      let (rest, e') = (has_prefix_iff ip p).0 (ground (arith, h)) in (rest, cons_eq e e')),
  λ (rest, h).
      let e : d ≡ c = head_eq h in
      let e' = (has_prefix_iff ip p).1 (rest, tail_eq h) in ground arith,
)

-- A text with a star at its end is what is before the star, and the star.
has_star_end :
    (s : Bytes) (n : ℕ) → suc n ≡ length s → has_star s ≡ true → s ≡ take n s ++ b'*' ∷ []
unfolding has_star
has_star_end [] n e h = absurd cc
has_star_end (c ∷ []) zero e h = ap (λ x. x ∷ []) (ground (arith, h))
has_star_end (c ∷ []) (suc n) e h = absurd (omega arith)
has_star_end (c ∷ d ∷ s) zero e h = absurd (omega arith)
has_star_end (c ∷ d ∷ s) (suc n) e h = ap (◌∷◌ c) (has_star_end (d ∷ s) n (omega arith) h)

has_star-length : (s : Bytes) → has_star s ≡ true → suc (length s - 1) ≡ length s
unfolding has_star
has_star-length [] h = absurd cc
has_star-length (c ∷ s) h = omega arith

has_star-append : (p : Bytes) → has_star (p ++ b'*' ∷ []) ≡ true
unfolding has_star
has_star-append [] = refl
has_star-append (c ∷ []) = refl
has_star-append (c ∷ d ∷ p) = has_star-append (d ∷ p)

-- Whether the entry, put among the rules, lets the address through.
abbrev admits : Bytes → Bytes → Bool
admits ip s = if has_star s then has_prefix ip (take (length s - 1) s) else bytes_eq s ip

admits-Admits : (ip s : Bytes) → admits ip s ≡ true → Admits ip s
admits-Admits ip s h = elim (Bool-cases (has_star s)) [
  | inl star ↦
      let k : has_prefix ip (take (length s - 1) s) ≡ true = simp (star) at h in
      let (rest, e) = (has_prefix_iff ip (take (length s - 1) s)).0 k in
      inr (
        take (length s - 1) s,
        (rest, has_star_end s (length s - 1) (has_star-length s star) star, e),
      )
  | inr no_star ↦
      let k : bytes_eq s ip ≡ true = simp (no_star) at h in inl (no_star, (bytes_eq_iff s ip).0 k)
]

Admits-admits : (ip s : Bytes) → Admits ip s → admits ip s ≡ true
Admits-admits ip s (inl (no_star, e)) = rw (no_star, e, bytes_eq_refl ip)
Admits-admits ip s (inr (p, (rest, e, e'))) =
    let star : has_star s ≡ true = ap has_star e ∙ has_star-append p in
    let n : length s - 1 ≡ length p = omega (arith, ap length e, length-append p (b'*' ∷ [])) in
    let front : take (length s - 1) s ≡ p =
      ap (take (length s - 1)) e ∙ take-append p (b'*' ∷ []) (length s - 1) n in
    rw (star, front) ((has_prefix_iff ip p).1 (rest, e'))

-- Sorting the entries keeps what lets an address through.
any_exact-append :
    (l m : List Bytes) (ip : Bytes) → any_exact (l ++ m) ip ≡ (any_exact l ip || any_exact m ip)
unfolding any_exact
any_exact-append [] m ip = refl
any_exact-append (s ∷ l) m ip = rw (any_exact-append l m ip) (or_assoc (bytes_eq s ip) _ _)

any_prefix-append :
    (l m : List Bytes) (ip : Bytes) → any_prefix (l ++ m) ip ≡ (any_prefix l ip || any_prefix m ip)
unfolding any_prefix
any_prefix-append [] m ip = refl
any_prefix-append (s ∷ l) m ip = rw (any_prefix-append l m ip) (or_assoc (has_prefix ip s) _ _)

abbrev admits_some : Bytes → List Bytes → Bool
admits_some ip [] = false
admits_some ip (s ∷ l) = admits ip s || admits_some ip l

abbrev lets_pass : Rules → Bytes → Bool
lets_pass rules ip = any_exact rules.exact ip || any_prefix rules.prefixes ip

lets_pass-add_entry :
    (s : Bytes) (rules : Rules) (ip : Bytes)
    → lets_pass (add_entry s rules) ip ≡ (lets_pass rules ip || admits ip s)
unfolding add_entry any_exact any_prefix
lets_pass-add_entry s rules ip = elim (Bool-cases (has_star s)) [
  | inl star ↦
      let e = any_prefix-append rules.prefixes (take (length s - 1) s ∷ []) ip in
      rw (star, e) (ground arith)
  | inr no_star ↦ let e = any_exact-append rules.exact (s ∷ []) ip in rw (no_star, e) (ground arith)
]

lets_pass-sort_entries :
    (whitelist : List Bytes) (rules : Rules) (ip : Bytes)
    → lets_pass (sort_entries whitelist rules) ip ≡ (lets_pass rules ip || admits_some ip whitelist)
unfolding sort_entries
lets_pass-sort_entries [] rules ip = sym (or_false (lets_pass rules ip))
lets_pass-sort_entries (s ∷ l) rules ip =
    lets_pass-sort_entries l (add_entry s rules) ip
    ∙ ap (λ b. b || admits_some ip l) (lets_pass-add_entry s rules ip)
    ∙ sym (or_assoc (lets_pass rules ip) (admits ip s) (admits_some ip l))

admits_some_iff : (ip : Bytes) (l : List Bytes) → (admits_some ip l ≡ true) ↔ SomeAdmits ip l
admits_some_iff ip [] = ((λ h. absurd cc), λ h. absurd h)
admits_some_iff ip (s ∷ l) = (
  (λ h. elim (Bool-cases (admits ip s)) [
    | inl e ↦ inl (admits-Admits ip s e)
    | inr e ↦ inr ((admits_some_iff ip l).0 (simp (e) at h))
  ]),
  λ h. elim h [
    | inl e ↦ rw (Admits-admits ip s e)
    | inr e ↦ rw ((admits_some_iff ip l).1 e) (or_true (admits ip s))
  ],
)

decide_ip_iff :
    (rules : Rules) (ip : Bytes) → (decide_ip rules ip ≡ passes) ↔ (lets_pass rules ip ≡ true)
unfolding decide_ip
decide_ip_iff rules ip = ground arith

check_ip_iff : (l : List Bytes) (ip : Bytes) → (check_ip l ip ≡ passes) ↔ (admits_some ip l ≡ true)
unfolding check_ip any_exact any_prefix
check_ip_iff [] ip = ((λ h. absurd cc), λ h. absurd cc)
check_ip_iff (s ∷ l) ip =
    let rules : Rules = record { exact = []; prefixes = [] } in
    let e = lets_pass-sort_entries (s ∷ l) rules ip in
    let h = decide_ip_iff (sort_entries (s ∷ l) rules) ip in
    ((λ k. sym e ∙ h.0 k), λ k. h.1 (e ∙ k))

-- A request passes exactly if an entry of the whitelist admits its address, the real one where the
-- filter is set so and the remote one otherwise; an empty whitelist lets none pass.
pub on_request_startup-passes_iff :
    (filter : IpFilter) (client_real_ip client_remote_ip : Bytes)
    → (on_request_startup filter client_real_ip client_remote_ip ≡ passes)
      ↔ SomeAdmits (if filter.real_ip then client_real_ip else client_remote_ip) filter.whitelist
unfolding on_request_startup
on_request_startup-passes_iff filter client_real_ip client_remote_ip =
    let ip = if filter.real_ip then client_real_ip else client_remote_ip in
    let h = check_ip_iff filter.whitelist ip in
    let k = admits_some_iff ip filter.whitelist in ((λ e. k.0 (h.0 e)), λ e. h.1 (k.1 e))
