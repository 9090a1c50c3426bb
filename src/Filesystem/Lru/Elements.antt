-- ===== src/Filesystem/Lru/Elements.antt =====
-- The list of elements seen as the list of its keys.
use tick_framework.Base.{
  some_eq, subst, ℕ, zero, suc, ◌+◌, ◌≡◌, ◌≢◌, refl, ap, false, List, [], ◌∷◌, Option, none, some,
  Bytes, length, take, drop, All, bytes_eq, bytes_eq_iff, bytes_eq_comm, ◌==◌, if◌then◌else◌, arith,
  map, Bool-cases, inl, inr,
}
use tick_framework.Filesystem.Lru.{Element, remove_element, find_element, pop_back}

-- The identity of the element of a key.
unfoldable pub find_key : Bytes → List Element → Option ℕ
find_key key [] = none
find_key key ((i, k) ∷ es) = if bytes_eq k key then some i else find_key key es

abbrev pub keys : List Element → List Bytes
keys = map (λ e. e.1)

-- The keys without this one.
unfoldable pub without : Bytes → List Bytes → List Bytes
without key [] = []
without key (k ∷ ks) = if bytes_eq k key then without key ks else k ∷ without key ks

abbrev pub Apart : Element → Element → Type 0
Apart e f = (e.0 ≢ f.0) × (bytes_eq e.1 f.1 ≡ false)

-- No identity and no key stands twice.
abbrev pub Distinct : List Element → Type 0
Distinct [] = Unit
Distinct (e ∷ es) = All (Apart e) es × Distinct es

-- The rest of a list holds nothing of this element.
remove_element-Apart :
    (e : Element) (es : List Element) → All (Apart e) es → remove_element e.0 es ≡ es
unfolding remove_element
remove_element-Apart e [] h = refl
remove_element-Apart e (f ∷ es) (a, h) = ground (arith, remove_element-Apart e es h)

without-Apart :
    (e : Element) (es : List Element) → All (Apart e) es → without e.1 (keys es) ≡ keys es
unfolding without
without-Apart e [] h = refl
without-Apart e (f ∷ es) (a, h) = ground (arith, without-Apart e es h, bytes_eq_comm e.1 f.1)

find_key-Apart : (e : Element) (es : List Element) → All (Apart e) es → find_key e.1 es ≡ none
unfolding find_key
find_key-Apart e [] h = refl
find_key-Apart e (f ∷ es) (a, h) = ground (arith, find_key-Apart e es h, bytes_eq_comm e.1 f.1)

pub All-remove_element :
    (P : Element → Type 0) (id : ℕ) (es : List Element) → All P es → All P (remove_element id es)
unfolding remove_element
All-remove_element P id [] h = tt
All-remove_element P id ((i, k) ∷ es) (p, h) = elim (Bool-cases (i == id)) [
  | inl e ↦ rw e (All-remove_element P id es h)
  | inr e ↦ rw e (p, All-remove_element P id es h)
]

pub Distinct-remove_element :
    (id : ℕ) (es : List Element) → Distinct es → Distinct (remove_element id es)
unfolding remove_element
Distinct-remove_element id [] h = tt
Distinct-remove_element id ((i, k) ∷ es) (a, h) = elim (Bool-cases (i == id)) [
  | inl e ↦ rw e (Distinct-remove_element id es h)
  | inr e ↦ rw e (All-remove_element (Apart (i, k)) id es a, Distinct-remove_element id es h)
]

Apart-found :
    (key : Bytes) (id : ℕ) (e : Element) (es : List Element)
    → All (Apart e) es
    → find_key key es ≡ some id
    → e.0 ≢ id
unfolding find_key
Apart-found key id e [] a h = absurd (ground arith)
Apart-found key id e (f ∷ es) (p, a) h = elim (Bool-cases (bytes_eq f.1 key)) [
  | inl equal ↦ ground (arith, equal)
  | inr other ↦ Apart-found key id e es a (ground (arith, other))
]

-- A found key stands once, at the element with the found identity: taking that element out is
-- taking the key out, and shortens the list by one.
pub found_key :
    (key : Bytes) (id : ℕ) (es : List Element)
    → Distinct es
    → find_key key es ≡ some id
    → (find_element id es ≡ some (id, key))
      × (keys (remove_element id es) ≡ without key (keys es))
      × (length (remove_element id es) + 1 ≡ length es)
unfolding find_key find_element remove_element without
found_key key id [] d h = absurd (ground arith)
found_key key id ((i, k) ∷ es) (a, d) h = elim (Bool-cases (bytes_eq k key)) [
  | inl equal ↦
      let same : k ≡ key = (bytes_eq_iff k key).0 equal in
      ground (arith, equal, same, remove_element-Apart (i, k) es a, without-Apart (i, k) es a)
  | inr other ↦
      let h' : find_key key es ≡ some id = ground (arith, other) in
      let differs = Apart-found key id (i, k) es a h' in
      let ih = found_key key id es d h' in ground (arith, other, differs, ih)
]

pub find_key-remove_element :
    (key : Bytes) (id : ℕ) (es : List Element) (j : Bytes)
    → Distinct es
    → find_key key es ≡ some id
    → find_key j (remove_element id es) ≡ (if bytes_eq key j then none else find_key j es)
unfolding find_key remove_element
find_key-remove_element key id [] j d h = absurd (ground arith)
find_key-remove_element key id ((i, k) ∷ es) j (a, d) h = elim (Bool-cases (bytes_eq k key)) [
  | inl equal ↦
      let same : k ≡ key = (bytes_eq_iff k key).0 equal in
      ground (
        arith,
        equal,
        same,
        remove_element-Apart (i, k) es a,
        find_key-Apart (i, k) es a,
        bytes_eq_iff key j,
        bytes_eq_iff k j,
      )
  | inr other ↦
      let h' : find_key key es ≡ some id = ground (arith, other) in
      let differs = Apart-found key id (i, k) es a h' in
      let ih = find_key-remove_element key id es j d h' in
      ground (arith, other, differs, ih, bytes_eq_iff key j, bytes_eq_iff k j, bytes_eq_iff k key)
]

-- The back of a list of n + 1 elements.
pub pop_back_lem :
    (n : ℕ) (es : List Element)
    → length es ≡ suc n
    → (last : Element) × (pop_back es ≡ some (last, take n es)) × (drop n (keys es) ≡ last.1 ∷ [])
unfolding pop_back
pop_back_lem n [] h = absurd (omega arith)
pop_back_lem zero (e ∷ []) h = (e, refl, refl)
pop_back_lem zero (e ∷ f ∷ es) h = absurd (omega arith)
pop_back_lem (suc n) (e ∷ es) h =
    let (last, popped, tail) = pop_back_lem n es (omega arith) in
    (last, rw (popped, pop_back), tail)

pub All-take : (P : Element → Type 0) (n : ℕ) (es : List Element) → All P es → All P (take n es)
All-take P zero es h = tt
All-take P (suc n) [] h = tt
All-take P (suc n) (e ∷ es) (p, h) = (p, All-take P n es h)

pub Distinct-take : (n : ℕ) (es : List Element) → Distinct es → Distinct (take n es)
Distinct-take zero es d = tt
Distinct-take (suc n) [] d = tt
Distinct-take (suc n) (e ∷ es) (a, d) = (All-take (Apart e) n es a, Distinct-take n es d)

pop_back_tail :
    (n : ℕ) (e : Element) (es : List Element) (last : Element)
    → length es ≡ suc n
    → pop_back (e ∷ es) ≡ some (last, e ∷ take n es)
    → pop_back es ≡ some (last, take n es)
unfolding pop_back
pop_back_tail n e es last h p = let (x, popped, _) = pop_back_lem n es h in ground (arith, popped)

All-pop_back :
    (P : Element → Type 0) (n : ℕ) (es : List Element) (last : Element)
    → length es ≡ suc n
    → pop_back es ≡ some (last, take n es)
    → All P es
    → P last
unfolding pop_back
All-pop_back P n [] last h p a = absurd (omega arith)
All-pop_back P zero (e ∷ []) last h p (q, a) = let same : e ≡ last = cc in subst P same q
All-pop_back P zero (e ∷ f ∷ es) last h p a = absurd (omega arith)
All-pop_back P (suc n) (e ∷ es) last h p (q, a) =
    All-pop_back P n es last (omega arith) (pop_back_tail n e es last (omega arith) p) a

pub find_key-take :
    (n : ℕ) (es : List Element) (last : Element) (j : Bytes)
    → Distinct es
    → length es ≡ suc n
    → pop_back es ≡ some (last, take n es)
    → find_key j (take n es) ≡ (if bytes_eq last.1 j then none else find_key j es)
unfolding find_key pop_back
find_key-take n [] last j d h p = absurd (omega arith)
find_key-take zero (e ∷ []) last j d h p = ground arith
find_key-take zero (e ∷ f ∷ es) last j d h p = absurd (omega arith)
find_key-take (suc n) (e ∷ es) last j (a, d) h p =
    let here = pop_back_tail n e es last (omega arith) p in
    let apart = All-pop_back (Apart e) n es last (omega arith) here a in
    ground (
      arith,
      find_key-take n es last j d (omega arith) here,
      apart,
      bytes_eq_iff e.1 j,
      bytes_eq_iff last.1 j,
      bytes_eq_iff e.1 last.1,
    )

pub keys-take : (n : ℕ) (es : List Element) → keys (take n es) ≡ take n (keys es)
keys-take zero es = refl
keys-take (suc n) [] = refl
keys-take (suc n) (e ∷ es) = ap (◌∷◌ e.1) (keys-take n es)

pub length-keys : (es : List Element) → length (keys es) ≡ length es
length-keys [] = refl
length-keys (e ∷ es) = ap suc (length-keys es)

pub without_absent :
    (key : Bytes) (es : List Element)
    → find_key key es ≡ none
    → (without key (keys es) ≡ keys es) × All (λ e. bytes_eq e.1 key ≡ false) es
unfolding find_key without
without_absent key [] h = (refl, tt)
without_absent key (e ∷ es) h = elim (Bool-cases (bytes_eq e.1 key)) [
  | inl equal ↦ absurd (ground (arith, equal))
  | inr other ↦
      let (same, apart) = without_absent key es (ground (arith, other)) in
      (rw (other, same), (other, apart))
]

pub All-both :
    (P Q R : Element → Type 0) (es : List Element)
    → ((e : Element) → P e → Q e → R e)
    → All P es
    → All Q es
    → All R es
All-both P Q R [] f p q = tt
All-both P Q R (e ∷ es) f (p, ps) (q, qs) = (f e p q, All-both P Q R es f ps qs)

pub remove_element_absent :
    (id : ℕ) (es : List Element) → All (λ e. e.0 ≢ id) (remove_element id es)
unfolding remove_element
remove_element_absent id [] = tt
remove_element_absent id ((i, k) ∷ es) = elim (Bool-cases (i == id)) [
  | inl e ↦ rw e (remove_element_absent id es)
  | inr e ↦ rw e ((ground (arith, e)), remove_element_absent id es)
]

pub All-find_element :
    (P : Element → Type 0) (id : ℕ) (es : List Element) (e : Element)
    → find_element id es ≡ some e
    → All P es
    → P e
unfolding find_element
All-find_element P id [] e h a = absurd (ground arith)
All-find_element P id ((i, k) ∷ es) e h (p, a) = elim (Bool-cases (i == id)) [
  | inl x ↦ let same : some (i, k) ≡ some e = ground (arith, x) in subst P (some_eq same) p
  | inr x ↦ All-find_element P id es e (ground (arith, x)) a
]

pub find_key-cons :
    (j : Bytes) (id : ℕ) (key : Bytes) (es : List Element)
    → find_key j ((id, key) ∷ es) ≡ (if bytes_eq key j then some id else find_key j es)
unfolding find_key
find_key-cons j id key es = refl
