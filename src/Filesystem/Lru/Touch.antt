-- ===== src/Filesystem/Lru/Touch.antt =====
-- The first half of `Add`: a key moves to the front, or comes in there.
use tick_framework.Base.{
  ℕ, ◌+◌, ◌<◌, ◌≡◌, ◌≢◌, refl, ap, sym, ◌∙◌, subst, false, ◌∷◌, none, some, Bytes, bytes_eq,
  bytes_eq_iff, bytes_eq_comm, bytes_eq_refl, lookup, assign, lookup-assign, if◌then◌else◌, arith,
}
use tick_framework.Filesystem.Lru.{Lru, remove_element, find_element, move_to_front, touch}
use tick_framework.Filesystem.Lru.Elements.{
  find_key, keys, without, Apart, Distinct-remove_element, found_key, find_key-remove_element,
  All-remove_element, without_absent, find_key-cons, All-both, remove_element_absent,
  All-find_element,
}
use tick_framework.Filesystem.Lru.Consistent.{IsConsistent}

-- What `touch` must give: the key stands in front, and nothing else changes place.
pub record Touches (key : Bytes) (lru t : Lru) : Type 0 where
  pub consistent : IsConsistent t
  pub front : keys t.list ≡ key ∷ without key (keys lru.list)
  pub same_capacity : t.capacity ≡ lru.capacity

touch_old :
    (key : Bytes) (lru : Lru) (id : ℕ)
    → lookup key lru.table ≡ some id
    → find_element id lru.list ≡ some (id, key)
    → touch key lru ≡ record lru { list = (id, key) ∷ remove_element id lru.list }
unfolding touch move_to_front
touch_old key lru id e f = ground (arith, e, f)

touch_new :
    (key : Bytes) (lru : Lru)
    → lookup key lru.table ≡ none
    → touch key lru ≡ record lru {
      list = (lru.next_id, key) ∷ lru.list;
      table = assign key lru.next_id lru.table;
      size = lru.size + 1;
      next_id = lru.next_id + 1;
    }
unfolding touch
touch_new key lru e = ground (arith, e)

pub Touches-new :
    (key : Bytes) (lru : Lru)
    → IsConsistent lru
    → lookup key lru.table ≡ none
    → Touches key lru (touch key lru)
Touches-new key lru c absent =
    let missing : find_key key lru.list ≡ none = sym (c.found key) ∙ absent in
    let (same, apart) = without_absent key lru.list missing in
    subst (Touches key lru) (sym (touch_new key lru absent)) (record {
      consistent = record {
        found = λ j.
            lookup-assign key j lru.next_id lru.table
            ∙ ap (λ o. if bytes_eq key j then some lru.next_id else o) (c.found j)
            ∙ sym (find_key-cons j lru.next_id key lru.list);
        distinct = (
          All-both (λ e. e.0 < lru.next_id) (λ e. bytes_eq e.1 key ≡ false)
              (Apart (lru.next_id, key)) lru.list
              (λ e p q. (omega arith, bytes_eq_comm key e.1 ∙ q)) c.fresh apart,
          c.distinct,
        );
        counted = omega (arith, c.counted);
        fresh = (
          omega arith,
          All-both (λ e. e.0 < lru.next_id) (λ e. e.0 < lru.next_id) (λ e. e.0 < lru.next_id + 1)
              lru.list (λ e p q. omega arith) c.fresh c.fresh,
        );
      };
      front = ap (◌∷◌ key) (sym same);
      same_capacity = refl;
    })

pub Touches-old :
    (key : Bytes) (lru : Lru) (id : ℕ)
    → IsConsistent lru
    → lookup key lru.table ≡ some id
    → Touches key lru (touch key lru)
Touches-old key lru id c present =
    let there : find_key key lru.list ≡ some id = sym (c.found key) ∙ present in
    let (element, without_it, shorter) = found_key key id lru.list c.distinct there in
    let gone : find_key key (remove_element id lru.list) ≡ none =
      rw (find_key-remove_element key id lru.list key c.distinct there, bytes_eq_refl key) in
    let (_, apart) = without_absent key (remove_element id lru.list) gone in
    subst (Touches key lru) (sym (touch_old key lru id present element)) (record {
      consistent = record {
        found = λ j. ground (
          arith,
          find_key-cons j id key (remove_element id lru.list),
          c.found j,
          present,
          bytes_eq_iff key j,
          find_key-remove_element key id lru.list j c.distinct there,
        );
        distinct = (
          All-both (λ e. e.0 ≢ id) (λ e. bytes_eq e.1 key ≡ false) (Apart (id, key))
              (remove_element id lru.list) (λ e p q. (λ x. p (sym x), bytes_eq_comm key e.1 ∙ q))
              (remove_element_absent id lru.list) apart,
          Distinct-remove_element id lru.list c.distinct,
        );
        counted = omega (arith, c.counted, shorter);
        fresh = (
          All-find_element (λ e. e.0 < lru.next_id) id lru.list (id, key) element c.fresh,
          All-remove_element (λ e. e.0 < lru.next_id) id lru.list c.fresh,
        );
      };
      front = ap (◌∷◌ key) without_it;
      same_capacity = refl;
    })
