-- ===== src/MemDb/Flow/Select/Nothing.antt =====
-- Where no slot of a table is marked, nothing is selected.
use Prim.Native.Nat.{bit_and, bit_and-bitwise}
use lab.Prelude.{ℕ, zero, suc, ◌+◌, ◌-◌, ◌≡◌, refl, List, [], Bytes, false, ltb}
use lab.MemDb.Outcome.{assert, Holds, Holds-bind, Holds-any}
use lab.MemDb.Stack.{get_sz}
use lab.MemDb.BitMap.{is_on, in_range, mask, max_bit}
use lab.MemDb.Layouts.Header.{Comparable, comparable}
use lab.MemDb.Layouts.ArrayLayout.{ArrayLayout, look, find_objects, find_entry}
use lab.MemDb.Flow.Select.{no_obj_selected, select_matching}

zero_and : (b : ℕ) → bit_and 0 b ≡ 0
zero_and b = bit_and-bitwise 0 b

module _ (over : ℕ → ℕ) (l : ArrayLayout) (empty : l.bit_map.bits ≡ 0) where
  is_on-empty : (obj : ℕ) → Holds (λ on. on ≡ false) (is_on over l.bit_map obj)
  unfolding is_on
  is_on-empty obj =
      Holds-any (λ on. on ≡ false) (assert (in_range obj)) _
        λ u. rw (empty, zero_and (mask over obj)) refl

  look-empty :
      (comp : Comparable) (obj matches : ℕ)
      → Holds (λ r. r.1 ≡ []) (look over l comp obj matches [])
  look-empty comp obj matches =
      Holds-bind (λ on. on ≡ false) (λ r. r.1 ≡ []) (is_on over l.bit_map obj) _ (is_on-empty obj)
        λ on off. rw off refl

  find_objects-empty :
      (n : ℕ) (comp : Comparable) (obj matches : ℕ)
      → Holds (λ res. res ≡ []) (find_objects over n l comp obj matches [])
  find_objects-empty zero comp obj matches = refl
  find_objects-empty (suc n) comp obj matches =
      Holds-bind (λ r. r.1 ≡ []) (λ res. res ≡ []) (look over l comp obj matches []) _
        (look-empty comp obj matches)
        λ r none_yet. rw none_yet (find_objects-empty n comp (obj + 1) r.0)

  find_entry-empty : (comp : Comparable) → Holds (λ res. res ≡ []) (find_entry over l comp)
  unfolding find_entry
  find_entry-empty comp =
      Holds-any (λ res. res ≡ []) (assert (ltb 0 (get_sz l.stack))) _
        λ u. find_objects-empty (max_bit - 1) comp 1 0

  pub select_matching-empty :
      (pairs : List (Bytes × ℕ)) → Holds (λ s. s ≡ no_obj_selected) (select_matching over l pairs)
  select_matching-empty pairs =
      Holds-any (λ s. s ≡ no_obj_selected) (comparable pairs l.header) _
        λ comp.
          Holds-bind (λ res. res ≡ []) (λ s. s ≡ no_obj_selected) (find_entry over l comp) _
            (find_entry-empty comp) λ res nothing. rw nothing refl
