-- ===== src/Entity/Object/SetReferences.antt =====
-- `_entity_set_reference_child_array` of src/entity/mtp_object.c: the references that a host sends.
use cmtp_responder.Base.{
  ℕ, ◌+◌, ◌^◌, ◌≤◌, ◌<◌, ◌≡◌, refl, ◌∙◌, ap, true, List, [], ◌∷◌, ◌++◌, some, none, arith, length,
}
use cmtp_responder.Base.Bytes.{le_bytes, le_value-le_bytes}
use cmtp_responder.Property.PtpArray.{
  PtpArray, Allocator, Grants, uint32, block_bytes, elements, is_scalar, append_ele_ptparray,
  deinit_ptparray,
}
use cmtp_responder.Property.PtpArray.Grow.{grow_ptparray_lem}
use cmtp_responder.Property.PtpArray.Append.{max_elements}
use cmtp_responder.Entity.Object.{
  Obj, append_words, remove_reference_child_array, set_reference_child_array,
}
use cmtp_responder.Entity.Object.References.{
  IsHandles, Extends, Extends-refl, Extends-trans, Extends-one,
}

-- The handles are words.
abbrev pub Words : List ℕ → Type 0
Words [] = Unit
Words (h ∷ hs) = (h < 2 ^ 32) × Words hs

append_words_lem :
    (m : Allocator) (g : Grants m) (hs : List ℕ) (a : PtpArray) (rest : List ℕ)
    → Words hs
    → IsHandles a
    → a.num_ele + length hs ≤ max_elements
    → Extends a hs (append_words m (length hs) (block_bytes 4 hs ++ rest) a)
unfolding append_words block_bytes le_bytes
append_words_lem m g [] a rest words p few = Extends-refl a p
append_words_lem m g (h ∷ hs) a rest words p few =
    let one = Extends-one m a h g p words.0 (omega arith) in
    let value = le_value-le_bytes 4 h (omega (arith, words.0)) in
    let later =
      append_words_lem m g hs (append_ele_ptparray m a h).0 rest words.1 one.handles
        (omega (arith, one.count)) in
    rw value (Extends-trans one later)

-- Setting the references of an object to the 32-bit words of a buffer, at least one and at most
-- 2^26, replaces the old ones by exactly these, in order, whatever follows in the buffer.
pub set_reference_child_array-elements :
    (m : Allocator) (g : Grants m) (obj : Obj) (hs rest : List ℕ)
    → obj.child_array.type ≡ uint32
    → Words hs
    → 0 < length hs
    → length hs ≤ max_elements
    → (a : PtpArray) × (set_reference_child_array m obj
          (some (block_bytes 4 hs ++ rest))
          (length hs)
        ≡ (record obj { child_array = a }, true))
      × IsHandles a
      × (elements a ≡ hs)
unfolding set_reference_child_array remove_reference_child_array deinit_ptparray elements is_scalar
set_reference_child_array-elements m g obj hs rest type words pos few =
    let empty : PtpArray = record {
      type = obj.child_array.type;
      arr_size = 0;
      num_ele = 0;
      array_entry = none;
    } in
    let (b, eq, p) =
      grow_ptparray_lem m g empty (record { room = refl; fits = omega arith }) (ap is_scalar type)
        (omega arith) (length hs) (omega arith) (omega arith) pos in
    let handles : IsHandles b = record {
      valid = p.valid;
      type_eq = p.type ∙ type;
      bounded = p.bounded;
    } in
    let q = append_words_lem m g hs b rest words handles (omega (arith, p.num_ele)) in
    (
      append_words m (length hs) (block_bytes 4 hs ++ rest) b,
      rw eq refl,
      q.handles,
      q.elements_eq ∙ ap (λ l. l ++ hs) p.kept,
    )
