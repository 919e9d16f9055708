-- ===== src/Object/Items.antt =====
-- Dict items travel as a flat node list of keys and values.
use go_python.Prelude.{
  ℕ, ◌+◌, ◌*◌, ◌%◌, ◌^◌, ◌≡◌, refl, sym, ap, ◌∙◌, Bytes, false, List, [], ◌∷◌, ◌++◌, length, arith,
  append_assoc, append-nil,
}
use go_python.Value.{Value, ok}
use go_python.Wire.LittleEndian.{append_u32, le_bytes}
use go_python.Wire.Encode.{DictItem, encode_items, encode_dict_items, encode_list}
use go_python.Wire.Node.{node, encode_value-eq}
use go_python.Wire.Lists.{nodes, AllOwned, list_node, encode_list-eq}
use go_python.Object.{pair_items, pairs, odd}

abbrev pub flatten : List DictItem → List Value
flatten [] = []
flatten (it ∷ items) = it.key ∷ it.value ∷ flatten items

length-flatten : (items : List DictItem) → length (flatten items) ≡ 2 * length items
length-flatten [] = refl
length-flatten (it ∷ items) = omega (arith, length-flatten items)

encode_items-eq :
    (p i : ℕ) (b : Bytes) (items : List DictItem)
    → AllOwned p (flatten items)
    → encode_items p i b items ≡ ok (b ++ nodes (flatten items))
unfolding encode_items
encode_items-eq p i b [] h = ap ok (sym (append-nil b))
encode_items-eq p i b (it ∷ items) h =
    rw (encode_value-eq p b it.key h.0, encode_value-eq p (b ++ node it.key) it.value h.1.0)
      (encode_items-eq p (i + 1) ((b ++ node it.key) ++ node it.value) items h.1.1
        ∙ ap ok (simp append_assoc))

encode_dict_items-eq :
    (p : ℕ) (items : List DictItem)
    → AllOwned p (flatten items)
    → encode_dict_items p items ≡ ok (list_node (flatten items))
unfolding encode_dict_items append_u32
encode_dict_items-eq p items h =
    encode_items-eq p 0 _ items h
    ∙ ap (λ n. ok (le_bytes 4 (n % 2 ^ 32) ++ nodes (flatten items))) (sym (length-flatten items))

odd-flatten : (items : List DictItem) → odd (flatten items) ≡ false
unfolding pair_items
odd-flatten [] = refl
odd-flatten (it ∷ items) = rw (odd-flatten items)

pairs-flatten : (items : List DictItem) → pairs (flatten items) ≡ items
unfolding pair_items
pairs-flatten [] = refl
pairs-flatten (it ∷ items) = rw (pairs-flatten items)

pair_items-flatten : (items : List DictItem) → pair_items (flatten items) ≡ ok items
unfolding pair_items
pair_items-flatten items = rw (odd-flatten items, pairs-flatten items)

-- What NewDict sends for its items is the node list of the keys and values in turn, and the pairing of
-- DictValue.Items takes such a list back to the items.
pub encode_dict_items-flatten :
    (p : ℕ) (items : List DictItem)
    → AllOwned p (flatten items)
    → (encode_dict_items p items ≡ encode_list p (flatten items))
      × (pair_items (flatten items) ≡ ok items)
encode_dict_items-flatten p items h = (
  encode_dict_items-eq p items h ∙ sym (encode_list-eq p (flatten items) h),
  pair_items-flatten items,
)
