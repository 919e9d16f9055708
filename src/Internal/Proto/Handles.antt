-- ===== src/Internal/Proto/Handles.antt =====
-- Handles and submessages of internal/python.go. A panic, or a loop without end, stands as `none`.
use go_python.Prelude.{
  ℕ, zero, suc, ◌+◌, ◌/◌, Bytes, Bool, false, ◌&&◌, Option, none, some, List, [], ◌∷◌, ◌++◌, length,
  ltb, ◌==◌, if◌then◌else◌, ℤ, pos, negsuc, itoa_ℤ,
}
use go_python.Internal.Proto.{
  PbReader, append_tag, append_varint, read_varint, scan_message, is_field, or_zero,
}
use go_python.Internal.Proto.Scalars.{read_submessage}

-- pbVarintLen: a uint64 is shifted to 0 in nine rounds.
unfoldable pub varint_len_loop : ℕ → ℕ → ℕ → ℕ
varint_len_loop zero n v = n
varint_len_loop (suc fuel) n v =
    let more = varint_len_loop fuel (n + 1) (v / 128) in if ltb v 0x80 then n else more

unfoldable pub varint_len : ℕ → ℕ
varint_len v = varint_len_loop 9 1 v

-- pbAppendSubmessage
unfoldable pub append_submessage : Bytes → ℕ → Bytes → Bytes
append_submessage buf field sub = append_varint (append_tag buf field 2) (length sub) ++ sub

-- pbAppendHandle: the submessage is written in place, its length first.
unfoldable pub append_handle : Bytes → ℕ → ℕ → Bytes
append_handle buf field ptr =
    let inner = 1 + varint_len ptr in
    append_varint (append_varint (append_tag buf field 2) inner ++ 0x08 ∷ []) ptr

-- pbAppendHandlePtr: a nil wrapper is left out.
unfoldable pub append_handle_ptr : {T : Type 0} → (T → ℕ) → Bytes → ℕ → Option T → Bytes
append_handle_ptr raw_ptr buf field none = buf
append_handle_ptr raw_ptr buf field (some v) = append_handle buf field (raw_ptr v)

-- pbAppendSubmessagePtr
unfoldable pub append_submessage_ptr : {T : Type 0} → (T → Bytes) → Bytes → ℕ → Option T → Bytes
append_submessage_ptr marshal buf field none = buf
append_submessage_ptr marshal buf field (some v) = append_submessage buf field (marshal v)

-- clearPtrAny of a value by its dynamic type's clearPtr, if it has one. S is what the calls change.
unfoldable pub clear_ptr_any : {S : Type 0} → Option (S → S) → S → S
clear_ptr_any none s = s
clear_ptr_any (some clear_ptr) s = clear_ptr s

-- clearPtrAll
unfoldable pub clear_ptr_all : {S : Type 0} → List (Option (S → S)) → S → S
clear_ptr_all [] s = s
clear_ptr_all (item ∷ items) s = clear_ptr_all items (clear_ptr_any item s)

-- The number of a field that is a varint.
abbrev pub number_at : ℕ → PbReader → Option ℕ
number_at w r = some (read_varint r).0

-- The condition `sf == 1 && sw == 0` of the loop over a submessage.
abbrev pub is_pointer : ℕ → ℕ → Bool
is_pointer f w = (f == 1) && (w == 0)

-- The pointer in a submessage, 0 if there is none.
unfoldable pub submessage_ptr : Bytes → Option ℕ
submessage_ptr sub = or_zero 0 (scan_message sub is_pointer number_at)

-- Field 1 of readHandlePtr, by its wire type.
unfoldable pub handle_field : ℕ → PbReader → Option ℕ
handle_field w r =
    let sub : Option ℕ = elim (read_submessage r) [
      | none ↦ none
      | some (s, _) ↦ submessage_ptr s.bytes
    ] in
    if w == 0 then number_at w r else if w == 2 then sub else some 0

-- readHandlePtr
unfoldable pub read_handle_ptr : Bytes → Option ℕ
read_handle_ptr resp = or_zero 0 (scan_message resp (is_field 1) handle_field)

-- The submessage of readPtrAtField.
unfoldable pub ptr_field : ℕ → PbReader → Option ℕ
ptr_field w r =
    let sub : Option ℕ = elim (read_submessage r) [
      | none ↦ none
      | some (s, _) ↦ read_handle_ptr s.bytes
    ] in
    if w == 2 then sub else some 0

-- readPtrAtField
unfoldable pub read_ptr_at_field : Bytes → ℕ → Option ℕ
read_ptr_at_field resp f =
    if f == 1 then read_handle_ptr resp else or_zero 0 (scan_message resp (is_field f) ptr_field)

-- What a constructed child keeps alive: its type's setKeepAlive, if it has one, is told the owner, if
-- there is one.
pub kept : {T O : Type 0} → Option (O → T → T) → Option O → T → T
kept none owner child = child
kept (some set_keep_alive) none child = child
kept (some set_keep_alive) (some owner) child = set_keep_alive owner child

child_of : {T O : Type 0} → (ℕ → T) → Option (O → T → T) → Option O → ℕ → Option T
unfolding kept
child_of ctor set_keep_alive owner ptr =
    if ptr == 0 then none else some (kept set_keep_alive owner (ctor ptr))

-- decodeChildHandle: the inner `none` is nil.
unfoldable pub decode_child_handle :
    {T O : Type 0} → Bytes → ℕ → Option O → (ℕ → T) → Option (O → T → T) → Option (Option T)
unfolding child_of
decode_child_handle resp field owner ctor set_keep_alive = elim (read_ptr_at_field resp field) [
  | none ↦ none
  | some ptr ↦ some (child_of ctor set_keep_alive owner ptr)
]

-- factoryFor: `any` is the conversion to an interface value.
unfoldable pub factory_for : {T A : Type 0} → (T → A) → (ℕ → T) → ℕ → A
factory_for any ctor ptr = any (ctor ptr)

-- `x == v` of two int32.
abbrev pub same_int : ℤ → ℤ → Bool
same_int (pos m) (pos n) = m == n
same_int (negsuc m) (negsuc n) = m == n
same_int (pos m) (negsuc n) = false
same_int (negsuc m) (pos n) = false

name_here : List Bytes → Option Bytes
name_here [] = none
name_here (name ∷ names) = some name

later_names : List Bytes → List Bytes
later_names [] = []
later_names (name ∷ names) = names

-- enumString: the name at the index of the first equal value, the decimal form if there is none; `none`
-- where that index is out of range.
unfoldable pub enum_string : ℤ → List ℤ → List Bytes → Option Bytes
unfolding name_here later_names
enum_string v [] names = some (itoa_ℤ v)
enum_string v (x ∷ vals) names =
    let later = enum_string v vals (later_names names) in
    if same_int x v then name_here names else later
