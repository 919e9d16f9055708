-- ===== src/Object/Foreign.antt =====
-- What an object operation does with an argument that its instance may not send.
use go_python.Prelude.{
  ℕ, ◌+◌, ◌%◌, ◌^◌, length, ◌≡◌, refl, ap, ◌∙◌, Bytes, List, [], ◌∷◌, ◌++◌, Bool-cases, inl, inr,
}
use go_python.Value.{Value, object_value, ObjectValue, handle, Result, err, Error, Result-cases}
use go_python.Wire.LittleEndian.{append_len_bytes, append_u32}
use go_python.Wire.Encode.{
  encode_single, encode_value, encode_list, encode_elements, encode_call_args, encode_keywords,
  positionals, keywords, Arg, positional_arg, kwarg,
}
use go_python.Wire.Node.{Owned, encode_value-ok_iff}
use go_python.Internal.Instance.{Guest, World, Context}
use go_python.Object
use go_python.Object.Arguments.{or_none, positionals-or_none}

abbrev Fails : {A : Type 0} → Result A → Type 0
Fails r = (e : Error) × (r ≡ err e)

-- Such a value makes an encoding fail, wherever it stands.
module _ (p : ℕ) (x : ObjectValue) (foreign : ¬ Owned p (object_value x)) where
  value-err : (b : Bytes) → Fails (encode_value p b (object_value x))
  value-err b = elim (Result-cases (encode_value p b (object_value x))) [
    | inl (e, q) ↦ absurd (foreign ((encode_value-ok_iff p b (object_value x) e).0 q).0)
    | inr h ↦ h
  ]

  single-err : Fails (encode_single p (object_value x))
  unfolding encode_single
  single-err = value-err []

  elements-err :
      (before after : List Value) (i : ℕ) (b : Bytes)
      → Fails (encode_elements p i b (before ++ (object_value x ∷ after)))
  unfolding encode_elements
  elements-err [] after i b = let (e, q) = value-err b in rw (q, encode_elements) (_, refl)
  elements-err (v ∷ before) after i b = elim (Result-cases (encode_value p b v)) [
    | inl (b', q) ↦ rw (q, encode_elements) (elements-err before after (i + 1) b')
    | inr (e, q) ↦ rw (q, encode_elements) (_, refl)
  ]

  list-err :
      (before after : List Value) → Fails (encode_list p (before ++ (object_value x ∷ after)))
  unfolding encode_list
  list-err before after = elements-err before after 0 _

  keywords-err :
      (name : Bytes) (before after : List (Bytes × Value)) (b : Bytes)
      → Fails (encode_keywords p b (before ++ ((name, object_value x) ∷ after)))
  unfolding encode_keywords
  keywords-err name [] after b =
      let (e, q) = value-err (append_len_bytes b name) in rw (q, encode_keywords) (_, refl)
  keywords-err name ((n, v) ∷ before) after b =
      elim (Result-cases (encode_value p (append_len_bytes b n) v)) [
        | inl (b', q) ↦ rw (q, encode_keywords) (keywords-err name before after b')
        | inr (e, q) ↦ rw (q, encode_keywords) (_, refl)
      ]

  positionals-at :
      (before after : List Arg)
      → (vals : List Value) × (positionals (before ++ (positional_arg (object_value x) ∷ after))
          ≡ vals ++ (object_value x ∷ positionals after))
  unfolding positionals
  positionals-at [] after = ([], refl)
  positionals-at (positional_arg v ∷ before) after =
      let (vals, q) = positionals-at before after in
      (
        or_none v ∷ vals,
        positionals-or_none v (before ++ (positional_arg (object_value x) ∷ after))
            ∙ ap (λ (l : List Value). or_none v ∷ l) q,
      )
  positionals-at (kwarg n v ∷ before) after = positionals-at before after

  keywords-at :
      (name : Bytes) (before after : List Arg)
      → (kws : List (Bytes × Value)) × (keywords (before ++ (kwarg name (object_value x) ∷ after))
          ≡ kws ++ ((name, object_value x) ∷ keywords after))
  unfolding keywords
  keywords-at name [] after = ([], refl)
  keywords-at name (positional_arg v ∷ before) after = keywords-at name before after
  keywords-at name (kwarg n v ∷ before) after =
      let (kws, q) = keywords-at name before after in
      ((n, v) ∷ kws, ap (λ (l : List (Bytes × Value)). (n, v) ∷ l) q)

  positional-err :
      (before after : List Arg)
      → Fails (encode_call_args p (before ++ (positional_arg (object_value x) ∷ after)))
  unfolding encode_call_args
  positional-err before after =
      let (vals, q) = positionals-at before after in
      let (e, f) = list-err vals (positionals after) in rw (q, f) (_, refl)

  keyword-err :
      (name : Bytes) (before after : List Arg)
      → Fails (encode_call_args p (before ++ (kwarg name (object_value x) ∷ after)))
  unfolding encode_call_args
  keyword-err name before after =
      let args = before ++ (kwarg name (object_value x) ∷ after) in
      let (kws, q) = keywords-at name before after in
      elim (Result-cases (encode_list p (positionals args))) [
        | inl (l, h) ↦
            let (e, f) = keywords-err name kws (keywords after) (
              append_u32 [] (length (kws ++ ((name, object_value x) ∷ keywords after)) % 2 ^ 32)) in
            rw (h, q, f) (_, refl)
        | inr (e, h) ↦ rw h (_, refl)
      ]

module _ (guest : Guest) where
  raw-err :
      {A B : Type 0} (o : ObjectValue) (w : World guest) {enc : Result B} {e : Error}
      (k : B → Result A × World guest)
      → enc ≡ err e
      → (Object.raw guest o w (Object.encoded guest enc w k)).1 ≡ w
  unfolding Object.raw Object.encoded
  raw-err o w k q = elim (Bool-cases (handle o).released) [ inl r ↦ rw r | inr r ↦ rw (r, q) ]

  set_item-err :
      (o : ObjectValue) (ctx : Context) (u : Value) (x : ObjectValue) (w : World guest) {e : Error}
      → encode_single (handle o).owner (object_value x) ≡ err e
      → (Object.set_item guest o ctx u (object_value x) w).1 ≡ w
  unfolding Object.set_item Object.raw Object.encoded
  set_item-err o ctx u x w q = elim (Bool-cases (handle o).released) [
    | inl r ↦ rw r
    | inr r ↦ elim (Result-cases (encode_single (handle o).owner u)) [
      | inl (k, h) ↦ rw (r, h, q)
      | inr (e, h) ↦ rw (r, h)
    ]
  ]

  -- An argument that the instance may not send, a released object or one of another instance, ends
  -- the operation before the guest is entered, whether it is a key or a value, an element of a list to
  -- append or an argument of a call, positional or keyword, at any place: the world is as it was.
  pub foreign-refused :
      (o : ObjectValue) (ctx : Context) (name : Bytes) (x : ObjectValue) (u : Value)
      (vals more : List Value) (args rest : List Arg) (w : World guest)
      → ¬ Owned (handle o).owner (object_value x)
      → ((Object.set_attr guest o ctx name (object_value x) w).1 ≡ w)
        × ((Object.item guest o ctx (object_value x) w).1 ≡ w)
        × ((Object.set_item guest o ctx (object_value x) u w).1 ≡ w)
        × ((Object.set_item guest o ctx u (object_value x) w).1 ≡ w)
        × ((Object.del_item guest o ctx (object_value x) w).1 ≡ w)
        × ((Object.contains guest o ctx (object_value x) w).1 ≡ w)
        × ((Object.dict_get guest o ctx (object_value x) w).1 ≡ w)
        × ((Object.add guest o ctx (object_value x) w).1 ≡ w)
        × ((Object.discard guest o ctx (object_value x) w).1 ≡ w)
        × ((Object.append guest o ctx (vals ++ (object_value x ∷ more)) w).1 ≡ w)
        × ((Object.call_object guest o ctx (args ++ (positional_arg (object_value x) ∷ rest)) w).1
            ≡ w)
        × ((Object.call_object guest o ctx (args ++ (kwarg name (object_value x) ∷ rest)) w).1 ≡ w)
        × ((Object.call_method guest o ctx name
              (args ++ (positional_arg (object_value x) ∷ rest))
              w).1
            ≡ w)
        × ((Object.call_method guest o ctx name (args ++ (kwarg name (object_value x) ∷ rest)) w).1
            ≡ w)
  unfolding Object.set_attr Object.item Object.set_item Object.del_item Object.contains
      Object.dict_get Object.add Object.discard Object.append Object.call_object Object.call_method
  foreign-refused o ctx name x u vals more args rest w f =
      let single = single-err (handle o).owner x f in
      let many = list-err (handle o).owner x f vals more in
      let call = positional-err (handle o).owner x f args rest in
      let keyword = keyword-err (handle o).owner x f name args rest in
      (
        raw-err o w _ single.1,
        raw-err o w _ single.1,
        raw-err o w _ single.1,
        set_item-err o ctx u x w single.1,
        raw-err o w _ single.1,
        raw-err o w _ single.1,
        raw-err o w _ single.1,
        raw-err o w _ single.1,
        raw-err o w _ single.1,
        raw-err o w _ many.1,
        raw-err o w _ call.1,
        raw-err o w _ keyword.1,
        raw-err o w _ call.1,
        raw-err o w _ keyword.1,
      )
