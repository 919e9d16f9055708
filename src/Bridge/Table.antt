-- ===== src/Bridge/Table.antt =====
-- The function table: registration in NewFunction.
use go_python.Prelude.{
  ℕ, ◌+◌, ◌%◌, ◌^◌, sym, subst, ◌≤◌, ◌<◌, ◌≡◌, refl, none, some, List, [], ◌∷◌, arith, ◌==◌,
  if◌then◌else◌,
}
use go_python.Bridge.{GoFunc, Functions, lookup_func, register}

-- Every id in the table is one that has been handed out, and 0 is none.
abbrev pub AllBelow : ℕ → List (ℕ × GoFunc) → Type 0
AllBelow n [] = Unit {0}
AllBelow n ((id, fn) ∷ rest) = ((0 < id) × (id ≤ n)) × AllBelow n rest

abbrev pub IsTable : Functions → Type 0
IsTable t = AllBelow t.next_func_id t.funcs

AllBelow-weaken : (n : ℕ) (l : List (ℕ × GoFunc)) → AllBelow n l → AllBelow (n + 1) l
AllBelow-weaken n [] h = tt
AllBelow-weaken n ((id, fn) ∷ rest) h = (omega arith, AllBelow-weaken n rest h.1)

lookup-above : (n id : ℕ) (l : List (ℕ × GoFunc)) → AllBelow n l → n < id → lookup_func id l ≡ none
unfolding lookup_func
lookup-above n id [] h lt = refl
lookup-above n id ((j, fn) ∷ rest) h lt = ground (arith, lookup-above n id rest h.1 lt)

-- Until the 32 bits of the ids are used up, a registration hands out an id that no function had, binds
-- the function under it, leaves every other id as it was, and keeps the table's invariant.
pub register_lem :
    (fn : GoFunc) (t : Functions) (id : ℕ)
    → IsTable t
    → t.next_func_id + 1 < 2 ^ 32
    → let (new, t') = register fn t in
      IsTable t'
      × (lookup_func new t.funcs ≡ none)
      × (lookup_func id t'.funcs ≡ (if new == id then some fn else lookup_func id t.funcs))
unfolding register lookup_func
register_lem fn t id h few =
    let e : (t.next_func_id + 1) % 2 ^ 32 ≡ t.next_func_id + 1 = omega (arith, few) in
    (
      (
        (omega (arith, few), omega arith),
        subst (λ (n : ℕ). AllBelow n t.funcs) (sym e) (AllBelow-weaken t.next_func_id t.funcs h),
      ),
      lookup-above t.next_func_id ((t.next_func_id + 1) % 2 ^ 32) t.funcs h (omega (arith, few)),
      refl,
    )
