-- ===== src/Internal/Module/Transported.antt =====
-- What Module.invoke carries, and the blocks of the heap that it uses.
use go_python.Prelude.{
  ℕ, ◌^◌, ◌<◌, ◌≡◌, ◌≢◌, refl, ap, ◌∙◌, Bytes, false, some, List, [], ◌∷◌, length, ◌==◌, ==_iff,
  if◌then◌else◌, arith, Bool-cases, inl, inr,
}
use go_python.Value.{Result, ok, err}
use go_python.Internal.Module.{
  Wasm, Export, decode_result, wptr, taken, unpack_response, stored, free_request, invoke,
}

-- The blocks of the heap without p, which stands in it once.
abbrev pub remove : ℕ → List ℕ → List ℕ
remove p [] = []
remove p (q ∷ l) = let rest = q ∷ remove p l in if q == p then l else rest

module _ (wasm : Wasm) where
  open wasm use {State, alloc, free, load, store}

  -- The allocator and the memory: a block that is allocated is live, the latest first, until it is
  -- freed; 0 is no block; and what is stored is loaded.
  pub record IsHeap (live : State → List ℕ) : Type 0 where
    pub alloc_word : (n : ℕ) (s : State) → (alloc n s).0 < 2 ^ 32
    pub alloc_live :
        (n : ℕ) (s : State) → (alloc n s).0 ≢ 0 → live (alloc n s).1 ≡ (alloc n s).0 ∷ live s
    pub free_live : (p : ℕ) (s : State) → live (free p s) ≡ remove p (live s)
    pub store_live : (p : ℕ) (b : Bytes) (s s' : State) → store p b s ≡ some s' → live s' ≡ live s
    pub load_store :
        (p : ℕ) (b : Bytes) (s s' : State) → store p b s ≡ some s' → load p (length b) s' ≡ some b
    pub load_nothing : (p : ℕ) (s : State) → load p 0 s ≡ some []

  -- An export answers with the response in a new block, with no block if it is empty, and with none
  -- where it traps.
  abbrev pub Returned : (State → List ℕ) → Result Bytes → Result ℕ × State → State → Type 0
  Returned live (err e) (r, s') s = (r ≡ err e) × (live s' ≡ live s)
  Returned live (ok []) (r, s') s =
      (packed : ℕ) × (r ≡ ok packed) × ((decode_result packed).1 ≡ 0) × (live s' ≡ live s)
  Returned live (ok (b ∷ resp)) (r, s') s =
      (packed : ℕ) × (r ≡ ok packed)
      × ((decode_result packed).1 ≡ length (b ∷ resp))
      × (load (decode_result packed).0 (length (b ∷ resp)) s' ≡ some (b ∷ resp))
      × (live s' ≡ (decode_result packed).0 ∷ live s)

  -- The export computes f of the request's bytes.
  abbrev pub IsExport : (State → List ℕ) → Export wasm → (Bytes → Result Bytes) → Type 0
  IsExport live call f =
      (p n : ℕ) (s : State) (req : Bytes)
      → load p n s ≡ some req
      → Returned live (f req) (call p n s) s

  -- The request gets a block, and its bytes lie in the memory.
  abbrev pub HasRoom : Bytes → State → Type 0
  HasRoom [] s = Unit {0}
  HasRoom (b ∷ req) s =
      (length (b ∷ req) < 2 ^ 32)
      × ((alloc (wptr (b ∷ req)) s).0 ≢ 0)
      × ((s' : State) × (store (alloc (wptr (b ∷ req)) s).0 (b ∷ req) (alloc (wptr (b ∷ req)) s).1
            ≡ some s'))

  module _ (live : State → List ℕ) (heap : IsHeap live) where
    remove-head : (p : ℕ) (l : List ℕ) → remove p (p ∷ l) ≡ l
    remove-head p l = rw ((==_iff p p).1 refl) refl

    module _ (Before After : State → Type 0)
        (alloc_keeps : (n : ℕ) (s : State) → Before s → Before (alloc n s).1)
        (store_keeps : (p : ℕ) (b : Bytes) (l : List ℕ) (s s' : State)
          → live s ≡ p ∷ l
          → store p b s ≡ some s'
          → Before s
          → Before s')
        (free_keeps : (p : ℕ) (l : List ℕ) (s : State)
          → live s ≡ p ∷ l
          → After s
          → After (free p s)) where
      unpack_response-kept :
          (r : Result Bytes) (m : Result ℕ × State) (s : State)
          → Returned live r m s
          → After m.1
          → ((unpack_response wasm m).0 ≡ r)
            × (live (unpack_response wasm m).1 ≡ live s)
            × After (unpack_response wasm m).1
      unfolding unpack_response taken
      unpack_response-kept (err e) (m, s') s h a = rw h.0 (refl, h.1, a)
      unpack_response-kept (ok []) (m, s') s (packed, e, n, l) a = rw (e, n) (refl, l, a)
      unpack_response-kept (ok (b ∷ resp)) (m, s') s (packed, e, n, d, l) a =
          let some_bytes : (length (b ∷ resp) == 0) ≡ false = ground arith in
          let p = (decode_result packed).0 in
          rw (e, n, d, some_bytes)
            (
              refl,
              heap.free_live p s' ∙ (ap (λ (t : List ℕ). remove p t) l ∙ remove-head p (live s)),
              free_keeps p (live s) s' l a,
            )

      free_request-kept :
          (p : ℕ) (s : State) (l : List ℕ)
          → p ≢ 0
          → live s ≡ p ∷ l
          → After s
          → (live (free_request wasm p s) ≡ l) × After (free_request wasm p s)
      unfolding free_request
      free_request-kept p s l nz e a = elim (Bool-cases (p == 0)) [
        | inl z ↦ absurd (nz ((==_iff p 0).0 z))
        | inr z ↦ rw z (
          heap.free_live p s ∙ (ap (λ (t : List ℕ). remove p t) e ∙ remove-head p l),
          free_keeps p l s e a,
        )
      ]

      -- invoke around an export that answers resp where it finds the request: the answer, the blocks,
      -- and a property of the memory that the host's own allocations, stores and frees keep.
      pub invoke-kept :
          (call : Export wasm) (resp : Result Bytes) (req : Bytes) (s : State)
          → ((p n : ℕ) (s1 : State)
              → load p n s1 ≡ some req
              → Before s1
              → Returned live resp (call p n s1) s1 × After (call p n s1).1)
          → HasRoom req s
          → Before s
          → ((invoke wasm call req s).0 ≡ resp)
            × (live (invoke wasm call req s).1 ≡ live s)
            × After (invoke wasm call req s).1
      unfolding invoke
      invoke-kept call resp [] s answers room b =
          let (r, a) = answers 0 0 s (heap.load_nothing 0 s) b in
          unpack_response-kept resp (call 0 0 s) s r a
      invoke-kept call resp (c ∷ req) s answers (small, nz, (s', e)) b =
          let (p, s1) = alloc (wptr (c ∷ req)) s in
          let whole : wptr (c ∷ req) ≡ length (c ∷ req) = omega arith in
          let loaded = ap (λ n. load p n s') whole ∙ heap.load_store p (c ∷ req) s1 s' e in
          let new = heap.alloc_live (wptr (c ∷ req)) s nz in
          let kept = store_keeps p (c ∷ req) (live s) s1 s' new e (alloc_keeps _ s b) in
          let (r, a) = answers p (wptr (c ∷ req)) s' loaded kept in
          let (same, l, a') = unpack_response-kept resp (call p (wptr (c ∷ req)) s') s' r a in
          let before = heap.store_live p (c ∷ req) s1 s' e ∙ new in
          let (l', a2) = free_request-kept p _ (live s) nz (l ∙ before) a' in
          rw (stored, e) (same, l', a2)

    -- A request for which the allocator has room reaches the export byte for byte, and invoke returns
    -- the export's own response or error; whichever it is, the request's and the response's buffers
    -- are freed, and the heap holds the blocks that it held.
    pub invoke_lem :
        (call : Export wasm) (f : Bytes → Result Bytes) (req : Bytes) (s : State)
        → IsExport live call f
        → HasRoom req s
        → ((invoke wasm call req s).0 ≡ f req) × (live (invoke wasm call req s).1 ≡ live s)
    invoke_lem call f req s export room =
        let (same, l, u) =
          invoke-kept (λ t. Unit {0}) (λ t. Unit {0}) (λ n t u. tt) (λ p b l t t' h e u. tt)
            (λ p l t h u. tt) call (f req) req s (λ p n s1 h u. (export p n s1 req h, tt)) room
            tt in
        (same, l)
