-- ===== src/Tests/Memories.antt =====
-- The theorems on an instance over linear memory at concrete inputs.
use go_python.Prelude.{
  ◌<◌, ℕ, suc, ◌+◌, ◌*◌, ◌^◌, ◌≡◌, refl, sym, ap, subst, Bytes, Option, none, some, List, [], ◌∷◌,
  length, arith,
}
use go_python.Value.{ok}
use go_python.Internal.Module.{Wasm, Export, decode_result}
use go_python.Internal.Module.Transported.{IsHeap, HasRoom, remove}
use go_python.Internal.Module.Memory.{Exports, IsBacked}
use go_python.Internal.Module.Memory.Traces.{Operation, release, request, shut}
use go_python.Internal.Instance.{Words, Guest, World}
use go_python.Tests.Blocks.{put, block, block-length, put-here, stored_state}
use go_python.Tests.Data.{open_python, live_context}

-- A memory with a counter of the entries, the words, the host's blocks and their bytes.
record Memory : Type 0 where
  count : ℕ
  words : Words
  blocks : List ℕ
  bytes_at : ℕ → Bytes

abbrev wasm : Wasm
wasm = record {
  State = Memory;
  alloc = λ n s. (8, record s { blocks = 8 ∷ s.blocks });
  free = λ p s. record s { blocks = remove p s.blocks };
  load = λ p n s. block n (s.bytes_at p);
  store = λ p b s. some (record s { bytes_at = put p b s.bytes_at });
}

abbrev live : Memory → List ℕ
live s = s.blocks

abbrev stored_word : Option (Words → Words) → Words → Words
stored_word none ws = ws
stored_word (some f) ws = f ws

-- Every export counts and answers one byte, in a block at 16.
abbrev counting : Option (Words → Words) → Export wasm
counting store p n s = (
  ok (16 * 2 ^ 32 + 1),
  record {
    count = suc s.count;
    words = stored_word store s.words;
    blocks = 16 ∷ s.blocks;
    bytes_at = put 16 (7 ∷ []) s.bytes_at;
  },
)

abbrev exports : Exports wasm
exports = record {
  words = λ s. s.words;
  set_words = λ ws s. record s { words = ws };
  export_of = λ mid store. counting store;
}

abbrev counter : Guest
counter = record {
  State = ℕ;
  invoke = λ a mid req store ws. (ok (7 ∷ []), suc a, stored_word store ws);
}

abbrev Holds : ℕ → Words → Memory → Type 0
Holds a ws s = (s.count ≡ a) × (s.words ≡ ws)

wasm-IsHeap : IsHeap wasm live
wasm-IsHeap = record {
  alloc_word = λ n s. omega arith;
  alloc_live = λ n s nz. refl;
  free_live = λ p s. refl;
  store_live = λ p b s s' e. sym (
      ap (λ (t : Memory). t.blocks)
        (stored_state (record s { bytes_at = put p b s.bytes_at }) s' e));
  load_store = λ p b s s' e.
      subst (λ (t : Memory). block (length b) (t.bytes_at p) ≡ some b)
        (stored_state (record s { bytes_at = put p b s.bytes_at }) s' e)
        (rw (put-here p b s.bytes_at) (block-length b));
  load_nothing = λ p s. refl;
}

has_room : (req : Bytes) (s : Memory) → length req < 2 ^ 32 → HasRoom wasm req s
has_room [] s small = tt
has_room (b ∷ req) s small = (small, (λ e. absurd (omega arith)), (_, refl))

wasm-IsBacked : IsBacked wasm exports live counter Holds
unfolding decode_result
wasm-IsBacked = record {
  heap = wasm-IsHeap;
  limit = 2 ^ 32;
  limit_least = omega arith;
  room = λ a ws req s h small. has_room req s small;
  words_held = λ a ws s h. h.1;
  words_set = λ a ws ws' s h. ((h.0, refl), refl);
  alloc_keeps = λ a ws n s h. h;
  store_keeps = λ a ws p b l s s' live_s e h.
      subst (λ (t : Memory). Holds a ws t)
        (stored_state (record s { bytes_at = put p b s.bytes_at }) s' e) h;
  free_keeps = λ a ws p l s live_s h. h;
  answers = λ a ws mid store req p n s found h. (
    (16 * 2 ^ 32 + 1, refl, refl, refl, refl),
    (ap (λ (k : ℕ). suc k) h.0, ap (stored_word store) h.1),
  );
}

abbrev no_memory : Memory
no_memory = record { count = 0; words = open_python.words; blocks = []; bytes_at = λ p. [] }

abbrev counter_world : World counter
counter_world = record { py = open_python; state = 0 }

-- An operation with a release in the queue, and Close.
abbrev three_operations : List Operation
three_operations = release 5 ∷ request live_context 4 (1 ∷ []) ∷ shut ∷ []
