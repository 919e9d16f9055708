-- ===== src/Internal/Release/Sent.antt =====
-- What of the releases that finalizers ask for reaches the guest of an open instance.
use go_python.Prelude.{
  ℕ, ◌+◌, ◌*◌, ◌≡◌, refl, Bytes, Bool, true, false, none, some, List, [], ◌∷◌, ◌++◌, length,
  length-append, if◌then◌else◌, arith,
}
use go_python.Value.{Result, ok, err}
use go_python.Wire.LittleEndian.{le_bytes, length-le_bytes}
use go_python.Internal.Proto.{read_bytes_at_field}
use go_python.Internal.Drain.{AllWords, packs}
use go_python.Internal.Instance.{Words, Guest, World, mid_release, release_request}
use go_python.Internal.Release.{Pins, times, released_pins}

-- Each release of a handle is queued, sent or lost.
abbrev pub IsExact : Pins → Type 0
IsExact s =
    (a : ℕ) → times a s.sent + times a s.lost + times a s.py.pending_rel ≡ released_pins a s.handles

pub length-packs : (ids : List ℕ) → length (packs ids) ≡ 8 * length ids
length-packs [] = refl
length-packs (id ∷ ids) =
    omega (arith, length-packs ids, length-append (le_bytes 8 id) (packs ids), length-le_bytes 8 id)

-- The answer to a request, or its failure.
abbrev pub is_ok : Result Bytes → Bool
is_ok (ok resp) = true
is_ok (err e) = false

module _ (guest : Guest) (log : guest.State → List ℕ) where
  -- The guest's log of the releases that it was asked for and did not fail: the ids that the request has,
  -- eight bytes each, in the field 2.
  pub record IsLog : Type 0 where
    pub logged :
        (s : guest.State) (req : Bytes) (ids : List ℕ) (ws : Words)
        → AllWords ids
        → read_bytes_at_field req 2 ≡ some (packs ids)
        → log (guest.invoke s mid_release req none ws).1
          ≡ (if is_ok (guest.invoke s mid_release req none ws).0 then log s ++ ids else log s)

  -- Whether the guest answers the request of drainReleases.
  abbrev pub delivered : World guest → Bool
  delivered w =
      is_ok
        (guest.invoke w.state mid_release (release_request w.py.h w.py.pending_rel) none
          w.py.words).0
