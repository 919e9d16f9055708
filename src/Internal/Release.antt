-- ===== src/Internal/Release.antt =====
-- The release of handles (object.go's finalizer, QueueRelease and drainReleases): what reaches the
-- guest, in what order, and how often.
pub mod Sent
use go_python.Prelude.{
  ℕ, zero, suc, ◌+◌, ◌≤◌, Bool, true, false, List, [], ◌∷◌, ◌++◌, ◌==◌, if◌then◌else◌,
}
use go_python.Value.{ObjectHandle}
use go_python.Internal.Instance.{Python, queue_release}

-- The finalizer of newObjectHandle: the compare-and-swap lets one finalizer queue the release.
unfoldable pub finalize : ObjectHandle → Python → ObjectHandle × Python
unfolding queue_release
finalize h p = if h.released then (h, p) else (record h { released = true }, queue_release h.id p)

-- The handles of an instance, its machinery, the ids whose release was sent to the guest, and those whose
-- release was lost with a request that failed.
pub record Pins : Type 0 where
  pub handles : List ObjectHandle
  pub py : Python
  pub sent : List ℕ
  pub lost : List ℕ

finalize_in : List ObjectHandle → ℕ → Python → List ObjectHandle × Python
finalize_in [] i p = ([], p)
finalize_in (h ∷ hs) zero p = let (h', p') = finalize h p in (h' ∷ hs, p')
finalize_in (h ∷ hs) (suc i) p = let (hs', p') = finalize_in hs i p in (h ∷ hs', p')

-- The finalizer of the handle at place i runs.
unfoldable pub finalize_at : ℕ → Pins → Pins
unfolding finalize_in finalize
finalize_at i s = let (hs, p) = finalize_in s.handles i s.py in record s { handles = hs; py = p }

-- A decoded object node makes a handle.
unfoldable pub new_handle : ObjectHandle → Pins → Pins
new_handle h s = record s { handles = record h { released = false } ∷ s.handles }

-- drainReleases takes the queue; on a live instance its ids go to the guest in one request. If that fails
-- they are not queued again.
unfoldable pub drain : Bool → Pins → Pins
drain delivered s = record s {
  py = record s.py { pending_rel = [] };
  sent = (if s.py.closed then s.sent else if delivered then s.sent ++ s.py.pending_rel else s.sent);
  lost = (if s.py.closed then s.lost else if delivered then s.lost else s.lost ++ s.py.pending_rel);
}

pub data Step : Pins → Pins → Type 0 where
  made : (h : ObjectHandle) (s : Pins) → Step s (new_handle h s)
  collected : (i : ℕ) (s : Pins) → Step s (finalize_at i s)
  drained : (delivered : Bool) (s : Pins) → Step s (drain delivered s)
  closed_step : (s : Pins) → Step s (record s { py = record s.py { closed = true } })

pub data Reach (s : Pins) : Pins → Type 0 where
  here : Reach s s
  next : {t u : Pins} → Reach s t → Step t u → Reach s u

-- How often the id a stands in a list.
abbrev pub times : ℕ → List ℕ → ℕ
times a [] = 0
times a (id ∷ ids) = (if a == id then 1 else 0) + times a ids

-- How many released handles pin the object a.
abbrev pub released_pins : ℕ → List ObjectHandle → ℕ
released_pins a [] = 0
released_pins a (h ∷ hs) =
    (if h.released then (if a == h.id then 1 else 0) else 0) + released_pins a hs

-- The invariant: an object is queued or sent at most as often as handles on it were released.
abbrev pub IsBalanced : Pins → Type 0
IsBalanced s = (a : ℕ) → times a s.sent + times a s.py.pending_rel ≤ released_pins a s.handles
