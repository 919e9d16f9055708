-- ===== src/Internal/Drain.antt =====
-- drainReleases: what its request holds, and that an operation and Close change the instance as the
-- steps of Internal/Release do.
use go_python.Prelude.{
  ℕ, zero, suc, ◌^◌, ◌<◌, ◌≡◌, refl, ap, sym, ◌∙◌, Bytes, Bool, true, false, if◌then◌else◌, none,
  List, [], ◌∷◌, ◌++◌, take, drop, length, append_assoc, append-nil, arith,
}
use go_python.Wire.LittleEndian.{le_bytes, from_le, from_le-le_bytes, append_u64}
use go_python.Value.{ObjectHandle}
use go_python.Internal.Instance.{
  Words, Guest, World, Context, Python, pack_ids, drain_releases, value_op, guarded_call, close,
}
use go_python.Internal.Release.{drain}

-- A buffer read as n words of eight bytes.
abbrev pub unpack : ℕ → Bytes → List ℕ
unpack zero b = []
unpack (suc n) b = from_le (take 8 b) ∷ unpack n (drop 8 b)

abbrev pub AllWords : List ℕ → Type 0
AllWords [] = Unit {0}
AllWords (id ∷ ids) = (id < 2 ^ 64) × AllWords ids

abbrev pub packs : List ℕ → Bytes
packs [] = []
packs (id ∷ ids) = le_bytes 8 id ++ packs ids

pub pack_ids-packs : (ids : List ℕ) (b : Bytes) → pack_ids b ids ≡ b ++ packs ids
unfolding pack_ids append_u64
pack_ids-packs [] b = sym (append-nil b)
pack_ids-packs (id ∷ ids) b =
    pack_ids-packs ids (b ++ le_bytes 8 id) ∙ append_assoc b (le_bytes 8 id) (packs ids)

pub unpack-packs : (ids : List ℕ) → AllWords ids → unpack (length ids) (packs ids) ≡ ids
unfolding le_bytes
unpack-packs [] h = refl
unpack-packs (id ∷ ids) h =
    ap (λ (x : ℕ). x ∷ unpack (length ids) (packs ids)) (from_le-le_bytes 8 id (omega (arith, h.0)))
    ∙ ap (λ (t : List ℕ). id ∷ t) (unpack-packs ids h.1)

-- The buffer of a release request holds the queued ids, every one once and in order.
pub unpack-pack_ids : (ids : List ℕ) → AllWords ids → unpack (length ids) (pack_ids [] ids) ≡ ids
unpack-pack_ids ids h = ap (unpack (length ids)) (pack_ids-packs ids []) ∙ unpack-packs ids h

-- The instance but for its words.
abbrev pub but_words : Words → Python → Python
but_words ws py = record py { words = ws }

module _ (guest : Guest) where
  either-drained :
      (l : List ℕ) (c : Bool) (emptied released : World guest) (ws : Words) (t : Python)
      → but_words ws emptied.py ≡ t
      → but_words ws released.py ≡ t
      → but_words ws
          (elim l as (λ x. World guest) [
            | [] ↦ emptied
            | _ ∷ _ ↦ if c then emptied else released
          ]).py
        ≡ t
  either-drained [] c emptied released ws t a b = a
  either-drained (id ∷ ids) true emptied released ws t a b = a
  either-drained (id ∷ ids) false emptied released ws t a b = b

  drain_releases-drain :
      (w : World guest) (delivered : Bool) (hs : List ObjectHandle) (sent lost : List ℕ)
      → but_words w.py.words (drain_releases guest w).py
        ≡ (drain delivered (record { handles = hs; py = w.py; sent = sent; lost = lost })).py
  unfolding drain_releases drain
  drain_releases-drain w delivered hs sent lost =
      either-drained w.py.pending_rel w.py.closed _ _ w.py.words _ refl refl

  pub value_op-live :
      (ctx : Context) (mid : ℕ) (buf : Bytes) (w : World guest)
      → ctx.entry_error ≡ none
      → w.py.closed ≡ false
      → value_op guest ctx mid buf w ≡ guarded_call guest ctx mid buf (drain_releases guest w)
  unfolding value_op
  value_op-live ctx mid buf w live is_open = simp (value_op, live, is_open)

  -- Under a live context, and on an open instance, an operation changes the instance just as the step
  -- `drain` of the release queue does, whether its request fails or not, but for the interrupt words; Close on an open instance changes
  -- only the closed flag and those words.
  pub value_op-drain :
      (ctx : Context) (mid : ℕ) (buf : Bytes) (w : World guest) (delivered : Bool)
      (hs : List ObjectHandle) (sent lost : List ℕ)
      → ctx.entry_error ≡ none
      → w.py.closed ≡ false
      → (but_words w.py.words (value_op guest ctx mid buf w).1.py
          ≡ (drain delivered (record { handles = hs; py = w.py; sent = sent; lost = lost })).py)
        × (but_words w.py.words (close guest w).1.py ≡ record w.py { closed = true })
  unfolding guarded_call close
  value_op-drain ctx mid buf w delivered hs sent lost live is_open = (
    ap (λ x. but_words w.py.words x.1.py) (value_op-live ctx mid buf w live is_open)
        ∙ drain_releases-drain w delivered hs sent lost,
    simp (close, is_open),
  )
