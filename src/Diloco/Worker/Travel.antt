-- ===== src/Diloco/Worker/Travel.antt =====
-- diloco/worker.py: a state that is sent arrives as it was.
use dssd.Prelude.{
  ◌≡◌, refl, sym, ap, ◌∙◌, String, false, some, [], ◌∷◌, ◌++◌, Dict, insert, keys, contains, arith,
}
use mathlib.Core.List.{append_assoc, append-nil}
use dssd.Diloco.Worker.{Layout, state_to_pb, state_from_pb}

module _ {T : Type 0} where
  insert-append :
      (k : String) (v : T) (d : Dict T)
      → contains (keys d) k ≡ false
      → insert k v d ≡ d ++ (k, v) ∷ []
  unfolding insert
  insert-append k v [] h = refl
  insert-append k v ((j, w) ∷ d) h = ground (arith, insert-append k v d)

  -- No key of `e` is one of `d`'s, or stands in `e` twice.
  abbrev pub AreNew : Dict T → Dict T → Type 0
  AreNew d [] = Unit
  AreNew d ((k, v) ∷ e) = (contains (keys d) k ≡ false) × AreNew (d ++ (k, v) ∷ []) e

module _ {T F : Type 0} where
  -- What torch gives back of this state's tensors.
  abbrev pub AreReshaped : Layout T F → Dict T → Type 0
  AreReshaped layout [] = Unit
  AreReshaped layout ((k, v) ∷ d) =
      (layout.reshape (layout.flatten v) (layout.shape v) ≡ some v) × AreReshaped layout d

  state_from_pb-append :
      (layout : Layout T F) (e d : Dict T)
      → AreNew d e
      → AreReshaped layout e
      → state_from_pb layout (state_to_pb layout e) d ≡ some (d ++ e)
  unfolding state_from_pb state_to_pb
  state_from_pb-append layout [] d h r = ap some (sym (append-nil d))
  state_from_pb-append layout ((k, v) ∷ e) d (new, h) (back, r) =
      rw (back, state_from_pb)
        (rw (insert-append k v d new) (
          state_from_pb-append layout e (d ++ (k, v) ∷ []) h r
          ∙ ap some (append_assoc d ((k, v) ∷ []) e)))

  -- If torch restores each tensor from its shape and its values, a state whose keys differ is the
  -- same after it was turned into messages and back.
  pub state_from_pb-state_to_pb :
      (layout : Layout T F) (d : Dict T)
      → AreNew [] d
      → AreReshaped layout d
      → state_from_pb layout (state_to_pb layout d) [] ≡ some d
  state_from_pb-state_to_pb layout d h r = state_from_pb-append layout d [] h r
