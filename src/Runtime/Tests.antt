-- ===== src/Runtime/Tests.antt =====
-- Two retries of one request that wait for each other.
use ssh_gate_oss.Base.{◌≡◌, ◌≤◌, refl, true, false, [], ◌∷◌, ◌++◌, none}
use ssh_gate_oss.Text.{Text, codes, text_eq, lookup}
use ssh_gate_oss.Table.{put}
use ssh_gate_oss.Runtime.Locks.{
  World, new_world, call_of, take_lock, set_locked, drop_lock, waiting, holding, unlocked, takes,
  locks, unlocks, drops, Reach, here, next,
}
use ssh_gate_oss.Runtime.Counts.{holders_of}
use ssh_gate_oss.Runtime.Exclusion.{one_holder, no_lock_left}

abbrev key : Text
key = codes "agent/retry-1"

abbrev two : World
two = take_lock (take_lock new_world key) key

two_wait : two.calls ≡ [] ++ call_of key 0 waiting ∷ call_of key 0 waiting ∷ []
unfolding take_lock lookup put text_eq
two_wait = refl

two_unlocked : (two.store 0).locked ≡ false
unfolding take_lock lookup put text_eq
two_unlocked = refl

abbrev one_enters : World
one_enters = set_locked two true 0 (call_of key 0 holding ∷ call_of key 0 waiting ∷ [])

one_holder_example : holders_of key one_enters.calls ≤ 1
one_holder_example = one_holder one_enters key (
    next (next (next here (takes key)) (takes key))
      (locks [] (call_of key 0 waiting ∷ []) key 0 two_wait two_unlocked))

abbrev entered : World
entered = set_locked (take_lock new_world key) true 0 (call_of key 0 holding ∷ [])

abbrev left : World
left = set_locked entered false 0 (call_of key 0 unlocked ∷ [])

abbrev over : World
over = drop_lock left key 0 []

over-Reach : Reach new_world over
unfolding take_lock lookup put text_eq set_locked
over-Reach =
    next
      (next (next (next here (takes key)) (locks [] [] key 0 refl refl)) (unlocks [] [] key 0 refl))
      (drops [] [] key 0 refl)

over_empty : over.calls ≡ []
unfolding drop_lock
over_empty = refl

no_lock_left_example : lookup key over.keys ≡ none
no_lock_left_example = no_lock_left over key over-Reach over_empty
