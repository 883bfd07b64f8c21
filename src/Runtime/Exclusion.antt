-- ===== src/Runtime/Exclusion.antt =====
-- Two calls with the same key are never both between lockKey and its unlock, and no lock is left over.
use ssh_gate_oss.Base.{
  ℕ, ◌+◌, ◌-◌, ◌≤◌, ◌<◌, ◌≡◌, refl, sym, ap, ◌∙◌, subst, List, [], ◌∷◌, ◌++◌, none, some, arith,
  Option-cases, Bool-cases, inl, inr, ◌==◌, All,
}
use ssh_gate_oss.Text.{Text, lookup}
use ssh_gate_oss.Text.Laws.{text_eq_iff, text_eq_refl}
use ssh_gate_oss.Table.{lookup-put, lookup-delete}
use ssh_gate_oss.Runtime.Locks.{
  Phase, waiting, holding, unlocked, Call, World, new_world, call_of, take_lock, set_locked,
  drop_lock, Step, takes, locks, unlocks, drops, Reach, here, next,
}
use ssh_gate_oss.Runtime.Counts.{
  one_if, holds, users, holders, holders_of, users-append, holders-append, Finds, holders_of-le,
  holders_of-none, Finds-swap, Finds-drop, users-between, holders-between, Finds-put, Finds-delete,
}

record IsExclusive (w : World) : Type 0 where
  finds : All (Finds w.keys) w.calls
  refs_at : (a : ℕ) → (w.store a).refs ≡ users a w.calls
  locked_at : (a : ℕ) → one_if (w.store a).locked ≡ holders a w.calls
  below : (k : Text) (a : ℕ) → lookup k w.keys ≡ some a → a < w.free
  unused : (a : ℕ) → w.free ≤ a → (users a w.calls ≡ 0) × (holders a w.calls ≡ 0)
  used : (k : Text) (a : ℕ) → lookup k w.keys ≡ some a → 0 < users a w.calls
  apart : (k j : Text) (a : ℕ) → lookup k w.keys ≡ some a → lookup j w.keys ≡ some a → k ≡ j

exclusive : (w : World) (k : Text) → IsExclusive w → holders_of k w.calls ≤ 1
exclusive w k v = elim (Option-cases (lookup k w.keys)) [
  | inl e ↦ omega (arith, holders_of-none w.keys k w.calls e v.finds)
  | inr (a, e) ↦
      let le = holders_of-le w.keys k a w.calls e v.finds in let one = v.locked_at a in ground arith
]

set_locked-IsExclusive :
    (w : World) (pre post : List Call) (k : Text) (a : ℕ) (p q : Phase)
    → w.calls ≡ pre ++ call_of k a p ∷ post
    → one_if (w.store a).locked ≡ one_if (holds p)
    → IsExclusive w
    → IsExclusive (set_locked w (holds q) a (pre ++ call_of k a q ∷ post))
unfolding set_locked
set_locked-IsExclusive w pre post k a p q e l v = record {
  finds = Finds-swap w.keys pre post k a p q (subst (All (Finds w.keys)) e v.finds);
  refs_at = λ c.
      let was = v.refs_at c ∙ ap (users c) e in
      let before = users-between c pre post (call_of k a p) in
      let now = users-between c pre post (call_of k a q) in ground arith;
  locked_at = λ c.
      let was = v.locked_at c ∙ ap (holders c) e in
      let before = holders-between c pre post (call_of k a p) in
      let now = holders-between c pre post (call_of k a q) in ground arith;
  below = v.below;
  unused = λ c m.
      let (none_at, none_held) = v.unused c m in
      let used = ap (users c) (sym e) ∙ none_at in
      let held = ap (holders c) (sym e) ∙ none_held in
      let before = users-between c pre post (call_of k a p) in
      let now = users-between c pre post (call_of k a q) in
      let before' = holders-between c pre post (call_of k a p) in
      let now' = holders-between c pre post (call_of k a q) in ground arith;
  used = λ j b h.
      let was = v.used j b h in
      let same = ap (users b) e in
      ground
        (arith, users-between b pre post (call_of k a p), users-between b pre post (call_of k a q));
  apart = v.apart;
}

take_lock-IsExclusive : (w : World) (k : Text) → IsExclusive w → IsExclusive (take_lock w k)
unfolding take_lock
take_lock-IsExclusive w k v = elim (Option-cases (lookup k w.keys)) [
  | inr (a, e) ↦
      rw (take_lock, e)
        (record {
          finds = (e, v.finds);
          refs_at = λ c. ground (arith, v.refs_at c);
          locked_at = λ c. ground (arith, v.locked_at c);
          below = v.below;
          unused = λ c m. ground (arith, v.unused c m, v.below k a e);
          used = λ j b h. ground (arith, v.used j b h);
          apart = v.apart;
        })
  | inl e ↦
      rw (take_lock, e)
        (record {
          finds = (
            ground (arith, lookup-put k k w.free w.keys, text_eq_refl k),
            Finds-put w.keys k w.free w.calls e v.finds,
          );
          refs_at = λ c. ground (arith, v.refs_at c, v.unused w.free);
          locked_at = λ c. ground (arith, v.locked_at c, v.unused w.free);
          below = λ j a h. ground (arith, lookup-put k j w.free w.keys, v.below j a);
          unused = λ c m. ground (arith, v.unused c);
          used = λ j b h. ground (arith, lookup-put k j w.free w.keys, v.used j b);
          apart = λ i j a h g. ground (
            arith,
            lookup-put k i w.free w.keys,
            lookup-put k j w.free w.keys,
            v.below i a,
            v.below j a,
            v.apart i j a,
            text_eq_iff k i,
            text_eq_iff k j,
          );
        })
]

drop_lock-IsExclusive :
    (w : World) (pre post : List Call) (k : Text) (a : ℕ)
    → w.calls ≡ pre ++ call_of k a unlocked ∷ post
    → IsExclusive w
    → IsExclusive (drop_lock w k a (pre ++ post))
unfolding drop_lock
drop_lock-IsExclusive w pre post k a e v =
    let c0 = call_of k a unlocked in
    let (found, rest) = Finds-drop w.keys pre post c0 (subst (All (Finds w.keys)) e v.finds) in
    let last = v.refs_at a ∙ ap (users a) e ∙ users-between a pre post c0 in
    let left = users-append a pre post in
    record {
      finds = elim (Bool-cases ((w.store a).refs - 1 == 0)) [
        | inr h ↦ rw h rest
        | inl h ↦ rw h (Finds-delete w.keys k a (pre ++ post) found (ground arith) rest)
      ];
      refs_at = λ c. ground (
        arith,
        v.refs_at c ∙ ap (users c) e ∙ users-between c pre post c0,
        users-append c pre post,
      );
      locked_at = λ c. ground (
        arith,
        v.locked_at c ∙ ap (holders c) e ∙ holders-between c pre post c0,
        holders-append c pre post,
      );
      below = λ j b h. ground (arith, lookup-delete k j w.keys, v.below j b);
      unused = λ c m.
          let (no_user, no_holder) = v.unused c m in
          let used = ap (users c) (sym e) ∙ no_user in
          let held = ap (holders c) (sym e) ∙ no_holder in
          ground (
            arith,
            users-between c pre post c0,
            holders-between c pre post c0,
            users-append c pre post,
            holders-append c pre post,
          );
      used = λ j b h.
          let was : users b w.calls ≡ users b pre + one_if (a == b) + users b post =
            ap (users b) e ∙ users-between b pre post c0 in
          let count : (w.store a).refs ≡ users a pre + 1 + users a post = last ∙ ground arith in
          ground (
            arith,
            lookup-delete k j w.keys,
            v.used j b,
            v.apart j k b,
            users-append b pre post,
            text_eq_iff k j,
          );
      apart = λ i j b h g.
          ground (arith, lookup-delete k i w.keys, lookup-delete k j w.keys, v.apart i j b);
    }

Step-IsExclusive : {w u : World} → Step w u → IsExclusive w → IsExclusive u
Step-IsExclusive {w} (takes k) v = take_lock-IsExclusive w k v
Step-IsExclusive {w} (locks pre post k a e f) v =
    set_locked-IsExclusive w pre post k a waiting holding e (ap one_if f) v
Step-IsExclusive {w} (unlocks pre post k a e) v =
    set_locked-IsExclusive w pre post k a holding unlocked e (held w pre post k a e v) v
  where
    held :
        (w : World) (pre post : List Call) (k : Text) (a : ℕ)
        → w.calls ≡ pre ++ call_of k a holding ∷ post
        → IsExclusive w
        → one_if (w.store a).locked ≡ 1
    held w pre post k a e v =
        let now =
          v.locked_at a ∙ ap (holders a) e ∙ holders-between a pre post (call_of k a holding) in
        ground arith
Step-IsExclusive {w} (drops pre post k a e) v = drop_lock-IsExclusive w pre post k a e v

Reach-IsExclusive : {w u : World} → Reach w u → IsExclusive w → IsExclusive u
Reach-IsExclusive here v = v
Reach-IsExclusive (next r s) v = Step-IsExclusive s (Reach-IsExclusive r v)

new_world-IsExclusive : IsExclusive new_world
unfolding lookup
new_world-IsExclusive = record {
  finds = tt;
  refs_at = λ a. refl;
  locked_at = λ a. refl;
  below = λ k a h. absurd (ground arith);
  unused = λ a m. (refl, refl);
  used = λ k a h. absurd (ground arith);
  apart = λ k j a h g. absurd (ground arith);
}

-- Whatever calls of lockKey and of the functions that it answers interleave, at most one call holds a
-- lock of a key at a time, even where the lock of the key is dropped and made anew in between.
pub one_holder : (w : World) (k : Text) → Reach new_world w → holders_of k w.calls ≤ 1
one_holder w k r = exclusive w k (Reach-IsExclusive r new_world-IsExclusive)

-- The table of locks does not grow with the keys that were used: it is empty whenever no call is left.
pub no_lock_left :
    (w : World) (k : Text) → Reach new_world w → w.calls ≡ [] → lookup k w.keys ≡ none
no_lock_left w k r e = elim (Option-cases (lookup k w.keys)) [
  | inl h ↦ h
  | inr (a, h) ↦
      let v = Reach-IsExclusive r new_world-IsExclusive in
      let some_user = v.used k a h in let none_left = ap (users a) e in absurd (omega arith)
]
