-- ===== src/Runtime/Counts.antt =====
-- The calls that share a lock, counted, and the table that leads each to its lock.
use ssh_gate_oss.Base.{
  ℕ, ◌+◌, ◌≤◌, ◌≡◌, refl, Bool, true, false, ◌&&◌, List, [], ◌∷◌, ◌++◌, none, some, arith, ◌==◌,
  All,
}
use ssh_gate_oss.Text.{Text, text_eq, lookup}
use ssh_gate_oss.Text.Laws.{text_eq_iff}
use ssh_gate_oss.Table.{put, delete, lookup-put, lookup-delete}
use ssh_gate_oss.Runtime.Locks.{Phase, holding, Call, call_of}

abbrev pub one_if : Bool → ℕ
one_if true = 1
one_if false = 0

abbrev pub holds : Phase → Bool
holds holding = true
holds _ = false

-- The calls that have the lock, and those of them that hold it.
abbrev pub users : ℕ → List Call → ℕ
users a [] = 0
users a (c ∷ cs) = one_if (c.address == a) + users a cs

abbrev pub holders : ℕ → List Call → ℕ
holders a [] = 0
holders a (c ∷ cs) = one_if (c.address == a && holds c.phase) + holders a cs

-- The calls that hold a lock of the key.
abbrev pub holders_of : Text → List Call → ℕ
holders_of k [] = 0
holders_of k (c ∷ cs) = one_if (text_eq c.key k && holds c.phase) + holders_of k cs

pub users-append : (a : ℕ) (cs ds : List Call) → users a (cs ++ ds) ≡ users a cs + users a ds
users-append a [] ds = omega arith
users-append a (c ∷ cs) ds = omega (arith, users-append a cs ds)

pub holders-append :
    (a : ℕ) (cs ds : List Call) → holders a (cs ++ ds) ≡ holders a cs + holders a ds
holders-append a [] ds = omega arith
holders-append a (c ∷ cs) ds = omega (arith, holders-append a cs ds)

-- The lock of each call is the one of its key.
abbrev pub Finds : List (Text × ℕ) → Call → Type 0
Finds keys c = lookup c.key keys ≡ some c.address

pub holders_of-le :
    (keys : List (Text × ℕ)) (k : Text) (a : ℕ) (cs : List Call)
    → lookup k keys ≡ some a
    → All (Finds keys) cs
    → holders_of k cs ≤ holders a cs
holders_of-le keys k a [] e f = omega arith
holders_of-le keys k a (c ∷ cs) e (f, fs) =
    ground (arith, holders_of-le keys k a cs e fs, text_eq_iff c.key k)

pub holders_of-none :
    (keys : List (Text × ℕ)) (k : Text) (cs : List Call)
    → lookup k keys ≡ none
    → All (Finds keys) cs
    → holders_of k cs ≡ 0
holders_of-none keys k [] e f = refl
holders_of-none keys k (c ∷ cs) e (f, fs) =
    ground (arith, holders_of-none keys k cs e fs, text_eq_iff c.key k)

pub Finds-swap :
    (keys : List (Text × ℕ)) (pre post : List Call) (k : Text) (a : ℕ) (p q : Phase)
    → All (Finds keys) (pre ++ call_of k a p ∷ post)
    → All (Finds keys) (pre ++ call_of k a q ∷ post)
Finds-swap keys [] post k a p q v = v
Finds-swap keys (c ∷ pre) post k a p q (f, fs) = (f, Finds-swap keys pre post k a p q fs)

pub Finds-drop :
    (keys : List (Text × ℕ)) (pre post : List Call) (c : Call)
    → All (Finds keys) (pre ++ c ∷ post)
    → Finds keys c × All (Finds keys) (pre ++ post)
Finds-drop keys [] post c v = v
Finds-drop keys (d ∷ pre) post c (f, fs) =
    let (g, gs) = Finds-drop keys pre post c fs in (g, (f, gs))

-- The counts where a call stands between others.
pub users-between :
    (b : ℕ) (pre post : List Call) (c : Call)
    → users b (pre ++ c ∷ post) ≡ users b pre + one_if (c.address == b) + users b post
users-between b pre post c = omega (arith, users-append b pre (c ∷ post))

pub holders-between :
    (b : ℕ) (pre post : List Call) (c : Call)
    → holders b (pre ++ c ∷ post)
      ≡ holders b pre + one_if (c.address == b && holds c.phase) + holders b post
holders-between b pre post c = omega (arith, holders-append b pre (c ∷ post))

pub Finds-put :
    (keys : List (Text × ℕ)) (k : Text) (a : ℕ) (cs : List Call)
    → lookup k keys ≡ none
    → All (Finds keys) cs
    → All (Finds (put k a keys)) cs
Finds-put keys k a [] e f = tt
Finds-put keys k a (c ∷ cs) e (f, fs) =
    (ground (arith, lookup-put k c.key a keys, text_eq_iff k c.key), Finds-put keys k a cs e fs)

pub Finds-delete :
    (keys : List (Text × ℕ)) (k : Text) (a : ℕ) (cs : List Call)
    → lookup k keys ≡ some a
    → users a cs ≡ 0
    → All (Finds keys) cs
    → All (Finds (delete k keys)) cs
Finds-delete keys k a [] e u f = tt
Finds-delete keys k a (c ∷ cs) e u (f, fs) = (
  ground (arith, lookup-delete k c.key keys, text_eq_iff k c.key),
  Finds-delete keys k a cs e (ground arith) fs,
)
