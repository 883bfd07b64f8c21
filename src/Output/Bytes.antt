-- ===== src/Output/Bytes.antt =====
-- Go's slices of bytes, as lists of numbers: indexing, copy and make; and unsigned 64-bit numbers.
use native.Mathlib.Nat.{mod-eq_of_lt}
use ssh_gate_oss.Base.{
  ℕ, zero, suc, ◌+◌, ◌-◌, ◌%◌, ◌≤◌, ◌<◌, min, ◌≡◌, refl, ap, List, [], ◌∷◌, ◌++◌, arith, length,
  take, drop,
}

abbrev pub Bytes : Type 0
Bytes = List ℕ

-- uint64 sums and differences.
abbrev pub word : ℕ
word = 18446744073709551616

unfoldable pub add_word : ℕ → ℕ → ℕ
add_word a b = (a + b) % word

unfoldable pub sub_word : ℕ → ℕ → ℕ
sub_word a b = (a + (word - b)) % word

pub add_word_of_lt : (a b : ℕ) → a + b < word → add_word a b ≡ a + b
unfolding add_word
add_word_of_lt a b h = mod-eq_of_lt h

pub sub_word_of_le : (a b : ℕ) → b ≤ a → a < word → sub_word a b ≡ a - b
unfolding sub_word
sub_word_of_le a b p q = omega arith

-- p[i], and 0 behind the end.
unfoldable pub byte_at : Bytes → ℕ → ℕ
byte_at [] i = 0
byte_at (x ∷ p) zero = x
byte_at (x ∷ p) (suc i) = byte_at p i

-- make([]byte, n).
unfoldable pub make : ℕ → Bytes
make zero = []
make (suc n) = 0 ∷ make n

-- copy(d[pos:], p).
unfoldable pub copy_at : Bytes → ℕ → Bytes → Bytes
copy_at [] pos p = []
copy_at (x ∷ d) zero [] = x ∷ d
copy_at (x ∷ d) zero (b ∷ p) = b ∷ copy_at d zero p
copy_at (x ∷ d) (suc pos) p = x ∷ copy_at d pos p

pub length-make : (n : ℕ) → length (make n) ≡ n
unfolding make
length-make zero = refl
length-make (suc n) = ap suc (length-make n)

pub length-copy_at : (d : Bytes) (pos : ℕ) (p : Bytes) → length (copy_at d pos p) ≡ length d
unfolding copy_at
length-copy_at [] pos p = refl
length-copy_at (x ∷ d) zero [] = refl
length-copy_at (x ∷ d) zero (b ∷ p) = ap suc (length-copy_at d zero p)
length-copy_at (x ∷ d) (suc pos) p = ap suc (length-copy_at d pos p)

pub copy_at-in :
    (d : Bytes) (pos : ℕ) (p : Bytes) (i k : ℕ)
    → i ≡ pos + k
    → k < length p
    → i < length d
    → byte_at (copy_at d pos p) i ≡ byte_at p k
unfolding copy_at byte_at
copy_at-in [] pos p i k e h m = absurd (omega arith)
copy_at-in (x ∷ d) zero [] i k e h m = absurd (omega arith)
copy_at-in (x ∷ d) zero (b ∷ p) zero zero e h m = refl
copy_at-in (x ∷ d) zero (b ∷ p) zero (suc k) e h m = absurd (omega arith)
copy_at-in (x ∷ d) zero (b ∷ p) (suc i) zero e h m = absurd (omega arith)
copy_at-in (x ∷ d) zero (b ∷ p) (suc i) (suc k) e h m =
    copy_at-in d zero p i k (omega arith) (omega arith) (omega arith)
copy_at-in (x ∷ d) (suc pos) p zero k e h m = absurd (omega arith)
copy_at-in (x ∷ d) (suc pos) p (suc i) k e h m =
    copy_at-in d pos p i k (omega arith) h (omega arith)

pub copy_at-before :
    (d : Bytes) (pos : ℕ) (p : Bytes) (i : ℕ) → i < pos → byte_at (copy_at d pos p) i ≡ byte_at d i
unfolding copy_at byte_at
copy_at-before [] pos p i h = refl
copy_at-before (x ∷ d) zero p i h = absurd (omega arith)
copy_at-before (x ∷ d) (suc pos) p zero h = refl
copy_at-before (x ∷ d) (suc pos) p (suc i) h = copy_at-before d pos p i (omega arith)

pub copy_at-behind :
    (d : Bytes) (pos : ℕ) (p : Bytes) (i : ℕ)
    → pos + length p ≤ i
    → byte_at (copy_at d pos p) i ≡ byte_at d i
unfolding copy_at byte_at
copy_at-behind [] pos p i h = refl
copy_at-behind (x ∷ d) zero [] i h = refl
copy_at-behind (x ∷ d) zero (b ∷ p) zero h = absurd (omega arith)
copy_at-behind (x ∷ d) zero (b ∷ p) (suc i) h = copy_at-behind d zero p i (omega arith)
copy_at-behind (x ∷ d) (suc pos) p zero h = absurd (omega arith)
copy_at-behind (x ∷ d) (suc pos) p (suc i) h = copy_at-behind d pos p i (omega arith)

pub byte_at-drop : (n : ℕ) (p : Bytes) (i j : ℕ) → j ≡ n + i → byte_at (drop n p) i ≡ byte_at p j
unfolding byte_at
byte_at-drop zero p i j e = ap (byte_at p) {x = i} (omega arith)
byte_at-drop (suc n) [] i j e = refl
byte_at-drop (suc n) (x ∷ p) i zero e = absurd (omega arith)
byte_at-drop (suc n) (x ∷ p) i (suc j) e = byte_at-drop n p i j (omega arith)

pub byte_at-take : (n : ℕ) (p : Bytes) (i : ℕ) → i < n → byte_at (take n p) i ≡ byte_at p i
unfolding byte_at
byte_at-take zero p i h = absurd (omega arith)
byte_at-take (suc n) [] i h = refl
byte_at-take (suc n) (x ∷ p) zero h = refl
byte_at-take (suc n) (x ∷ p) (suc i) h = byte_at-take n p i (omega arith)

pub append-before : (p q : Bytes) (i : ℕ) → i < length p → byte_at (p ++ q) i ≡ byte_at p i
unfolding byte_at
append-before [] q i h = absurd (omega arith)
append-before (x ∷ p) q zero h = refl
append-before (x ∷ p) q (suc i) h = append-before p q i (omega arith)

pub append-behind : (p q : Bytes) (i k : ℕ) → i ≡ length p + k → byte_at (p ++ q) i ≡ byte_at q k
unfolding byte_at
append-behind [] q i k e = ap (byte_at q) {x = i} (omega arith)
append-behind (x ∷ p) q zero k e = absurd (omega arith)
append-behind (x ∷ p) q (suc i) k e = append-behind p q i k (omega arith)

pub length-drop : (n : ℕ) (p : Bytes) → length (drop n p) ≡ length p - n
length-drop zero p = omega arith
length-drop (suc n) [] = omega arith
length-drop (suc n) (x ∷ p) = omega (arith, length-drop n p)

pub length-take : (n : ℕ) (p : Bytes) → length (take n p) ≡ min n (length p)
length-take zero p = omega arith
length-take (suc n) [] = omega arith
length-take (suc n) (x ∷ p) = omega (arith, length-take n p)

pub take_all : (n : ℕ) (p : Bytes) → length p ≤ n → take n p ≡ p
take_all zero [] h = refl
take_all zero (x ∷ p) h = absurd (omega arith)
take_all (suc n) [] h = refl
take_all (suc n) (x ∷ p) h = ap (λ q. x ∷ q) (take_all n p (omega arith))

pub take-append-drop : (n : ℕ) (p : Bytes) → take n p ++ drop n p ≡ p
take-append-drop zero p = refl
take-append-drop (suc n) [] = refl
take-append-drop (suc n) (x ∷ p) = ap (λ q. x ∷ q) (take-append-drop n p)

-- Two slices with the same bytes are the same.
pub bytes_ext :
    (p q : Bytes)
    → length p ≡ length q
    → ((i : ℕ) → i < length p → byte_at p i ≡ byte_at q i)
    → p ≡ q
unfolding byte_at
bytes_ext [] [] h k = refl
bytes_ext [] (y ∷ q) h k = absurd (omega arith)
bytes_ext (x ∷ p) [] h k = absurd (omega arith)
bytes_ext (x ∷ p) (y ∷ q) h k =
    rw (k 0 (omega arith), bytes_ext p q (omega arith) (λ i m. k (suc i) (omega arith))) refl
