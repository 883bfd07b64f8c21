-- ===== src/Table.antt =====
-- Go maps from strings to values, as association lists. The order of the list stands for the
-- order of an iteration, which Go leaves open.
use ssh_gate_oss.Base.{◌≡◌, refl, List, [], ◌∷◌, none, some, arith, if◌then◌else◌}
use ssh_gate_oss.Text.{Text, text_eq, lookup}
use ssh_gate_oss.Text.Laws.{text_eq_iff, text_eq_refl}

module _ {ℓ} {V : Type ℓ} where
  -- m[k] = v.
  unfoldable pub put : Text → V → List (Text × V) → List (Text × V)
  put k v [] = (k, v) ∷ []
  put k v ((j, w) ∷ m) = if text_eq j k then (k, v) ∷ m else (j, w) ∷ put k v m

  -- delete(m, k).
  unfoldable pub delete : Text → List (Text × V) → List (Text × V)
  delete k [] = []
  delete k ((j, w) ∷ m) = let rest = delete k m in if text_eq j k then rest else (j, w) ∷ rest

  pub lookup-put :
      (k j : Text) (v : V) (m : List (Text × V))
      → lookup j (put k v m) ≡ (if text_eq k j then some v else lookup j m)
  unfolding lookup put
  lookup-put k j v [] = ground arith
  lookup-put k j v ((i, w) ∷ m) =
      ground (arith, text_eq_iff k j, text_eq_iff i k, text_eq_iff i j, lookup-put k j v m)

  pub lookup-delete :
      (k j : Text) (m : List (Text × V))
      → lookup j (delete k m) ≡ (if text_eq k j then none else lookup j m)
  unfolding lookup delete
  lookup-delete k j [] = ground arith
  lookup-delete k j ((i, w) ∷ m) =
      ground (arith, text_eq_iff k j, text_eq_iff i k, text_eq_iff i j, lookup-delete k j m)

  -- No key occurs twice.
  abbrev pub Distinct : List (Text × V) → Type ℓ
  Distinct [] = Unit
  Distinct ((j, w) ∷ m) = (lookup j m ≡ none) × Distinct m

  pub put-Distinct : (k : Text) (v : V) (m : List (Text × V)) → Distinct m → Distinct (put k v m)
  unfolding put
  put-Distinct k v [] d = (unfold lookup in refl, tt)
  put-Distinct k v ((i, w) ∷ m) d =
      ground (arith, text_eq_iff i k, lookup-put k i v m, put-Distinct k v m d.1, text_eq_iff k i)

  pub delete-Distinct : (k : Text) (m : List (Text × V)) → Distinct m → Distinct (delete k m)
  unfolding delete
  delete-Distinct k [] d = tt
  delete-Distinct k ((i, w) ∷ m) d = ground (arith, lookup-delete k i m, delete-Distinct k m d.1)

  pub lookup-put_self : (k : Text) (v : V) (m : List (Text × V)) → lookup k (put k v m) ≡ some v
  lookup-put_self k v m = rw (lookup-put k k v m, text_eq_refl k) refl
