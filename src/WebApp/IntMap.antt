-- ===== src/WebApp/IntMap.antt =====
-- `std::unordered_map` with `int` keys, as an association list.
use workplace.Common.{Bool-cases, List, Option, [], ap, arith, false, false_ne_true, if◌then◌else◌}
use workplace.Common.{inl, inr, none, refl, some, sym, true, ◌↔◌, ◌∙◌, ◌∷◌, ◌≡◌}
use workplace.Common.Int.{int_eq, ℤ}

pub int_eq_iff : (a b : ℤ) → (int_eq a b ≡ true) ↔ (a ≡ b)
int_eq_iff a b = ground arith

differs : (i j k : ℤ) → int_eq i k ≡ false → i ≡ j → int_eq k j ≡ false
differs i j k other e = elim (Bool-cases (int_eq k j)) [
  | inr d ↦ d
  | inl d ↦ absurd (false_ne_true (sym other ∙ (int_eq_iff i k).1 (e ∙ sym ((int_eq_iff k j).0 d))))
]

module _ {V : Type 0} where
  unfoldable pub find_int : ℤ → List (ℤ × V) → Option V
  find_int k [] = none
  find_int k ((j, v) ∷ m) = let rest = find_int k m in if int_eq j k then some v else rest

  -- `m[k] = v`.
  unfoldable pub set_int : ℤ → V → List (ℤ × V) → List (ℤ × V)
  set_int k v [] = (k, v) ∷ []
  set_int k v ((j, u) ∷ m) =
      let rest = set_int k v m in if int_eq j k then (k, v) ∷ m else (j, u) ∷ rest

  -- `m.erase(k)`; a key occurs once, and so every entry of it goes.
  unfoldable pub erase_int : ℤ → List (ℤ × V) → List (ℤ × V)
  erase_int k [] = []
  erase_int k ((j, u) ∷ m) = let rest = erase_int k m in if int_eq j k then rest else (j, u) ∷ rest

  pub find_int-set_int :
      (k j : ℤ) (v : V) (m : List (ℤ × V))
      → find_int j (set_int k v m) ≡ (if int_eq k j then some v else find_int j m)
  unfolding find_int set_int
  find_int-set_int k j v [] = refl
  find_int-set_int k j v ((i, u) ∷ m) = elim (Bool-cases (int_eq i k)) [
    | inl same ↦ rw same (elim (Bool-cases (int_eq k j)) [
      | inl e ↦ rw e refl
      | inr e ↦ rw (e, ap (λ l. int_eq l j) ((int_eq_iff i k).0 same) ∙ e) refl
    ])
    | inr other ↦ rw other (elim (Bool-cases (int_eq i j)) [
      | inl e ↦ rw (e, differs i j k other ((int_eq_iff i j).0 e)) refl
      | inr e ↦ rw e (find_int-set_int k j v m)
    ])
  ]

  pub find_int-erase_int :
      (k j : ℤ) (m : List (ℤ × V))
      → find_int j (erase_int k m) ≡ (if int_eq k j then none else find_int j m)
  unfolding find_int erase_int
  find_int-erase_int k j [] = ground arith
  find_int-erase_int k j ((i, u) ∷ m) = elim (Bool-cases (int_eq i k)) [
    | inl same ↦ rw same (
        find_int-erase_int k j m ∙ elim (Bool-cases (int_eq k j)) [
          | inl e ↦ rw e refl
          | inr e ↦ rw (e, ap (λ l. int_eq l j) ((int_eq_iff i k).0 same) ∙ e) refl
        ])
    | inr other ↦ rw other (elim (Bool-cases (int_eq i j)) [
      | inl e ↦ rw (e, differs i j k other ((int_eq_iff i j).0 e)) refl
      | inr e ↦ rw e (find_int-erase_int k j m)
    ])
  ]
