-- ===== src/Common/Text.antt =====
-- Text as a list of character codes, and maps from text to text (`std::map` and
-- `std::unordered_map`), kept in the order of their keys, which is how `std::map` is read out.
use Prim.Native.Char.{code}
use Prim.Native.String.{String}
use Prim.Native.Nat.{ℕ}
use mathlib.Core.Path.{◌≡◌, refl}
use mathlib.Core.Logic.{◌↔◌, ◌≢◌, inl, inr}
use mathlib.Core.Bool.{Bool, true, false, ◌&&◌, ◌||◌}
use mathlib.Core.Option.{Option, none, some}
use mathlib.Core.List.{List, [], ◌∷◌, ◌++◌}
use native.Mathlib.Omega.{arith}
use native.Mathlib.Decide.{ℕ_discrete}
use workplace.Common.Tests.{Option-cases, false_ne_true, if◌then◌else◌, leb, ltb, ◌==◌}

abbrev pub Text : Type 0
Text = List ℕ

abbrev pub codes : String → Text
codes String.[] = []
codes (String.◌∷◌ c s) = code c ∷ codes s

unfoldable pub text_eq : Text → Text → Bool
text_eq [] [] = true
text_eq (a ∷ s) (b ∷ t) = a == b && text_eq s t
text_eq _ _ = false

pub text_eq_iff : (s t : Text) → (text_eq s t ≡ true) ↔ (s ≡ t)
unfolding text_eq
text_eq_iff [] [] = (λ e. refl, λ e. refl)
text_eq_iff [] (b ∷ t) = (λ e. absurd (false_ne_true e), λ e. cc)
text_eq_iff (a ∷ s) [] = (λ e. absurd (false_ne_true e), λ e. cc)
text_eq_iff (a ∷ s) (b ∷ t) = ground (arith, text_eq_iff s t)

pub text_eq_refl : (s : Text) → text_eq s s ≡ true
text_eq_refl s = (text_eq_iff s s).1 refl

-- `operator<` of `std::string`.
unfoldable pub text_ltb : Text → Text → Bool
text_ltb s [] = false
text_ltb [] (b ∷ t) = true
text_ltb (a ∷ s) (b ∷ t) = ltb a b || (a == b && text_ltb s t)

abbrev pub cons_cut : ℕ → Option (Text × Text) → Option (Text × Text)
cons_cut a none = none
cons_cut a (some (before, after)) = some (a ∷ before, after)

-- The text before and after the first `c`, if there is one.
unfoldable pub cut : ℕ → Text → Option (Text × Text)
cut c [] = none
cut c (a ∷ s) = let rest = cons_cut a (cut c s) in if a == c then some ([], s) else rest

-- A text without the character `c`.
abbrev pub Lacks : ℕ → Text → Type 0
Lacks c [] = Unit
Lacks c (a ∷ s) = (a ≢ c) × Lacks c s

pub cut-append : (c : ℕ) (s t : Text) → Lacks c s → cut c (s ++ c ∷ t) ≡ some (s, t)
unfolding cut
cut-append c [] t h = ground arith
cut-append c (a ∷ s) t h = ground (arith, cut-append c s t h.1)

pub cut-none : (c : ℕ) (s : Text) → Lacks c s → cut c s ≡ none
unfolding cut
cut-none c [] h = refl
cut-none c (a ∷ s) h = ground (arith, cut-none c s h.1)

pub cut_sound :
    (c : ℕ) (s before after : Text)
    → cut c s ≡ some (before, after)
    → (s ≡ before ++ c ∷ after) × Lacks c before
unfolding cut
cut_sound c [] before after e = absurd (ground arith)
cut_sound c (a ∷ s) before after e = elim (ℕ_discrete a c) [
  | yes here ↦ ground arith
  | no further ↦ elim (Option-cases (cut c s)) [
    | inl missing ↦ absurd (ground arith)
    | inr ((front, back), found) ↦ ground (arith, cut_sound c s front back found)
  ]
]

-- `isspace` in the C locale.
abbrev pub is_space : ℕ → Bool
is_space c = c == 32 || (leb 9 c && leb c 13)

unfoldable pub skip_space : Text → Text
skip_space [] = []
skip_space (a ∷ s) = let rest = skip_space s in if is_space a then rest else a ∷ s

-- The text without the spaces at its end.
unfoldable pub trim_end : Text → Text
trim_end [] = []
trim_end (a ∷ s) = elim (trim_end s) [ [] ↦ if is_space a then [] else a ∷ [] | b ∷ t ↦ a ∷ b ∷ t ]

abbrev pub TextMap : Type 0
TextMap = List (Text × Text)

unfoldable pub lookup : Text → TextMap → Option Text
lookup k [] = none
lookup k ((j, v) ∷ m) = let rest = lookup k m in if text_eq j k then some v else rest

-- `m[k] = v`.
unfoldable pub insert : Text → Text → TextMap → TextMap
insert k v [] = (k, v) ∷ []
insert k v ((j, w) ∷ m) =
    let rest = insert k v m in
    if text_eq j k then (k, v) ∷ m else if text_ltb k j then (k, v) ∷ (j, w) ∷ m else (j, w) ∷ rest

pub lookup-insert :
    (k j v : Text) (m : TextMap)
    → lookup j (insert k v m) ≡ (if text_eq k j then some v else lookup j m)
unfolding lookup insert
lookup-insert k j v [] = refl
lookup-insert k j v ((i, w) ∷ m) =
    ground (arith, text_eq_iff k j, text_eq_iff i k, text_eq_iff i j, lookup-insert k j v m)

-- `it != end() ? it->second : ""`.
unfoldable pub find_or_empty : Text → TextMap → Text
find_or_empty k m = elim (lookup k m) [ none ↦ [] | some v ↦ v ]

pub find_or_empty-insert :
    (k j v : Text) (m : TextMap)
    → find_or_empty j (insert k v m) ≡ (if text_eq k j then v else find_or_empty j m)
unfolding find_or_empty
find_or_empty-insert k j v m = ground (arith, lookup-insert k j v m)
