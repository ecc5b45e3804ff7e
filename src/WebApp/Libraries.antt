-- ===== src/WebApp/Libraries.antt =====
-- What the web application uses of code outside the repository: JSON (`nlohmann::json`), the MySQL
-- connector behind `MySqlUtil`, the file system, the clock, the random sources and `std::sort`.
use workplace.Common.{Bool, List, Option, inl, inr, refl, ℕ, ◌≡◌, ◌⊎◌}
use workplace.Common.Int.{ℤ}
use workplace.Common.Text.{Text}
use workplace.Gomoku.Minimax.{Sort}

-- A result, or the text `what()` of an exception.
abbrev pub Tried : Type 0 → Type 0
Tried A = Text ⊎ A

infixl 5 ◌>>=◌
abbrev pub ◌>>=◌ : {A B : Type 0} → Tried A → (A → Tried B) → Tried B
inl what >>= f = inl what
inr a >>= f = f a

pub Tried-cases :
    {A : Type 0} (t : Tried A) → ((what : Text) × (t ≡ inl what)) ⊎ ((a : A) × (t ≡ inr a))
Tried-cases (inl what) = inl (what, refl)
Tried-cases (inr a) = inr (a, refl)

-- `text_at` and `int_at` are a conversion of `json["key"]`, which throws for another kind of value.
-- `dump` is `dump()`, and `dump_indented` is `dump(4)`; both throw for a text that is not UTF-8, which
-- is left out. `execute_query` gives the rows of the
-- result. `clock`, `rand` and `draw` are the readings of the clock, the results of `rand()`, and the
-- numbers for session ids; `second` is a second in ticks of the clock.
pub record Libraries : Type 1 where
  pub Json : Type 0
  pub parse : Text → Tried Json
  pub text_at : Json → Text → Tried Text
  pub int_at : Json → Text → Tried ℤ
  pub json_text : Text → Json
  pub json_int : ℤ → Json
  pub json_bool : Bool → Json
  pub json_array : List Json → Json
  pub json_object : List (Text × Json) → Json
  pub dump : Json → Text
  pub dump_indented : Json → Text
  pub Database : Type 0
  pub Row : Type 0
  pub execute_query : Database → Text → Tried (List Row)
  pub execute_update : Database → Text → Tried Database
  pub get_int : Row → Text → Tried ℤ
  pub read_file : Text → Option Text
  pub stoi_what : Text → Text
  pub clock : ℕ → ℕ
  pub second : ℕ
  pub rand : ℕ → ℕ
  pub Random : Type 0
  pub draw : Random → ℕ × Random
  pub sort : Sort
