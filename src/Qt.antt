-- ===== src/Qt.antt =====
-- What the program uses of Qt's QString and QByteArray. A text is the list of its UTF-16 code units; `==`, `+` and
-- `isEmpty` are those of lists, and the rest is Qt's own code, a parameter of the model.
use Prim.Native.String.{String}
use Prim.Native.Char.{code}
use remote_access_platform.Prelude.{
  ℕ, ◌%◌, ◌^◌, ◌<◌, ◌≡◌, ◌∙◌, List, [], ◌∷◌, Bool, length, take, ltb, ◌==◌, if◌then◌else◌, if-true,
  lt→ltb, take-all, arith,
}
use native.Mathlib.Nat.{mod-eq_of_lt, le_refl}

abbrev pub Text : Type 0
Text = List ℕ

-- A literal in the source; those that the model takes over are ASCII.
abbrev pub literal : String → Text
literal String.[] = []
literal (String.◌∷◌ c s) = code c ∷ literal s

pub record QtText : Type 0 where
  pub from_utf8 : List ℕ → Text
  pub to_utf8 : Text → List ℕ
  pub trimmed : Text → Text
  -- `remove(' ')`
  pub remove_spaces : Text → Text
  pub contains : Text → Text → Bool
  pub starts_with : Text → Text → Bool
  -- `mid(n)`
  pub mid : Text → ℕ → Text
  -- `QString::number`
  pub number : ℕ → Text
  -- `text.arg(value)`
  pub arg : Text → Text → Text

-- The bytes up to the first that is 0.
unfoldable pub until_nul : List ℕ → List ℕ
until_nul [] = []
until_nul (x ∷ xs) = let rest = until_nul xs in if x == 0 then [] else x ∷ rest

-- `QByteArray(data, static_cast<int>(size))`: of a size that is negative as an `int` Qt makes a string
-- that ends at a 0.
unfoldable pub byte_array : List ℕ → List ℕ
byte_array bytes =
    let size = length bytes % 2 ^ 32 in
    if ltb size (2 ^ 31) then take size bytes else until_nul bytes

-- Below 2 ^ 31 bytes they are all taken.
pub byte_array_whole : (bytes : List ℕ) → length bytes < 2 ^ 31 → byte_array bytes ≡ bytes
unfolding byte_array
byte_array_whole bytes h =
    let same : length bytes % 2 ^ 32 ≡ length bytes = mod-eq_of_lt (omega arith) in
    rw same (
      if-true _ (until_nul bytes) (lt→ltb (length bytes) (2 ^ 31) h)
      ∙ take-all (length bytes) bytes (le_refl _))
