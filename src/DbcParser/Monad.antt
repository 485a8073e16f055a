-- ===== src/DbcParser/Monad.antt =====
-- The state of a `DbcParser` and the shapes that its functions are written in.
use cancept.Prelude.{
  ℕ, suc, Bool, true, false, ◌++◌, Option, none, some, Bytes, codes, length, drop, starts_with,
}
use Prim.Native.String.{String}

-- `file`, `parsingValid` and `parsedObject`.
pub record Parser : Type 0 where
  pub file : Bytes
  pub parsing_valid : Bool
  pub parsed_object : Bool

-- A member function: its value and the state after it. `none` is a loop whose fuel ran out.
abbrev pub M : Type 0 → Type 0
M A = Parser → Option (A × Parser)

infixl 5 ◌>>=◌ ◌>>◌
abbrev pub ◌>>=◌ : {A B : Type 0} → M A → (A → M B) → M B
◌>>=◌ m f p = elim (m p) [ none ↦ none | some (a, p') ↦ f a p' ]

abbrev pub ◌>>◌ : {A B : Type 0} → M A → M B → M B
m >> k = m >>= λ _. k

abbrev pub ret : {A : Type 0} → A → M A
ret a p = some (a, p)

-- `parsedObject = false; return v;`
abbrev pub absent : {A : Type 0} → A → M A
absent v p = some (v, record p { parsed_object = false })

-- `parsingValid = false; parsedObject = false; return v;`
abbrev pub invalid : {A : Type 0} → A → M A
invalid v p = some (v, record p { parsing_valid = false; parsed_object = false })

-- `parsedObject = true; return v;`
abbrev pub parsed : {A : Type 0} → A → M A
parsed v p = some (v, record p { parsed_object = true })

-- `if (file.starts_with(…)) … else …`
abbrev pub if_starts : {A : Type 0} → String → M A → M A → M A
if_starts s yes_branch no_branch p = elim (starts_with p.file (codes s)) [
  | true ↦ yes_branch p
  | false ↦ no_branch p
]

-- `if (parsingValid) … else …`
abbrev pub if_valid : {A : Type 0} → M A → M A → M A
if_valid yes_branch no_branch p = elim p.parsing_valid [ true ↦ yes_branch p | false ↦ no_branch p ]

-- `if (!parsedObject)` with its branch last.
abbrev pub if_parsed : {A : Type 0} → M A → M A → M A
if_parsed yes_branch no_branch p = elim p.parsed_object [
  | true ↦ yes_branch p
  | false ↦ no_branch p
]

-- The macro `IF_PARSING_INVALID_RETURN(v)`, and what follows it.
abbrev pub valid_or : {A : Type 0} → A → M A → M A
valid_or v rest = if_valid rest (absent v)

-- `file = file.substr(n)`
unfoldable pub skip : ℕ → M (Unit {0})
skip n p = some (tt, record p { file = drop n p.file })

-- `file = s + file`
unfoldable pub put_back : Bytes → M (Unit {0})
put_back s p = some (tt, record p { file = s ++ p.file })

-- Fuel for a loop each of whose rounds takes at least one byte of the file.
abbrev pub fuelled : {A : Type 0} → (ℕ → M A) → M A
fuelled loop p = loop (suc (length p.file)) p
