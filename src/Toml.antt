-- ===== src/Toml.antt =====
-- What the program uses of toml++, which is not its own code: a parameter of the functions that read
-- TOML.
use wsldisk.Base.{ℕ, Bytes, Bool, Option, List}

-- toml::parse_error: the line, the column and the description.
pub record ParseError : Type 0 where
  pub line : ℕ
  pub column : ℕ
  pub description : Bytes

pub data Parsed (N : Type 0) : Type 0 where
  parsed : N → Parsed N
  thrown : ParseError → Parsed N

pub record Toml : Type 1 where
  pub Node : Type 0
  pub parse : Bytes → Parsed Node
  -- at_path and operator[]: no node where the key is absent.
  pub at_path : Node → Bytes → Option Node
  pub field : Node → Bytes → Option Node
  pub as_array : Node → Option (List Node)
  pub as_table : Node → Option Node
  pub as_string : Node → Option Bytes
  pub as_boolean : Node → Option Bool
  -- node.value<T>() for the three types read.
  pub string_value : Node → Option Bytes
  pub bool_value : Node → Option Bool
  pub uint32_value : Node → Option ℕ
