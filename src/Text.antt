-- ===== src/Text.antt =====
-- std::string as the program uses it: a list of bytes, with the member functions that the sources
-- call. A `size_t` subtraction wraps at 2 ^ 64, and `substr` throws past the end of the text.
pub mod Laws
pub mod Split
pub mod Maps
use Prim.Native.Char.{Char, code}
use Prim.Native.String
use distributed_ascii_server.Prelude.{
  ℕ, zero, suc, ◌+◌, ◌-◌, ◌/◌, ◌%◌, ◌^◌, String, Bool, true, false, ◌&&◌, Option, none, some, List,
  [], ◌∷◌, ◌++◌, ltb, ◌==◌, if◌then◌else◌, length, take, drop,
}

abbrev pub Bytes : Type 0
Bytes = List ℕ

-- The UTF-8 bytes of one character of a literal; the sources use none above U+07FF.
abbrev pub utf8 : ℕ → Bytes
utf8 c = if ltb c 128 then c ∷ [] else (192 + c / 64) ∷ (128 + c % 64) ∷ []

-- The bytes of a string literal.
abbrev pub bytes : String → Bytes
bytes String.[] = []
bytes (String.◌∷◌ c s) = utf8 (code c) ++ bytes s

-- The result of code that can throw std::out_of_range, or (fault) follow a null pointer or run over
-- the end of a buffer, and of a loop that is given fuel.
pub data Run {ℓ} (A : Type ℓ) : Type ℓ where
  done : A → Run A
  out_of_range : Run A
  fault : Run A
  no_fuel : Run A

infixl 5 ◌>>=◌
abbrev pub ◌>>=◌ {ℓ κ} : {A : Type ℓ} {B : Type κ} → Run A → (A → Run B) → Run B
done a >>= f = f a
out_of_range >>= f = out_of_range
fault >>= f = fault
no_fuel >>= f = no_fuel

-- std::string::npos
abbrev pub npos : ℕ
npos = 18446744073709551615

-- a - b in size_t
abbrev pub sub_size : ℕ → ℕ → ℕ
sub_size a b = (a + 18446744073709551616 - b) % 18446744073709551616

unfoldable pub eq_bytes : Bytes → Bytes → Bool
eq_bytes [] [] = true
eq_bytes (a ∷ s) (b ∷ t) = (a == b) && eq_bytes s t
eq_bytes _ _ = false

-- s.compare(0, p.size(), p) == 0
unfoldable pub starts_with : Bytes → Bytes → Bool
starts_with [] s = true
starts_with (a ∷ p) [] = false
starts_with (a ∷ p) (b ∷ s) = (a == b) && starts_with p s

abbrev pub shift : ℕ → Option ℕ → Option ℕ
shift k none = none
shift k (some i) = some (k + i)

-- s.find(p), `none` for npos
unfoldable pub find : Bytes → Bytes → Option ℕ
unfolding starts_with
find p [] = if starts_with p [] then some 0 else none
find p (c ∷ s) = if starts_with p (c ∷ s) then some 0 else shift 1 (find p s)

-- s.find(p, start)
unfoldable pub find_from : Bytes → Bytes → ℕ → Option ℕ
unfolding find
find_from p s start = if ltb (length s) start then none else shift start (find p (drop start s))

-- s.rfind(p)
unfoldable pub rfind : Bytes → Bytes → Option ℕ
unfolding starts_with
rfind p [] = if starts_with p [] then some 0 else none
rfind p (c ∷ s) = elim (rfind p s) [
  | some i ↦ some (suc i)
  | none ↦ if starts_with p (c ∷ s) then some 0 else none
]

-- s.find(p) != npos
unfoldable pub contains : Bytes → Bytes → Bool
unfolding find
contains p s = elim (find p s) [ none ↦ false | some _ ↦ true ]

-- s.substr(pos, n)
unfoldable pub substr : Bytes → ℕ → ℕ → Run Bytes
substr s pos n = if ltb (length s) pos then out_of_range else done (take n (drop pos s))

-- The text that a `const char *` stands for: up to the first NUL.
unfoldable pub c_str : Bytes → Bytes
c_str [] = []
c_str (c ∷ s) = if c == 0 then [] else c ∷ c_str s

abbrev pub slash : Bytes
slash = b'/' ∷ []
