-- ===== src/Text.antt =====
-- The functions of Go's `strings`, `strconv` and `net` that the operator uses, on texts. Case
-- folding is that of ASCII; `trim_space` knows every Unicode space of `unicode.IsSpace`.
pub mod Nonempty
pub mod Trim
use Prim.Native.Char.{Char, code}
pub use Prim.Native.String.{◌++◌ as ◌<>◌}
use fabric_ops.Prelude.{
  ℕ, zero, suc, ◌+◌, ◌-◌, ◌*◌, ◌^◌, ◌/◌, ◌%◌, String, Bool, false, ◌&&◌, ◌||◌, Option, none, some,
  ◌≡◌, refl, ◌==◌, ltb, leb, nat_eq, if◌then◌else◌, List, [], ◌∷◌,
}

-- `unicode.IsSpace`.
is_space : Char → Bool
is_space c =
    let n = code c in
    (leb 9 n && leb n 13)
    || nat_eq n 32
    || nat_eq n 0x85
    || nat_eq n 0xa0
    || nat_eq n 0x1680
    || (leb 0x2000 n && leb n 0x200a)
    || nat_eq n 0x2028
    || nat_eq n 0x2029
    || nat_eq n 0x202f
    || nat_eq n 0x205f
    || nat_eq n 0x3000

trim_left : String → String
unfolding is_space
trim_left String.[] = String.[]
trim_left (String.◌∷◌ c s) = let rest = trim_left s in if is_space c then rest else String.◌∷◌ c s

trim_right : String → String
unfolding is_space
trim_right String.[] = String.[]
trim_right (String.◌∷◌ c s) =
    let rest = trim_right s in if is_space c && rest == "" then String.[] else String.◌∷◌ c rest

-- `strings.TrimSpace`.
unfoldable pub trim_space : String → String
unfolding trim_left trim_right
trim_space s = trim_right (trim_left s)

-- The character at the place in `to` that `c` has in `from`, or `c`.
translate : String → String → Char → Char
translate (String.◌∷◌ a from) (String.◌∷◌ b to) c =
    if nat_eq (code a) (code c) then b else translate from to c
translate _ _ c = c

lower_char : Char → Char
unfolding translate
lower_char = translate "ABCDEFGHIJKLMNOPQRSTUVWXYZ" "abcdefghijklmnopqrstuvwxyz"

-- `strings.ToLower`.
unfoldable pub to_lower : String → String
unfolding lower_char
to_lower String.[] = String.[]
to_lower (String.◌∷◌ c s) = String.◌∷◌ (lower_char c) (to_lower s)

-- `strings.TrimSuffix`.
unfoldable pub trim_suffix : String → String → String
trim_suffix String.[] suffix = String.[]
trim_suffix (String.◌∷◌ c s) suffix =
    let rest = trim_suffix s suffix in
    if String.◌∷◌ c s == suffix then String.[] else String.◌∷◌ c rest

-- `strings.ContainsRune`.
unfoldable pub contains_char : Char → String → Bool
contains_char c String.[] = false
contains_char c (String.◌∷◌ d s) = nat_eq (code c) (code d) || contains_char c s

-- The character at a place, as a text.
char_text : ℕ → String → String
char_text place String.[] = ""
char_text zero (String.◌∷◌ c s) = String.◌∷◌ c ""
char_text (suc place) (String.◌∷◌ c s) = char_text place s

digit : ℕ → String
unfolding char_text
digit n = char_text n "0123456789"

-- The digits of `n` before `rest`, in `fuel` steps at most.
digits_before : ℕ → ℕ → String → String
unfolding digit
digits_before zero n rest = rest
digits_before (suc fuel) n rest =
    let text = digit (n % 10) <> rest in
    let more = digits_before fuel (n / 10) text in if ltb n 10 then text else more

-- `strconv.Itoa` of a number that is not negative; `n + 1` rounds are enough.
unfoldable pub itoa : ℕ → String
unfolding digits_before
itoa n = digits_before (suc n) n ""

-- `net.JoinHostPort`.
unfoldable pub join_host_port : String → String → String
unfolding contains_char
join_host_port host port =
    if contains_char ":" host || contains_char "%" host
    then "[" <> host <> "]:" <> port
    else host <> ":" <> port

text_functions :
    (trim_space "  Org A\t" ≡ "Org A")
    × (to_lower "Orderer0.Example.COM" ≡ "orderer0.example.com")
    × (trim_suffix "a.b." "." ≡ "a.b")
    × (itoa 7050 ≡ "7050")
    × (join_host_port "::1" (itoa 65535) ≡ "[::1]:65535")
unfolding trim_space to_lower trim_suffix itoa join_host_port
text_functions = (refl, refl, refl, refl, refl)

-- The value of a decimal digit.
digit_value : Char → Option ℕ
digit_value c = if leb b'0' (code c) && leb (code c) b'9' then some (code c - 48) else none

digits_value : ℕ → String → Option ℕ
unfolding digit_value
digits_value n String.[] = some n
digits_value n (String.◌∷◌ c s) = elim (digit_value c) [
  | none ↦ none
  | some d ↦ digits_value (n * 10 + d) s
]

-- `strconv.ParseUint(s, 10, 64)`, with `none` for an error.
unfoldable pub parse_uint64 : String → Option ℕ
unfolding digits_value
parse_uint64 s =
    if s == ""
    then none
    else elim (digits_value 0 s) [ none ↦ none | some n ↦ if ltb n (2 ^ 64) then some n else none ]

-- `strings.Join(parts, separator)`.
unfoldable pub join : String → List String → String
join separator [] = ""
join separator (s ∷ []) = s
join separator (s ∷ t ∷ rest) = s <> separator <> join separator (t ∷ rest)
