-- ===== src/BooleanIndexer/Parser.antt =====
-- components/boolean_indexer/parser/{parser.h,number_parser.h,number_parser.cc} and the ToInt64 of
-- base/utils/string/str_utils.cc: from the values of an expression to the identifiers that are
-- indexed. An int64_t is kept as its 64-bit pattern. The reason of a failure, which is only logged,
-- is left out. std::hash is a parameter, `hasher`.
use ltio.Common.{
  ℕ, ◌+◌, ◌-◌, ◌*◌, ◌%◌, ◌^◌, Bool, true, false, ◌&&◌, ◌||◌, List, [], ◌∷◌, ◌++◌, Option, none,
  some, ltb, leb, ◌==◌, if◌then◌else◌,
}
use ltio.Common.Text.{Str}
use ltio.BooleanIndexer.Ids.{word64}

-- Token, and TokenI64, the one kind that the parsers make.
pub record Token : Type 0 where
  pub fail : Bool
  pub values : List ℕ

abbrev pub empty_token : Token
empty_token = record { fail = false; values = [] }

unfoldable pub set_fail : Token → Token
set_fail t = record t { fail = true }

unfoldable pub push_value : ℕ → Token → Token
push_value v t = record t { values = t.values ++ v ∷ [] }

is_space : ℕ → Bool
is_space c = c == b' ' || (leb 9 c && leb c 13)

is_digit : ℕ → Bool
is_digit c = leb b'0' c && leb c b'9'

unfoldable pub drop_spaces : Str → Str
unfolding is_space
drop_spaces [] = []
drop_spaces (c ∷ s) = let rest = drop_spaces s in if is_space c then rest else c ∷ s

-- The number that the leading digits make, after `acc`.
unfoldable pub digits_value : ℕ → Str → ℕ
unfolding is_digit
digits_value acc [] = acc
digits_value acc (c ∷ s) =
    let rest = digits_value (acc * 10 + (c - b'0')) s in if is_digit c then rest else acc

-- The pattern of a number with a sign, if int64_t holds it; else std::out_of_range.
unfoldable pub int64_of : Bool → ℕ → Option ℕ
int64_of negative n =
    if negative
    then (if leb n (2 ^ 63) then some ((word64 - n) % word64) else none)
    else if ltb n (2 ^ 63)
    then some n
    else none

-- Digits that must be there; else std::invalid_argument.
unfoldable pub read_digits : Bool → Str → Option ℕ
unfolding is_digit digits_value int64_of
read_digits negative [] = none
read_digits negative (c ∷ s) =
    if is_digit c then int64_of negative (digits_value 0 (c ∷ s)) else none

-- StrUtil::ToInt64, which is std::stoll: spaces, a sign, digits, and the rest is not looked at. Both
-- exceptions make it return false.
unfoldable pub read_signed : Str → Option ℕ
unfolding read_digits
read_signed [] = none
read_signed (c ∷ s) =
    if c == b'-'
    then read_digits true s
    else if c == b'+'
    then read_digits false s
    else read_digits false (c ∷ s)

unfoldable pub to_int64 : Str → Option ℕ
unfolding drop_spaces read_signed
to_int64 s = read_signed (drop_spaces s)

-- NumberParser::ParseQueryAssign: the loop stops at the first value that is no number.
unfoldable pub parse_numbers : List Str → Token → Token
unfolding push_value set_fail to_int64
parse_numbers [] t = t
parse_numbers ([] ∷ vs) t = parse_numbers vs t
parse_numbers ((c ∷ v) ∷ vs) t = elim (to_int64 (c ∷ v)) [
  | none ↦ set_fail t
  | some value ↦ parse_numbers vs (push_value value t)
]

-- HasherParser::ParseQueryAssign.
unfoldable pub parse_hashes : (Str → ℕ) → List Str → Token → Token
unfolding push_value
parse_hashes hasher [] t = t
parse_hashes hasher ([] ∷ vs) t = parse_hashes hasher vs t
parse_hashes hasher ((c ∷ v) ∷ vs) t = parse_hashes hasher vs (push_value (hasher (c ∷ v)) t)

-- The two classes below ExprParser.
pub data ExprParser : Type 0 where
  number_parser hasher_parser : ExprParser

unfoldable pub parse_query_assign : (Str → ℕ) → ExprParser → List Str → Token
unfolding parse_numbers parse_hashes
parse_query_assign hasher number_parser vs = parse_numbers vs empty_token
parse_query_assign hasher hasher_parser vs = parse_hashes hasher vs empty_token

-- Both classes index as they query.
unfoldable pub parse_indexing : (Str → ℕ) → ExprParser → List Str → Token
unfolding parse_query_assign
parse_indexing hasher p vs = parse_query_assign hasher p vs
