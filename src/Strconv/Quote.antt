-- ===== src/Strconv/Quote.antt =====
-- `strconv.Quote` on ASCII, and the text of the error of `ParseUint`.
use evm_rpc.Prelude.{ℕ, ◌/◌, ◌%◌, Text, text, [], ◌∷◌, ◌++◌, ◌||◌, ltb, ◌==◌, if◌then◌else◌}
use evm_rpc.Strconv.Digits.{digit_char}
use evm_rpc.Strconv.Parse.{ParseError, syntax, range}

unfoldable pub escape : ℕ → Text
escape c =
    if c == 34 || c == 92
    then 92 ∷ c ∷ []
    else if c == 7
    then 92 ∷ b'a' ∷ []
    else if c == 8
    then 92 ∷ b'b' ∷ []
    else if c == 9
    then 92 ∷ b't' ∷ []
    else if c == 10
    then 92 ∷ b'n' ∷ []
    else if c == 11
    then 92 ∷ b'v' ∷ []
    else if c == 12
    then 92 ∷ b'f' ∷ []
    else if c == 13
    then 92 ∷ b'r' ∷ []
    else if ltb c 32 || c == 127
    then 92 ∷ b'x' ∷ digit_char (c / 16) ∷ digit_char (c % 16) ∷ []
    else c ∷ []

unfoldable pub quote_inside : Text → Text
unfolding escape digit_char
quote_inside [] = []
quote_inside (c ∷ s) = escape c ++ quote_inside s

abbrev pub reason : ParseError → Text
reason syntax = text "invalid syntax"
reason range = text "value out of range"

-- `(*NumError).Error()` of `ParseUint`.
unfoldable pub num_error_text : Text → ParseError → Text
unfolding quote_inside
num_error_text s e =
    text "strconv.ParseUint: parsing " ++ (34 ∷ (quote_inside s ++ (34 ∷ (text ": " ++ reason e))))
