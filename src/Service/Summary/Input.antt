-- ===== src/Service/Summary/Input.antt =====
-- trace_summary.go: what the input of a call says. Inputs are texts of ASCII characters.
use flashloan_scanner.Base.{
  ℕ, ◌+◌, ◌*◌, String, not, ◌||◌, Option, none, some, str_eq, ltb, ◌==◌, if◌then◌else◌, text_append,
}
use flashloan_scanner.Base.Text.{to_lower, text_length, take_text, drop_text, has_prefix}
use flashloan_scanner.Base.Decimal.{decimal, parse_hex}

unfoldable pub trace_method_selector : String → String
unfolding to_lower text_length take_text has_prefix
trace_method_selector input =
    if ltb (text_length input) 10 || not (has_prefix input "0x")
    then ""
    else to_lower (take_text 10 input)

-- The callers pass inputs with a selector, which have ten characters at least.
unfoldable pub trace_input_slot : String → ℕ → String
unfolding text_length take_text drop_text has_prefix
trace_input_slot input arg_index =
    let payload = drop_text 10 input in
    let start = arg_index * 64 in
    if not (has_prefix input "0x")
    then ""
    else if ltb (text_length payload) (start + 64)
    then ""
    else take_text 64 (drop_text start payload)

-- The String method of big.Int after SetString with base 16, which takes a sign.
unfoldable pub hex_to_decimal : String → Option String
unfolding parse_hex decimal
hex_to_decimal String.[] = none
hex_to_decimal (String.◌∷◌ c s) =
    if str_eq (String.◌∷◌ c String.[]) "+"
    then elim (parse_hex s) [ none ↦ none | some n ↦ some (decimal n) ]
    else if str_eq (String.◌∷◌ c String.[]) "-"
    then elim (parse_hex s) [
      | none ↦ none
      | some n ↦ some (if n == 0 then "0" else text_append "-" (decimal n))
    ]
    else elim (parse_hex (String.◌∷◌ c s)) [ none ↦ none | some n ↦ some (decimal n) ]

unfoldable pub decode_trace_input_uint : String → ℕ → String
unfolding trace_input_slot hex_to_decimal
decode_trace_input_uint input arg_index =
    let slot = trace_input_slot input arg_index in
    if str_eq slot "" then "" else elim (hex_to_decimal slot) [ none ↦ "" | some value ↦ value ]

pub record TokenAction : Type 0 where
  pub action : String
  pub amount : String
  pub source : String
  pub target : String

abbrev pub no_action : TokenAction
no_action = record { action = ""; amount = ""; source = ""; target = "" }

-- `checksum` is the text of an address, by HexToAddress and Hex of go-ethereum.
module _ (checksum : String → String) where
  unfoldable pub decode_trace_input_address : String → ℕ → String
  unfolding trace_input_slot take_text drop_text
  decode_trace_input_address input arg_index =
      let slot = trace_input_slot input arg_index in
      if str_eq slot "" then "" else checksum (text_append "0x" (take_text 40 (drop_text 24 slot)))

  unfoldable pub decode_token_action : String → String → String → TokenAction
  unfolding decode_trace_input_address decode_trace_input_uint
  decode_token_action caller selector input =
      if str_eq selector "0xa9059cbb"
      then (let to = decode_trace_input_address input 0 in
          let value = decode_trace_input_uint input 1 in
          if str_eq to "" || str_eq value ""
          then no_action
          else record { action = "transfer"; amount = value; source = caller; target = to })
      else if str_eq selector "0x23b872dd"
      then (let from = decode_trace_input_address input 0 in
          let to = decode_trace_input_address input 1 in
          let value = decode_trace_input_uint input 2 in
          if str_eq from "" || str_eq to "" || str_eq value ""
          then no_action
          else record { action = "transferFrom"; amount = value; source = from; target = to })
      else if str_eq selector "0x095ea7b3"
      then (let spender = decode_trace_input_address input 0 in
          let value = decode_trace_input_uint input 1 in
          if str_eq spender "" || str_eq value ""
          then no_action
          else record { action = "approve"; amount = value; source = caller; target = spender })
      else no_action
