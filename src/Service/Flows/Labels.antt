-- ===== src/Service/Flows/Labels.antt =====
-- fund_flow_graph.go: addresses and the labels of assets, nodes and actions.
use flashloan_scanner.Base.{
  ◌-◌, String, Bool, false, not, ◌&&◌, ◌||◌, none, some, List, [], ◌∷◌, str_eq, leb, if◌then◌else◌,
  text_append,
}
use flashloan_scanner.Base.Dict.{Dict, lookup, string_eq}
use flashloan_scanner.Base.Text.{to_lower, contains, trim_space, text_length, take_text, drop_text}
use flashloan_scanner.Service.Details.{InteractionDetailResult}
use flashloan_scanner.Service.Flows.Amounts.{normalize_amount}

unfoldable pub normalize_address : String → String
unfolding to_lower trim_space
normalize_address value = to_lower (trim_space value)

unfoldable pub same_address : String → String → Bool
unfolding normalize_address
same_address left right =
    let l = normalize_address left in
    let r = normalize_address right in if str_eq l "" || str_eq r "" then false else str_eq l r

unfoldable pub is_zero_address : String → Bool
unfolding normalize_address
is_zero_address address =
    str_eq (normalize_address address) "0x0000000000000000000000000000000000000000"

unfoldable pub shorten_hash : String → String
unfolding text_length take_text drop_text
shorten_hash value =
    if leb (text_length value) 18
    then value
    else text_append (take_text 10 value)
        (text_append "..." (drop_text (text_length value - 6) value))

unfoldable pub first_non_empty_string : List String → String
unfolding trim_space
first_non_empty_string [] = ""
first_non_empty_string (value ∷ values) =
    let rest = first_non_empty_string values in if str_eq (trim_space value) "" then rest else value

abbrev pub builtin_asset_labels : Dict String String
builtin_asset_labels =
    ("0x514910771af9ca656af840dff83e8264ecf986ca", "LINK")
    ∷ ("0xc02aa39b223fe8d0a0e5c4f27ead9083c756cc2", "WETH")
    ∷ ("0x5e8c8a7243651db1384c0ddfdbe39761e8e7e51a", "aEthLINK")
    ∷ ("0x4d5f47fa6a74757f35c14fd3a6ef8e3c9bc514e8", "aEthWETH")
    ∷ ("0x7effd7b47bfd17e52fb7559d3f924201b9dbff3d", "varDebtLINK")
    ∷ []

abbrev pub builtin_address_labels : Dict String String
builtin_address_labels =
    ("0x87870bca3f3fd6335c3f4ce8392d69350b4fa4e2", "Aave Pool V3")
    ∷ ("0xadc0a53095a0af87f3aa29fe0715b5c28016364e", "Aave Swap Collateral Adapter V3")
    ∷ ("0x5d4f3c6fa16908609bac31ff148bd002aa6b8c83", "Uniswap V3: LINK 2")
    ∷ ("0x6a000f20005980200259b80c5102003040001068", "ParaSwap Augustus V6.2")
    ∷ ("0x4d5f47fa6a74757f35c14fd3a6ef8e3c9bc514e8", "aEthWETH")
    ∷ ("0x5e8c8a7243651db1384c0ddfdbe39761e8e7e51a", "aEthLINK")
    ∷ []

unfoldable pub resolve_asset_display_label : String → String
unfolding normalize_address shorten_hash lookup
resolve_asset_display_label asset_address =
    if str_eq asset_address ""
    then "N/A"
    else elim (lookup ⦃e = string_eq⦄ (normalize_address asset_address) builtin_asset_labels) [
      | none ↦ shorten_hash asset_address
      | some known ↦ known
    ]

unfoldable pub is_debt_like_asset : String → Bool
unfolding resolve_asset_display_label to_lower contains
is_debt_like_asset asset_address =
    let label = to_lower (resolve_asset_display_label asset_address) in
    contains label "debt" || contains label "vardebt"

unfoldable pub protocol_provider_label : String → String
protocol_provider_label protocol =
    if str_eq protocol "aave_v3"
    then "Aave Pool"
    else if str_eq protocol "balancer_v2"
    then "Balancer Vault"
    else if str_eq protocol "uniswap_v2"
    then "Uniswap V2 Pair"
    else "Provider / Pool"

unfoldable pub protocol_pair_label : String → String
protocol_pair_label protocol =
    if str_eq protocol "uniswap_v2" then "Uniswap V2 Pair" else "Pair / Pool"

-- The title of a node that is neither the sender nor known.
unfoldable pub role_title : String → String → InteractionDetailResult → String
unfolding same_address protocol_provider_label protocol_pair_label shorten_hash
role_title address role interaction =
    let at_pair = same_address address interaction.pair_address in
    if str_eq role "borrow_source"
    then protocol_provider_label interaction.protocol
    else if str_eq role "receiver"
    then "Receiver / Callback"
    else if str_eq role "repayment_target"
    then (if same_address address interaction.provider_address || at_pair
        then protocol_provider_label interaction.protocol
        else "Repayment Target")
    else if str_eq role "topup_source"
    then "Top-up Source"
    else if at_pair
    then protocol_pair_label interaction.protocol
    else if same_address address interaction.factory_address
    then "Factory"
    else shorten_hash address

-- `sender` is the FromAddress of the response.
unfoldable pub resolve_fund_flow_node_title :
    String → String → InteractionDetailResult → String → String
unfolding same_address normalize_address role_title lookup
resolve_fund_flow_node_title address role interaction sender =
    if same_address address sender
    then "Sender"
    else elim (lookup ⦃e = string_eq⦄ (normalize_address address) builtin_address_labels) [
      | none ↦ role_title address role interaction
      | some known ↦ known
    ]

unfoldable pub humanize_fund_flow_action : String → String
unfolding to_lower trim_space contains
humanize_fund_flow_action action =
    let normalized = to_lower (trim_space action) in
    if contains normalized "swap"
    then "Swap"
    else if contains normalized "repay" || contains normalized "return"
    then "Repay"
    else if contains normalized "borrow" || contains normalized "flash"
    then "Borrow"
    else if contains normalized "transferfrom"
    then "transferFrom"
    else if contains normalized "transfer"
    then "transfer"
    else if str_eq action ""
    then "Transfer"
    else action

unfoldable pub is_meaningful_fund_flow : String → String → Bool
unfolding normalize_amount to_lower contains
is_meaningful_fund_flow action amount =
    let normalized = to_lower action in
    not (str_eq (normalize_amount amount) "0")
    && (contains normalized "transfer"
        || contains normalized "withdraw"
        || contains normalized "deposit"
        || contains normalized "swap")
