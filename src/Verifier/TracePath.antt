-- ===== src/Verifier/TracePath.antt =====
-- The searches of aave_v3_trace.go through the call tree, which the three trace verifiers share.
pub mod Evidence
use Prim.Native.String.{len, slice}
use text.Mathlib.Text.{starts_with}
use flashloan_scanner.Base.{
  ℕ, String, Bool, true, false, not, ◌&&◌, ◌||◌, Option, none, some, List, [], ◌∷◌, str_eq, ltb,
  if◌then◌else◌, any, ◌≡◌, refl,
}
use flashloan_scanner.Base.Text.{to_lower}
use flashloan_scanner.Types.{InteractionLeg}
use flashloan_scanner.Trace.Frames.{
  CallFrame, frame, Calls, nil, cons, from_of, to_of, input_of, error_of, descendants,
  descendants_in,
}

abbrev pub erc20_approve_selector : String
erc20_approve_selector = "0x095ea7b3"

abbrev pub erc20_transfer_selector : String
erc20_transfer_selector = "0xa9059cbb"

abbrev pub erc20_transfer_from_selector : String
erc20_transfer_from_selector = "0x23b872dd"

-- `input[:10]` is in bounds where it is taken.
unfoldable pub method_selector : String → String
method_selector input =
    if ltb (len input) 10 || not (starts_with input "0x") then "" else to_lower (slice input 0 10)

-- The test of a child: a successful call from the one address to the other.
unfoldable pub is_direct_call : String → String → CallFrame → Bool
is_direct_call from_address to_address child =
    str_eq (to_lower (from_of child)) from_address
    && str_eq (to_lower (to_of child)) to_address
    && str_eq (error_of child) ""

unfoldable mutual
  pub has_successful_direct_call : CallFrame → String → String → Bool
  has_successful_direct_call (frame _ _ _ _ _ _ _ calls) from_address to_address =
      has_direct_call_in calls from_address to_address

  pub has_direct_call_in : Calls → String → String → Bool
  has_direct_call_in nil from_address to_address = false
  has_direct_call_in (cons child calls) from_address to_address =
      is_direct_call from_address to_address child
      || has_successful_direct_call child from_address to_address
      || has_direct_call_in calls from_address to_address

-- `_, ok := assets[key]`
unfoldable pub has_key : String → List String → Bool
has_key key [] = false
has_key key (asset ∷ assets) = str_eq asset key || has_key key assets

-- The test of a frame by `hasRepaymentCall`: it succeeded, it touches an asset's contract, and it is
-- an ERC-20 approval or transfer or has the provider at its other end.
unfoldable pub is_repayment : String → List String → CallFrame → Bool
unfolding has_key method_selector
is_repayment provider_address assets f =
    let from = to_lower (from_of f) in
    let to = to_lower (to_of f) in
    let selector = method_selector (input_of f) in
    let touches_asset = has_key from assets || has_key to assets in
    str_eq (error_of f) ""
    && (touches_asset
          && (str_eq selector erc20_approve_selector
              || str_eq selector erc20_transfer_selector
              || str_eq selector erc20_transfer_from_selector)
        || (str_eq from provider_address || str_eq to provider_address) && touches_asset)

unfoldable mutual
  pub has_repayment_call : CallFrame → String → List String → Bool
  has_repayment_call (frame type from to input output error revert_reason calls) provider assets =
      is_repayment provider assets (frame type from to input output error revert_reason calls)
      || has_repayment_call_in calls provider assets

  pub has_repayment_call_in : Calls → String → List String → Bool
  has_repayment_call_in nil provider assets = false
  has_repayment_call_in (cons child calls) provider assets =
      has_repayment_call child provider assets || has_repayment_call_in calls provider assets

-- The lower-case addresses of the legs' assets: the keys of the map `assets`.
unfoldable pub leg_assets : List InteractionLeg → List String
leg_assets [] = []
leg_assets (leg ∷ legs) =
    if str_eq leg.asset_address ""
    then leg_assets legs
    else to_lower leg.asset_address ∷ leg_assets legs

-- `hasAaveRepaymentPath`, `hasBalancerRepaymentPath` and `hasUniswapInvariantPath`, which are one
-- function under three names.
unfoldable pub has_repayment_path : CallFrame → String → List InteractionLeg → Bool
unfolding leg_assets has_repayment_call
has_repayment_path root provider_address legs = elim (leg_assets legs) [
  | [] ↦ false
  | asset ∷ assets ↦ has_repayment_call root (to_lower provider_address) (asset ∷ assets)
]
