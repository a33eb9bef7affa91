-- ===== src/Verifier/TracePath/Evidence.antt =====
-- The searches through the call tree find a frame just when there is one.
use flashloan_scanner.Base.{
  String, true, false, ◌⊎◌, ◌↔◌, List, [], ◌∷◌, any, Any, any-append, any_iff, ◌≡◌, refl, arith,
  ◌≢◌, eq_iff, eq→str_eq, sym,
}
use flashloan_scanner.Base.Text.{to_lower}
use flashloan_scanner.Types.{InteractionLeg}
use flashloan_scanner.Trace.Frames.{
  CallFrame, frame, Calls, nil, cons, from_of, to_of, input_of, error_of, descendants,
  descendants_in,
}
use flashloan_scanner.Verifier.TracePath.{
  method_selector, is_direct_call, has_successful_direct_call, has_direct_call_in, has_key,
  is_repayment, has_repayment_call, has_repayment_call_in, leg_assets, has_repayment_path,
  erc20_approve_selector, erc20_transfer_selector, erc20_transfer_from_selector,
}

module _ (from to : String) where
  mutual
    unfolding has_successful_direct_call has_direct_call_in descendants descendants_in

    direct_any :
        (f : CallFrame)
        → has_successful_direct_call f from to ≡ any (is_direct_call from to) (descendants f)
    direct_any (frame _ _ _ _ _ _ _ calls) = direct_any_in calls

    direct_any_in :
        (cs : Calls)
        → has_direct_call_in cs from to ≡ any (is_direct_call from to) (descendants_in cs)
    direct_any_in nil = refl
    direct_any_in (cons child calls) = ground (
      arith,
      direct_any child,
      direct_any_in calls,
      any-append (is_direct_call from to) (descendants child) (descendants_in calls),
    )

module _ (provider : String) (assets : List String) where
  mutual
    unfolding has_repayment_call has_repayment_call_in descendants descendants_in

    repayment_any :
        (f : CallFrame)
        → has_repayment_call f provider assets
          ≡ any (is_repayment provider assets) (f ∷ descendants f)
    repayment_any (frame type from to input output error revert_reason calls) =
        cc (repayment_any_in calls)

    repayment_any_in :
        (cs : Calls)
        → has_repayment_call_in cs provider assets
          ≡ any (is_repayment provider assets) (descendants_in cs)
    repayment_any_in nil = refl
    repayment_any_in (cons child calls) = ground (
      arith,
      repayment_any child,
      repayment_any_in calls,
      any-append (is_repayment provider assets) (descendants child) (descendants_in calls),
    )

-- A successful call from the one address to the other, given in lower case.
pub record IsDirectCall (from to : String) (f : CallFrame) : Type 0 where
  pub its_from : to_lower (from_of f) ≡ from
  pub its_to : to_lower (to_of f) ≡ to
  pub succeeded : error_of f ≡ ""

is_direct_call_iff :
    (from to : String) (f : CallFrame) → (is_direct_call from to f ≡ true) ↔ IsDirectCall from to f
unfolding is_direct_call
is_direct_call_iff from to f = (
  λ h. ground (
    arith,
    eq_iff (to_lower (from_of f)) from,
    eq_iff (to_lower (to_of f)) to,
    eq_iff (error_of f) "",
  ),
  λ m. rw (eq→str_eq _ _ m.its_from, eq→str_eq _ _ m.its_to, eq→str_eq _ _ m.succeeded),
)

pub has_successful_direct_call_iff :
    (root : CallFrame) (from to : String)
    → (has_successful_direct_call root from to ≡ true)
      ↔ Any (IsDirectCall from to) (descendants root)
has_successful_direct_call_iff root from to = rw (direct_any from to root) (
    any_iff (is_direct_call from to) (IsDirectCall from to) (is_direct_call_iff from to)
      (descendants root))

-- An address of the frame, in lower case, is that of a leg's asset.
abbrev pub Touches : List InteractionLeg → String → Type 0
Touches legs address =
    Any (λ leg. (leg.asset_address ≢ "") × (to_lower leg.asset_address ≡ address)) legs

-- A successful frame between an asset's contract and somebody, which moves or approves tokens or has
-- the provider at an end.
pub record IsRepayment (provider : String) (legs : List InteractionLeg) (f : CallFrame)
    : Type 0 where
  pub succeeded : error_of f ≡ ""
  pub touches : Touches legs (to_lower (from_of f)) ⊎ Touches legs (to_lower (to_of f))
  pub purpose :
      (method_selector (input_of f) ≡ erc20_approve_selector)
      ⊎ (method_selector (input_of f) ≡ erc20_transfer_selector)
      ⊎ (method_selector (input_of f) ≡ erc20_transfer_from_selector)
      ⊎ (to_lower (from_of f) ≡ provider)
      ⊎ (to_lower (to_of f) ≡ provider)

has_key→Touches :
    (address : String) (legs : List InteractionLeg)
    → has_key address (leg_assets legs) ≡ true
    → Touches legs address
unfolding has_key leg_assets
has_key→Touches address [] h = cc
has_key→Touches address (leg ∷ legs) h = ground (
  arith,
  has_key→Touches address legs,
  eq_iff leg.asset_address "",
  eq_iff (to_lower leg.asset_address) address,
)

Touches→has_key :
    (address : String) (legs : List InteractionLeg)
    → Touches legs address
    → has_key address (leg_assets legs) ≡ true
unfolding has_key leg_assets
Touches→has_key address [] h = absurd h
Touches→has_key address (leg ∷ legs) h = ground (
  arith,
  Touches→has_key address legs,
  eq_iff leg.asset_address "",
  eq_iff (to_lower leg.asset_address) address,
)

module _ (provider : String) (legs : List InteractionLeg) (f : CallFrame) where
  is_repayment→IsRepayment :
      is_repayment provider (leg_assets legs) f ≡ true → IsRepayment provider legs f
  unfolding is_repayment
  is_repayment→IsRepayment h = record {
    succeeded = ground (arith, eq_iff (error_of f) "");
    touches = ground (
      arith,
      has_key→Touches (to_lower (from_of f)) legs,
      has_key→Touches (to_lower (to_of f)) legs,
    );
    purpose = ground (
      arith,
      eq_iff (method_selector (input_of f)) erc20_approve_selector,
      eq_iff (method_selector (input_of f)) erc20_transfer_selector,
      eq_iff (method_selector (input_of f)) erc20_transfer_from_selector,
      eq_iff (to_lower (from_of f)) provider,
      eq_iff (to_lower (to_of f)) provider,
    );
  }

  IsRepayment→is_repayment :
      IsRepayment provider legs f → is_repayment provider (leg_assets legs) f ≡ true
  unfolding is_repayment
  IsRepayment→is_repayment m = ground (
    arith,
    m,
    eq_iff (error_of f) "",
    Touches→has_key (to_lower (from_of f)) legs,
    Touches→has_key (to_lower (to_of f)) legs,
    eq_iff (method_selector (input_of f)) erc20_approve_selector,
    eq_iff (method_selector (input_of f)) erc20_transfer_selector,
    eq_iff (method_selector (input_of f)) erc20_transfer_from_selector,
    eq_iff (to_lower (from_of f)) provider,
    eq_iff (to_lower (to_of f)) provider,
  )

-- Where no leg names an asset, no frame touches one.
no_assets : (provider : String) (f : CallFrame) → is_repayment provider [] f ≡ false
unfolding is_repayment has_key
no_assets provider f = ground arith

no_assets_below :
    (provider : String) (fs : List CallFrame) → any (is_repayment provider []) fs ≡ false
no_assets_below provider [] = refl
no_assets_below provider (f ∷ fs) =
    ground (arith, no_assets provider f, no_assets_below provider fs)

has_repayment_path-any :
    (root : CallFrame) (provider : String) (legs : List InteractionLeg)
    → has_repayment_path root provider legs
      ≡ any (is_repayment (to_lower provider) (leg_assets legs)) (root ∷ descendants root)
unfolding has_repayment_path
has_repayment_path-any root provider legs = by_assets (leg_assets legs)
  where
    by_assets :
        (assets : List String)
        → elim assets [
          | [] ↦ false
          | asset ∷ rest ↦ has_repayment_call root (to_lower provider) (asset ∷ rest)
        ]
          ≡ any (is_repayment (to_lower provider) assets) (root ∷ descendants root)
    by_assets [] = sym (no_assets_below (to_lower provider) (root ∷ descendants root))
    by_assets (asset ∷ rest) = repayment_any (to_lower provider) (asset ∷ rest) root

pub has_repayment_path_iff :
    (root : CallFrame) (provider : String) (legs : List InteractionLeg)
    → (has_repayment_path root provider legs ≡ true)
      ↔ Any (IsRepayment (to_lower provider) legs) (root ∷ descendants root)
has_repayment_path_iff root provider legs = rw (has_repayment_path-any root provider legs) (
    any_iff (is_repayment (to_lower provider) (leg_assets legs))
      (IsRepayment (to_lower provider) legs)
      (λ f. (is_repayment→IsRepayment _ legs f, IsRepayment→is_repayment _ legs f))
      (root ∷ descendants root))

-- The search for a callback finds one just when a frame below the root is a successful call between
-- the two addresses, and the search for a repayment path finds one just when the root or a frame
-- below it is a repayment.
pub trace_searches_iff :
    (root : CallFrame) (from to provider : String) (legs : List InteractionLeg)
    → ((has_successful_direct_call root from to ≡ true)
        ↔ Any (IsDirectCall from to) (descendants root))
      × ((has_repayment_path root provider legs ≡ true)
          ↔ Any (IsRepayment (to_lower provider) legs) (root ∷ descendants root))
trace_searches_iff root from to provider legs =
    (has_successful_direct_call_iff root from to, has_repayment_path_iff root provider legs)
