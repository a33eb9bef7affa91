-- ===== src/Service/Conclusion/Protocols.antt =====
-- The protocols of an answer are those that the aggregator stored.
use Prim.Native.String.{String}
use text.Mathlib.TextLemmas.{nil-append, cons-append}
use flashloan_scanner.Base.{
  ◌≡◌, ◌≢◌, refl, sym, ap, ◌∙◌, List, [], ◌∷◌, All, str_eq, str_eq→eq, text_append, Bool-cases, inl,
  inr, arith,
}
use flashloan_scanner.Base.Prefix.{Lacks}
use flashloan_scanner.Base.Split.{split_at, split_at-Lacks, split_at-append}
use flashloan_scanner.Base.Text.{Solid, trim_space, trim_space-Solid}
use flashloan_scanner.Types.{TxSummary}
use flashloan_scanner.Rows.{Conversions}
use flashloan_scanner.Aggregator.{join, tx_summary_to_db}
use flashloan_scanner.Service.Conclusion.{trimmed_parts, split_protocols}

-- A text that is not empty, of visible ASCII characters without a comma, as all protocols are.
abbrev pub IsName : String → Type 0
IsName p = (p ≢ "") × Solid p × Lacks "," p

split-join :
    (p : String) (ps : List String)
    → All IsName (p ∷ ps)
    → split_at "," (join "," (p ∷ ps)) ≡ p ∷ ps
unfolding join
split-join p [] h = split_at-Lacks "," p h.0.2
split-join p (q ∷ qs) h =
    rw (cons-append "," "" (join "," (q ∷ qs)), nil-append (join "," (q ∷ qs)))
      (split_at-append "," p (join "," (q ∷ qs)) h.0.2
        ∙ ap (λ rest. p ∷ rest) (split-join q qs h.1))

trimmed_parts-IsName : (ps : List String) → All IsName ps → trimmed_parts ps ≡ ps
unfolding trimmed_parts
trimmed_parts-IsName [] h = refl
trimmed_parts-IsName (p ∷ ps) h = elim (Bool-cases (str_eq p "")) [
  | inl empty ↦ absurd (h.0.0 (str_eq→eq p "" empty))
  | inr other ↦ rw (trim_space-Solid p h.0.1, other, trimmed_parts-IsName ps h.1) refl
]

Solid-append : (s t : String) → Solid s → Solid t → Solid (text_append s t)
Solid-append String.[] t h k = rw (nil-append t) k
Solid-append (String.◌∷◌ c s) t h k = rw (cons-append c s t) (h.0, h.1, Solid-append s t h.2 k)

join-Solid : (ps : List String) → All IsName ps → Solid (join "," ps)
unfolding join
join-Solid [] h = tt
join-Solid (p ∷ []) h = h.0.1
join-Solid (p ∷ q ∷ qs) h =
    Solid-append p _ h.0.1
      (Solid-append "," _ (omega arith, omega arith, tt) (join-Solid (q ∷ qs) h.1))

abbrev first_of : List String → String
first_of [] = ""
first_of (p ∷ ps) = p

split_protocols-join : (ps : List String) → All IsName ps → split_protocols (join "," ps) ≡ ps
unfolding split_protocols trim_space join split_at
split_protocols-join [] h = refl
split_protocols-join (p ∷ ps) h =
    let raw = join "," (p ∷ ps) in
    elim (Bool-cases (str_eq raw "")) [
      | inl empty ↦
          let parts = ap (split_at ",") (sym (str_eq→eq raw "" empty)) ∙ split-join p ps h in
          absurd (h.0.0 (sym (ap first_of parts)))
      | inr other ↦
          rw
            (
              split_protocols,
              trim_space-Solid raw (join-Solid (p ∷ ps) h),
              other,
              split-join p ps h,
            )
            (trimmed_parts-IsName (p ∷ ps) h)
    ]

-- The protocols that splitProtocols reads from the row, that the aggregator stores for a summary,
-- are the summary's, if each of them is a text that is not empty, of visible ASCII characters
-- without a comma.
pub split_protocols-tx_summary_to_db :
    (conv : Conversions) (summary : TxSummary)
    → All IsName summary.protocols
    → split_protocols (tx_summary_to_db conv summary).protocols ≡ summary.protocols
unfolding tx_summary_to_db split_protocols
split_protocols-tx_summary_to_db conv summary h = split_protocols-join summary.protocols h
