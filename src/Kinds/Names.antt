-- ===== src/Kinds/Names.antt =====
-- The names of the baselines are told apart, and no other text is accepted.
use Prim.Native.String.{String}
use byte_select.Prelude.{
  Result, if◌then◌else◌, ◌≡◌, ◌↔◌, refl, sym, ◌∙◌, ap, ok, Bool-cases, inl, inr,
}
use text.Mathlib.Text.{◌==◌}
use text.Mathlib.TextEquality.{eq_iff}
use byte_select.Kinds.{BaselineKind, parse_baseline_kind, baseline_kind_name}
use byte_select.Kinds.BaselineKind.{
  fpc, bdi, hybrid_bdi_fpc, cpack, bpc, zstd, lz4, lz77_lite, huffman,
}

parse_baseline_kind-baseline_kind_name :
    (kind : BaselineKind) → parse_baseline_kind (baseline_kind_name kind) ≡ ok kind
unfolding parse_baseline_kind baseline_kind_name
parse_baseline_kind-baseline_kind_name fpc = refl
parse_baseline_kind-baseline_kind_name bdi = refl
parse_baseline_kind-baseline_kind_name hybrid_bdi_fpc = refl
parse_baseline_kind-baseline_kind_name cpack = refl
parse_baseline_kind-baseline_kind_name bpc = refl
parse_baseline_kind-baseline_kind_name zstd = refl
parse_baseline_kind-baseline_kind_name lz4 = refl
parse_baseline_kind-baseline_kind_name lz77_lite = refl
parse_baseline_kind-baseline_kind_name huffman = refl

-- One test of the chain: the text is the name that it compares with, or the rest decides.
one_test :
    (text name : String) (kind k : BaselineKind) (rest : Result BaselineKind)
    → (if text == name then ok kind else rest) ≡ ok k
    → baseline_kind_name kind ≡ name
    → (rest ≡ ok k → baseline_kind_name k ≡ text)
    → baseline_kind_name k ≡ text
one_test text name kind k rest h named others = elim (Bool-cases (text == name)) [
  | inl same ↦
      let found : kind ≡ k = ok_inj (rw same at h) in
      rw (← found) (named ∙ sym ((eq_iff text name).0 same))
  | inr other ↦ others (rw other at h)
]
  where
    ok_inj : {x y : BaselineKind} → ok x ≡ ok y → x ≡ y
    ok_inj e = cc

baseline_kind_name-parse_baseline_kind :
    (text : String) (k : BaselineKind)
    → parse_baseline_kind text ≡ ok k
    → baseline_kind_name k ≡ text
unfolding parse_baseline_kind baseline_kind_name
baseline_kind_name-parse_baseline_kind text k h = one_test text "fpc" fpc k _ h refl (λ h₁.
    one_test text "bdi" bdi k _ h₁ refl (λ h₂.
      one_test text "hybrid" hybrid_bdi_fpc k _ h₂ refl (λ h₃.
        one_test text "cpack" cpack k _ h₃ refl (λ h₄. one_test text "bpc" bpc k _ h₄ refl (λ h₅.
          one_test text "zstd" zstd k _ h₅ refl (λ h₆. one_test text "lz4" lz4 k _ h₆ refl (λ h₇.
            one_test text "lz77-lite" lz77_lite k _ h₇ refl
              (λ h₈. one_test text "huffman" huffman k _ h₈ refl (λ h₉. absurd cc)))))))))

-- `parse_baseline_kind` answers a kind exactly for the text that `baseline_kind_name` gives it.
pub parse_baseline_kind_iff :
    (text : String) (kind : BaselineKind)
    → (parse_baseline_kind text ≡ ok kind) ↔ (baseline_kind_name kind ≡ text)
parse_baseline_kind_iff text kind = (
  baseline_kind_name-parse_baseline_kind text kind,
  λ e. ap parse_baseline_kind (sym e) ∙ parse_baseline_kind-baseline_kind_name kind,
)
