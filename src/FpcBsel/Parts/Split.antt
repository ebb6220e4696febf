-- ===== src/FpcBsel/Parts/Split.antt =====
-- `join_fpc` undoes `split_fpc`, and the parts have the sizes that the tags tell.
use byte_select.Prelude.{ℕ, zero, suc, ◌+◌, ◌*◌, ◌≤◌, ◌<◌, ◌≡◌, refl, sym, ◌∙◌, ap, ap₂, arith}
use byte_select.Prelude.{
  List, [], ◌∷◌, ◌++◌, length, take, drop, get_or, All, ok, true, false, ◌==◌, Bool-cases, inl, inr,
}
use byte_select.Prelude.{
  append_assoc, append-nil, get_or-append_left, take_add, drop_add, length-append,
}
use byte_select.Prelude.Slices.{get_or-append_behind, get_or-take-drop}
use native.Mathlib.Nat.{add-zero, add_assoc}
use byte_select.Stream
use byte_select.Word.Load.{IsByte}
use byte_select.FpcBsel.Bits.Views.{view}
use byte_select.FpcBsel.Coded.{Coded, Coded-bind, Coded-along, Coded-return}
use byte_select.FpcBsel.Fpc.{load32, store32, classify, widths, read_payload, write_payload}
use byte_select.FpcBsel.Fpc.Payload.{classify-Written}
use byte_select.FpcBsel.Fpc.Blocks.{classify-lt, payload_bits-classify, store32-load32}
use byte_select.FpcBsel.Parts.{split_words, copy_n, join_words, regular_bits, raw_count, spread_raw}
use byte_select.FpcBsel.Parts.Copy.{length-copy_n, get_or-copy_n_below, get_or-copy_n, copy_n_same}

load32_same :
    (a b : List ℕ) (offset : ℕ)
    → ((k : ℕ) → k < 4 → get_or a (offset + k) 0 ≡ get_or b (offset + k) 0)
    → load32 a offset ≡ load32 b offset
unfolding load32
load32_same a b offset h =
    let first : get_or a offset 0 ≡ get_or b offset 0 =
      rw (add-zero offset) at (h 0 (omega arith)) in
    rw (first, h 1 (omega arith), h 2 (omega arith), h 3 (omega arith)) refl

length-store32 : (v : ℕ) → length (store32 v) ≡ 4
unfolding store32
length-store32 v = refl

-- The words from `word` on, split behind a state that holds the tags and the raw words so far: the
-- tags and the raw words found, and what holds of them and of the residual block at the end.
pub record Splits (block : List ℕ) (w : Stream.BitWriter) (found raw residual : List ℕ)
    (word left : ℕ) : Type 0 where
  pub end : Stream.BitWriter
  pub tags : List ℕ
  pub raws : List ℕ
  pub final : List ℕ
  pub bits : ℕ
  pub splits :
      split_words
        (record { regular = view w; found = found; raw = raw; residual = residual })
        block
        word
        left
      ≡ ok (record {
        regular = view end;
        found = found ++ tags;
        raw = raw ++ raws;
        residual = final;
      })
  pub count : length tags ≡ left
  pub small : All (λ t. t < 8) tags
  pub regular : (n : ℕ) → regular_bits tags n ≡ ok (n + bits)
  pub rest : (n : ℕ) → raw_count tags n ≡ n + length raws
  pub size : length final ≡ length residual
  pub kept : (k : ℕ) → k < word * 4 → get_or final k 0 ≡ get_or residual k 0
  pub spreads :
      (before : List ℕ) → spread_raw (before ++ raws) (length before) word residual tags ≡ final
  pub joins :
      (output : List ℕ)
      → Coded w end bits
          (λ r. join_words r final word output tags)
          (output ++ take (left * 4) (drop (word * 4) block))

module _ (block : List ℕ) (hb : All IsByte block) where
  Splits-none :
      (w : Stream.BitWriter) (found raw residual : List ℕ) (word : ℕ)
      → Splits block w found raw residual word zero
  unfolding split_words join_words regular_bits raw_count spread_raw
  Splits-none w found raw residual word = record {
    end = w;
    tags = [];
    raws = [];
    final = residual;
    bits = 0;
    splits =
        ap₂
          (λ (f r : List ℕ).
            ok (record { regular = view w; found = f; raw = r; residual = residual }))
          (sym (append-nil found)) (sym (append-nil raw));
    count = refl;
    small = tt;
    regular = λ n. ap ok (sym (add-zero n));
    rest = λ n. sym (add-zero n);
    size = refl;
    kept = λ k h. refl;
    spreads = λ before. refl;
    joins = λ output. Coded-along (sym (append-nil output)) (Coded-return w output);
  }

  -- The bytes of a word that stand behind others are those of the block.
  raw_bytes :
      (before rest : List ℕ) (offset k : ℕ)
      → offset + 4 ≤ length block
      → k < 4
      → get_or (before ++ (store32 (load32 block offset) ++ rest)) (length before + k) 0
        ≡ get_or block (offset + k) 0
  raw_bytes before rest offset k room hk =
      let stored = (store32-load32 block offset hb room).1 in
      get_or-append_behind before (store32 (load32 block offset) ++ rest) k 0
      ∙ get_or-append_left (store32 (load32 block offset)) rest k 0
          (omega (arith, length-store32 (load32 block offset)))
      ∙ ap (λ (t : List ℕ). get_or t k 0) stored
      ∙ get_or-take-drop 4 offset block k 0 hk

  -- The words taken so far and those behind them.
  next_words :
      (output : List ℕ) (word left : ℕ)
      → word * 4 + suc left * 4 ≤ length block
      → (output ++ store32 (load32 block (word * 4)))
          ++ take (left * 4) (drop ((word + 1) * 4) block)
        ≡ output ++ take (suc left * 4) (drop (word * 4) block)
  next_words output word left room =
      let stored = (store32-load32 block (word * 4) hb (omega arith)).1 in
      let four : suc left * 4 ≡ 4 + left * 4 = omega arith in
      let next : (word + 1) * 4 ≡ word * 4 + 4 = omega arith in
      rw (stored, four, take_add, next, drop_add)
        (append_assoc output (take 4 (drop (word * 4) block)) _)

  -- A word of tag 7 goes to the residual.
  Splits-raw :
      (w : Stream.BitWriter) (found raw residual : List ℕ) (word left : ℕ)
      → word * 4 + suc left * 4 ≤ length block
      → word * 4 + suc left * 4 ≤ length residual
      → (classify (load32 block (word * 4)) == 7) ≡ true
      → Splits block w
          (found ++ (classify (load32 block (word * 4)) ∷ []))
          (raw ++ store32 (load32 block (word * 4)))
          (copy_n block (word * 4) residual (word * 4) 4)
          (word + 1)
          left
      → Splits block w found raw residual word (suc left)
  unfolding split_words join_words regular_bits raw_count spread_raw
  Splits-raw w found raw residual word left room fit seven s =
      let v = load32 block (word * 4) in
      let stored = store32 v in
      let loaded : load32 s.final (word * 4) ≡ v = load32_same s.final block (word * 4) (λ k hk.
        s.kept (word * 4 + k) (omega arith)
        ∙ get_or-copy_n block residual (word * 4) (word * 4) 4 k (omega arith) hk) in
      record {
        end = s.end;
        tags = classify v ∷ s.tags;
        raws = stored ++ s.raws;
        final = s.final;
        bits = s.bits;
        splits =
            rw
              (
                seven,
                ← append_assoc found (classify v ∷ []) s.tags,
                ← append_assoc raw stored s.raws,
              )
              s.splits;
        count = ap suc s.count;
        small = (classify-lt v, s.small);
        regular = λ n. rw seven (s.regular n);
        rest = λ n.
            rw seven
              (s.rest (n + 4) ∙ omega (arith, length-append stored s.raws, length-store32 v));
        size = s.size ∙ length-copy_n block residual (word * 4) (word * 4) 4;
        kept = λ k hk.
            s.kept k (omega arith)
            ∙ get_or-copy_n_below block residual (word * 4) (word * 4) 4 k hk;
        spreads = λ before.
            let same =
              copy_n_same (before ++ (stored ++ s.raws)) block residual (length before) (word * 4)
                (word * 4) 4 (λ k hk. raw_bytes before s.raws (word * 4) k (omega arith) hk) in
            let behind : length before + 4 ≡ length (before ++ stored) =
              omega (arith, length-append before stored, length-store32 v) in
            let copied = copy_n block (word * 4) residual (word * 4) 4 in
            let step : spread_raw (before ++ (stored ++ s.raws)) (length before) word residual
                  (classify v ∷ s.tags)
                ≡ spread_raw (before ++ (stored ++ s.raws)) (length before + 4) (word + 1)
                    (copy_n (before ++ (stored ++ s.raws)) (length before) residual (word * 4) 4)
                    s.tags =
              rw seven refl in
            step
            ∙ ap
                (λ (t : List ℕ).
                  spread_raw (before ++ (stored ++ s.raws)) (length before + 4) (word + 1) t s.tags)
                same
            ∙ ap₂ (λ (r : List ℕ) (n : ℕ). spread_raw r n (word + 1) copied s.tags)
                (sym (append_assoc before stored s.raws)) behind
            ∙ s.spreads (before ++ stored);
        joins = λ output.
            rw (seven, loaded)
              (Coded-along (next_words output word left room) (s.joins (output ++ stored)));
      }

  -- Any other word goes to the regular payload.
  Splits-regular :
      (w w' : Stream.BitWriter) (found raw residual : List ℕ) (word left : ℕ)
      → word * 4 + suc left * 4 ≤ length block
      → (classify (load32 block (word * 4)) == 7) ≡ false
      → write_payload (view w) (classify (load32 block (word * 4))) (load32 block (word * 4))
        ≡ ok (view w')
      → Coded w w'
          (get_or widths (classify (load32 block (word * 4))) 0)
          (read_payload (classify (load32 block (word * 4))))
          (load32 block (word * 4))
      → Splits block w'
          (found ++ (classify (load32 block (word * 4)) ∷ []))
          raw
          residual
          (word + 1)
          left
      → Splits block w found raw residual word (suc left)
  unfolding split_words join_words regular_bits raw_count spread_raw
  Splits-regular w w' found raw residual word left room other written code s =
      let v = load32 block (word * 4) in
      let width = get_or widths (classify v) 0 in
      record {
        end = s.end;
        tags = classify v ∷ s.tags;
        raws = s.raws;
        final = s.final;
        bits = width + s.bits;
        splits = rw (other, written, ← append_assoc found (classify v ∷ []) s.tags) s.splits;
        count = ap suc s.count;
        small = (classify-lt v, s.small);
        regular = λ n.
            rw (other, payload_bits-classify v)
              (s.regular (n + width) ∙ ap (λ (t : ℕ). ok t) (add_assoc n width s.bits));
        rest = λ n. rw (other, add-zero n) (s.rest n);
        size = s.size;
        kept = λ k hk. s.kept k (omega arith);
        spreads = λ before. rw other (s.spreads before);
        joins = λ output. rw other (
            Coded-bind v (λ x r. join_words r s.final (word + 1) (output ++ store32 x) s.tags) code
              (Coded-along (next_words output word left room) (s.joins (output ++ store32 v))));
      }

  -- The loop of `split_fpc`.
  pub split_words-Splits :
      (w : Stream.BitWriter) (found raw residual : List ℕ) (word left : ℕ)
      → word * 4 + left * 4 ≤ length block
      → word * 4 + left * 4 ≤ length residual
      → Splits block w found raw residual word left
  split_words-Splits w found raw residual word zero room fit = Splits-none w found raw residual word
  split_words-Splits w found raw residual word (suc left) room fit =
      let v = load32 block (word * 4) in
      let copied = copy_n block (word * 4) residual (word * 4) 4 in
      let l = length-copy_n block residual (word * 4) (word * 4) 4 in
      let (w', written, code) =
        classify-Written w v (store32-load32 block (word * 4) hb (omega arith)).0 in
      elim (Bool-cases (classify v == 7)) [
        | inl seven ↦ Splits-raw w found raw residual word left room fit seven (
            split_words-Splits w (found ++ (classify v ∷ [])) (raw ++ store32 v) copied (word + 1)
              left (omega arith) (omega arith))
        | inr other ↦ Splits-regular w w' found raw residual word left room other written code (
            split_words-Splits w' (found ++ (classify v ∷ [])) raw residual (word + 1) left
              (omega arith) (omega arith))
      ]
