-- ===== src/Dashboard/Wizard/Tasks/Cut.antt =====
-- What the wizard cuts out of an answer with text around the array.
use one_dev_army.Common.{
  ℕ, suc, ◌+◌, ◌-◌, ◌≡◌, refl, ap, sym, ◌∙◌, Bool, false, ◌||◌, Option, none, some, List, [], ◌∷◌,
  ◌++◌, arith, length, length-append, take,
}
use mathlib.Core.List.{append_assoc}
use one_dev_army.Common.Int.{pos}
use one_dev_army.Scheduler.{bracket, unbracket}
use one_dev_army.Scheduler.Brackets.{Balanced, has, drop-append}
use one_dev_army.Dashboard.Wizard.Tasks.{
  starts, fence, code_block, block_or_text, scan, cut, task_json,
}

-- No three backquotes side by side.
abbrev pub has_fence : List ℕ → Bool
has_fence [] = false
has_fence (c ∷ cs) = starts fence (c ∷ cs) || has_fence cs

no_block : (s : List ℕ) → has_fence s ≡ false → code_block s ≡ none
unfolding code_block
no_block [] h = refl
no_block (c ∷ cs) h =
    let here : starts fence (c ∷ cs) ≡ false = ground arith in rw here (no_block cs (ground arith))

scan-before :
    (i j : ℕ) (s t : List ℕ)
    → has bracket s ≡ false
    → has unbracket s ≡ false
    → j ≡ i + length s
    → scan i none (pos 0) (s ++ t) ≡ scan j none (pos 0) t
unfolding scan
scan-before i j [] t h k e = let z : j ≡ i = omega (arith, e) in rw z
scan-before i j (c ∷ s) t h k e = ground (arith, scan-before (i + 1) j s t)

module _ (a : ℕ) where
  scan-left :
      (i d : ℕ) (u : List ℕ)
      → scan i (some a) (pos (suc d)) (bracket ∷ u) ≡ scan (i + 1) (some a) (pos (suc (suc d))) u
  unfolding scan
  scan-left i d u = ground arith

  scan-right :
      (i d : ℕ) (u : List ℕ)
      → scan i (some a) (pos (suc (suc d))) (unbracket ∷ u) ≡ scan (i + 1) (some a) (pos (suc d)) u
  unfolding scan
  scan-right i d u = ground arith

  scan-Balanced :
      (i j d : ℕ) {s : List ℕ} (t : List ℕ)
      → Balanced bracket unbracket s
      → j ≡ i + length s
      → scan i (some a) (pos (suc d)) (s ++ t) ≡ scan j (some a) (pos (suc d)) t
  unfolding scan
  scan-Balanced i j d t Balanced.nil e = let z : j ≡ i = omega (arith, e) in rw z
  scan-Balanced i j d t (Balanced.plain c {s} p q b) e =
      ground (arith, scan-Balanced (i + 1) j d t b)
  scan-Balanced i j d u (Balanced.nested {s} {t} b c) e =
      let k = i + 1 + length s in
      scan-left i d ((s ++ unbracket ∷ t) ++ u)
      ∙ (ap (scan (i + 1) (some a) (pos (suc (suc d)))) (append_assoc s (unbracket ∷ t) u)
          ∙ (scan-Balanced (i + 1) k (suc d) (unbracket ∷ (t ++ u)) b refl
              ∙ (scan-right k d (t ++ u)
                  ∙ scan-Balanced (k + 1) j d u c
                      (omega (arith, length-append s (unbracket ∷ t), e)))))

take-append : (s t : List ℕ) (n : ℕ) → n ≡ length s → take n (s ++ t) ≡ s
take-append [] t n e = rw e
take-append (x ∷ s) t n e = rw e (ap (λ (l : List ℕ). x ∷ l) (take-append s t (length s) refl))

taken :
    (before inner after : List ℕ)
    → cut
        (before ++ bracket ∷ (inner ++ unbracket ∷ after))
        (some (length before), some (length before + 1 + length inner))
      ≡ some (bracket ∷ (inner ++ unbracket ∷ []))
taken before inner after =
    let p = length before in
    let size : p + 1 + length inner + 1 - p ≡ length (bracket ∷ (inner ++ unbracket ∷ [])) =
      omega (arith, length-append inner (unbracket ∷ [])) in
    let whole = bracket ∷ (inner ++ unbracket ∷ []) in
    let split : bracket ∷ (inner ++ unbracket ∷ after) ≡ whole ++ after =
      ap (λ (l : List ℕ). bracket ∷ l) (sym (append_assoc inner (unbracket ∷ []) after)) in
    let cut_out : take (p + 1 + length inner + 1 - p) (bracket ∷ (inner ++ unbracket ∷ after))
        ≡ whole =
      ap (take (p + 1 + length inner + 1 - p)) split ∙ take-append whole after _ size in
    ground (arith, drop-append before (bracket ∷ (inner ++ unbracket ∷ after)), cut_out)

-- In an answer without a fenced block, with no bracket before a balanced array: the array is cut out,
-- without the text around it.
pub task_json-array :
    (before inner after : List ℕ)
    → has_fence (before ++ bracket ∷ (inner ++ unbracket ∷ after)) ≡ false
    → has bracket before ≡ false
    → has unbracket before ≡ false
    → Balanced bracket unbracket inner
    → task_json (before ++ bracket ∷ (inner ++ unbracket ∷ after))
      ≡ some (bracket ∷ (inner ++ unbracket ∷ []))
unfolding task_json scan
task_json-array before inner after f h k b =
    let rest = inner ++ unbracket ∷ after in
    let text = before ++ bracket ∷ rest in
    let p = length before in
    let q = p + 1 + length inner in
    let found : scan 0 none (pos 0) text ≡ (some p, some q) =
      scan-before 0 p before (bracket ∷ rest) h k (omega arith)
      ∙ scan-Balanced p (p + 1) q 0 (unbracket ∷ after) b refl in
    ap
      (λ (o : Option (List ℕ)).
        cut (block_or_text o text) (scan 0 none (pos 0) (block_or_text o text)))
      (no_block text f)
    ∙ (ap (cut text) found ∙ taken before inner after)
