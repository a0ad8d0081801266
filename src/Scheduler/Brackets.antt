-- ===== src/Scheduler/Brackets.antt =====
-- What is cut out of an answer with text around the JSON.
use one_dev_army.Common.{
  ℕ, suc, ◌+◌, ◌<◌, ◌≡◌, refl, ap, ◌∙◌, ◌==◌, Bool, false, ◌||◌, Option, none, some, List, [], ◌∷◌,
  ◌++◌, arith, any, length,
}
use mathlib.Core.List.{append_assoc}
use mathlib.Core.Option
use one_dev_army.Scheduler.{
  index_of, drop, close_scan, brace, unbrace, bracket, unbracket, extract_json_array, json_from,
  extract_json,
}

-- A text in which the two brackets are balanced.
pub data Balanced (left right : ℕ) : List ℕ → Type 0 where
  nil : Balanced left right []
  plain :
      (c : ℕ) {s : List ℕ}
      → (c == left) ≡ false
      → (c == right) ≡ false
      → Balanced left right s
      → Balanced left right (c ∷ s)
  nested :
      {s t : List ℕ}
      → Balanced left right s
      → Balanced left right t
      → Balanced left right (left ∷ (s ++ right ∷ t))

module _ (left right : ℕ) (apart : (right == left) ≡ false) where
  close_scan_deeper :
      (d e : ℕ) (s : List ℕ) → d ≡ e → close_scan left right d s ≡ close_scan left right e s
  close_scan_deeper d e s h = ap (λ (n : ℕ). close_scan left right n s) h

  close_scan-append :
      (depth : ℕ) {s : List ℕ} (rest : List ℕ)
      → Balanced left right s
      → close_scan left right (suc depth) (s ++ rest) ≡ s ++ close_scan left right (suc depth) rest
  unfolding close_scan
  close_scan-append depth rest nil = refl
  close_scan-append depth rest (plain c p q b) = ground (arith, close_scan-append depth rest b)
  close_scan-append depth rest (nested {s} {t} b d) =
      let inner = close_scan-append (suc depth) (right ∷ (t ++ rest)) b in
      let outer = close_scan-append depth rest d in
      ground (
        arith,
        inner,
        outer,
        append_assoc s (right ∷ t) rest,
        append_assoc s (right ∷ t) (close_scan left right (suc depth) rest),
        close_scan_deeper (suc depth + 1) (suc (suc depth)) (s ++ right ∷ (t ++ rest)),
      )

  -- From an opening bracket the scan stops behind its partner.
  pub close_scan-Balanced :
      {s : List ℕ} (rest : List ℕ)
      → Balanced left right s
      → close_scan left right 0 (left ∷ (s ++ right ∷ rest)) ≡ left ∷ (s ++ right ∷ [])
  unfolding close_scan
  close_scan-Balanced {s} rest b = ground (arith, close_scan-append 0 (right ∷ rest) b)

abbrev pub has : ℕ → List ℕ → Bool
has c = any (λ x. x == c)

index_of-append :
    (c : ℕ) (s t : List ℕ) → has c s ≡ false → index_of c (s ++ c ∷ t) ≡ some (length s)
unfolding index_of
index_of-append c [] t h = ground arith
index_of-append c (x ∷ s) t h = ground (arith, index_of-append c s t)

pub drop-append : (s t : List ℕ) → drop (length s) (s ++ t) ≡ t
drop-append [] t = refl
drop-append (x ∷ s) t = drop-append s t

-- A place that is behind `k`, if there is one.
abbrev Behind : ℕ → Option ℕ → Type 0
Behind k none = Unit {0}
Behind k (some n) = k < n

Behind-suc : (k : ℕ) (o : Option ℕ) → Behind k o → Behind (suc k) (Option.map suc o)
Behind-suc k none h = tt
Behind-suc k (some n) h = omega arith

Behind-zero : (o : Option ℕ) → Behind 0 (Option.map suc o)
Behind-zero none = tt
Behind-zero (some n) = omega arith

index_of-Behind :
    (c x : ℕ) (s t : List ℕ)
    → has c s ≡ false
    → (x == c) ≡ false
    → Behind (length s) (index_of c (s ++ x ∷ t))
unfolding index_of
index_of-Behind c x [] t h k = rw k (Behind-zero (index_of c t))
index_of-Behind c x (y ∷ s) t h k =
    let here : (y == c) ≡ false = ground arith in
    rw here
      (Behind-suc (length s) (index_of c (s ++ x ∷ t)) (index_of-Behind c x s t (ground arith) k))

json_from-array :
    (o : Option ℕ) (k : ℕ) (s : List ℕ)
    → Behind k o
    → json_from o (some k) s ≡ extract_json_array (drop k s)
json_from-array none k s h = refl
json_from-array (some n) k s h = ground arith

json_from-object :
    (o : Option ℕ) (k : ℕ) (s : List ℕ)
    → Behind k o
    → json_from (some k) o s ≡ close_scan brace unbrace 0 (drop k s)
json_from-object none k s h = refl
json_from-object (some n) k s h = ground arith

module _ (before inner after : List ℕ)
    (clean : (has bracket before || has brace before) ≡ false) where
  no_bracket : has bracket before ≡ false
  no_bracket = ground arith

  no_brace : has brace before ≡ false
  no_brace = ground arith

  -- An answer whose first bracket of either kind opens a balanced array: the array is cut out,
  -- without the text around it.
  pub extract_json-array :
      Balanced bracket unbracket inner
      → extract_json (before ++ bracket ∷ (inner ++ unbracket ∷ after))
        ≡ bracket ∷ (inner ++ unbracket ∷ [])
  unfolding extract_json extract_json_array index_of
  extract_json-array b =
      let rest = inner ++ unbracket ∷ after in
      let content = before ++ bracket ∷ rest in
      let arr = index_of-append bracket before rest no_bracket in
      let obj = index_of-Behind brace bracket before rest no_brace refl in
      ap (λ (o : Option ℕ). json_from (index_of brace content) o content) arr
      ∙ (json_from-array (index_of brace content) (length before) content obj
          ∙ (ap extract_json_array (drop-append before (bracket ∷ rest))
              ∙ close_scan-Balanced bracket unbracket refl after b))

  -- The same for an object, whose own brackets have to be balanced as braces alone.
  pub extract_json-object :
      Balanced brace unbrace inner
      → extract_json (before ++ brace ∷ (inner ++ unbrace ∷ after))
        ≡ brace ∷ (inner ++ unbrace ∷ [])
  unfolding extract_json index_of
  extract_json-object b =
      let rest = inner ++ unbrace ∷ after in
      let content = before ++ brace ∷ rest in
      let obj = index_of-append brace before rest no_brace in
      let arr = index_of-Behind bracket brace before rest no_bracket refl in
      ap (λ (o : Option ℕ). json_from o (index_of bracket content) content) obj
      ∙ (json_from-object (index_of bracket content) (length before) content arr
          ∙ (ap (close_scan brace unbrace 0) (drop-append before (brace ∷ rest))
              ∙ close_scan-Balanced brace unbrace refl after b))
