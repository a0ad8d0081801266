-- ===== src/Scheduler/Planner/Numbers.antt =====
-- The number of the next sprint.
use one_dev_army.Common.{
  ℕ, suc, ◌+◌, ◌<◌, ◌≤◌, ◌≡◌, ◌≢◌, refl, ap, ◌∙◌, true, Option, none, some, List, [], ◌∷◌, arith,
  all, All,
}
use one_dev_army.Common.Int.{ℤ, pos, negsuc, max_int, IsInt, succ_int, ltb_ℤ}
use one_dev_army.Common.Decimal.{itoa, atoi, is_digit, print_nat}
use one_dev_army.Common.Decimal.RoundTrip.{atoi-itoa, all-digits}
use one_dev_army.Common.Effect.{ok}
use one_dev_army.Scheduler.Planner.{
  behind_blanks, number_token, signed_token, scan_sprint, sprint_word, sprint_name, raise, max_id,
  next_of,
}

behind_blanks-digits : (s : List ℕ) → all is_digit s ≡ true → behind_blanks s ≡ s
unfolding behind_blanks
behind_blanks-digits [] h = refl
behind_blanks-digits (c ∷ s) h = ground (arith, behind_blanks-digits s)

number_token-digits : (s : List ℕ) → all is_digit s ≡ true → number_token s ≡ s
unfolding number_token
number_token-digits [] h = refl
number_token-digits (c ∷ s) h = ground (arith, number_token-digits s)

signed_token-digits : (s : List ℕ) → all is_digit s ≡ true → signed_token s ≡ s
unfolding number_token
signed_token-digits [] h = refl
signed_token-digits (c ∷ s) h = ground (arith, number_token-digits s)

token-itoa : (z : ℤ) → signed_token (behind_blanks (itoa z)) ≡ itoa z
unfolding itoa print_nat behind_blanks
token-itoa (pos n) =
    let h = all-digits (suc n) n in
    ap signed_token (behind_blanks-digits (print_nat n) h) ∙ signed_token-digits (print_nat n) h
token-itoa (negsuc n) =
    ap (λ (s : List ℕ). 45 ∷ s)
      (number_token-digits (print_nat (n + 1)) (all-digits (suc (n + 1)) (n + 1)))

-- The number of a sprint of 64 bits is read back from its name.
pub scan_sprint-sprint_name : (z : ℤ) → IsInt z → scan_sprint (sprint_name z) ≡ some z
unfolding scan_sprint sprint_name sprint_word
scan_sprint-sprint_name z h = ap atoi (token-itoa z) ∙ atoi-itoa z h

raise-above : (o : Option ℤ) (m : ℕ) → m ≤ raise o m
raise-above (some (pos n)) m = ground arith
raise-above (some (negsuc n)) m = omega arith
raise-above none m = omega arith

max_id-above : (ts : List (List ℕ)) (m : ℕ) → m ≤ max_id ts m
unfolding max_id
max_id-above [] m = omega arith
max_id-above (t ∷ ts) m =
    omega (arith, raise-above (scan_sprint t) m, max_id-above ts (raise (scan_sprint t) m))

abbrev value_of : Option ℤ → ℕ
value_of (some (pos n)) = n
value_of _ = 0

raised-≢ : (o : Option ℤ) (m n : ℕ) → raise o m ≤ n → o ≢ some (pos (suc n))
raised-≢ (some (pos k)) m n h e = let same : k ≡ suc n = ap value_of e in ground (arith, same)
raised-≢ (some (negsuc k)) m n h e = cc
raised-≢ none m n h e = cc

others_new :
    (ts : List (List ℕ)) (m n : ℕ)
    → max_id ts m ≤ n
    → All (λ t. scan_sprint t ≢ some (pos (suc n))) ts
unfolding max_id
others_new [] m n h = tt
others_new (t ∷ ts) m n h =
    let k = max_id-above ts (raise (scan_sprint t) m) in
    (raised-≢ (scan_sprint t) m n (omega arith), others_new ts (raise (scan_sprint t) m) n h)

succ_int-below : (m : ℕ) → m < max_int → succ_int (pos m) ≡ pos (suc m)
unfolding succ_int
succ_int-below m h = ground arith

-- The number of the next sprint is no number of a milestone that is there, is positive, and is read back
-- from the name of its milestone, as long as the largest number there is below that of 64 bits.
pub next_of-is_new :
    (titles : List (List ℕ))
    → max_id titles 0 < max_int
    → All (λ t. scan_sprint t ≢ some (next_of (ok titles))) titles
      × (ltb_ℤ (pos 0) (next_of (ok titles)) ≡ true)
      × (scan_sprint (sprint_name (next_of (ok titles))) ≡ some (next_of (ok titles)))
next_of-is_new titles h =
    let m = max_id titles 0 in
    rw (succ_int-below m h)
      (others_new titles 0 m (omega arith), ground arith, scan_sprint-sprint_name (pos (suc m)) h)
