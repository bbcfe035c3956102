-- ===== src/Conf/Lines.antt =====
-- What CConfig::Load and the trims make of a line (nginx/app/ngx_c_conf.cxx,
-- nginx/app/ngx_string.cxx).
use cnginx.Common.{
  ℕ, zero, suc, ◌+◌, ◌≤◌, ◌<◌, ◌≡◌, refl, sym, ap, ◌∙◌, arith, Bool, true, false, ◌==◌, some, [],
  ◌∷◌, ◌++◌, length, length-append, take, get_or, All, append_assoc,
}
use cnginx.Common.Memory.{Bytes}
use cnginx.Conf.{trim_end, is_line_end, is_skipped, cut_at_equals, cut_stripped, load_line}

get_or-append : (xs ys : Bytes) (i : ℕ) → i < length xs → get_or (xs ++ ys) i 0 ≡ get_or xs i 0
get_or-append [] ys i h = absurd (omega arith)
get_or-append (x ∷ xs) ys zero h = refl
get_or-append (x ∷ xs) ys (suc i) h = get_or-append xs ys i (omega arith)

get_or-behind : (xs : Bytes) (y : ℕ) (ys : Bytes) → get_or (xs ++ y ∷ ys) (length xs) 0 ≡ y
get_or-behind [] y ys = refl
get_or-behind (x ∷ xs) y ys = get_or-behind xs y ys

take-all_but :
    (xs : Bytes) (x : ℕ) (ys : Bytes) → take (suc (length xs)) (xs ++ x ∷ ys) ≡ xs ++ x ∷ []
take-all_but [] x ys = refl
take-all_but (y ∷ xs) x ys = ap (y ∷◌) (take-all_but xs x ys)

All-at :
    (test : ℕ → Bool) (xs : Bytes) (i : ℕ)
    → All (λ b. test b ≡ true) xs
    → i < length xs
    → test (get_or xs i 0) ≡ true
All-at test [] i h k = absurd (omega arith)
All-at test (x ∷ xs) zero h k = h.0
All-at test (x ∷ xs) (suc i) h k = All-at test xs i h.1 (omega arith)

get_or-second : (xs ys : Bytes) (i : ℕ) → get_or (xs ++ ys) (length xs + i) 0 ≡ get_or ys i 0
get_or-second [] ys i = ap (λ k. get_or ys k 0) (omega arith)
get_or-second (x ∷ xs) ys i =
    let e : suc (length xs) + i ≡ suc (length xs + i) = omega arith in rw e (get_or-second xs ys i)

module _ (test : ℕ → Bool) (xs : Bytes) (x : ℕ) (ys : Bytes) where
  -- The loop stops at a character that fails the test.
  trim_end-stops : test x ≡ false → trim_end test (xs ++ x ∷ ys) (suc (length xs)) ≡ xs ++ x ∷ []
  unfolding trim_end
  trim_end-stops h = rw (get_or-behind xs x ys, h) (take-all_but xs x ys)

  -- It passes over those behind it that pass the test.
  trim_end-passes :
      (k : ℕ)
      → k ≤ length ys
      → test x ≡ false
      → All (λ b. test b ≡ true) ys
      → trim_end test (xs ++ x ∷ ys) (suc (length xs) + k) ≡ xs ++ x ∷ []
  unfolding trim_end
  trim_end-passes zero h fails pass =
      let e : suc (length xs) + 0 ≡ suc (length xs) = omega arith in rw e (trim_end-stops fails)
  trim_end-passes (suc k) h fails pass =
      let e : suc (length xs) + suc k ≡ suc (suc (length xs) + k) = omega arith in
      let d : length xs + suc k ≡ suc (length xs) + k = omega arith in
      let at : get_or (xs ++ x ∷ ys) (suc (length xs) + k) 0 ≡ get_or ys k 0 =
        ap (λ (j : ℕ). get_or (xs ++ x ∷ ys) j 0) (sym d) ∙ get_or-second xs (x ∷ ys) (suc k) in
      rw (e, at, All-at test ys k pass (omega arith)) (trim_end-passes k (omega arith) fails pass)

  -- Taking characters off the end leaves the part up to the last one that fails the test.
  pub trim_end_lem :
      test x ≡ false
      → All (λ b. test b ≡ true) ys
      → trim_end test (xs ++ x ∷ ys) (length (xs ++ x ∷ ys)) ≡ xs ++ x ∷ []
  trim_end_lem fails pass =
      let e : length (xs ++ x ∷ ys) ≡ suc (length xs) + length ys =
        omega (arith, length-append xs (x ∷ ys)) in
      rw e (trim_end-passes (length ys) (omega arith) fails pass)

cut_at_equals_lem :
    (name content : Bytes)
    → All (λ c. c == b'=' ≡ false) name
    → cut_at_equals (name ++ b'=' ∷ content) ≡ some (name, content)
unfolding cut_at_equals
cut_at_equals_lem [] content h = refl
cut_at_equals_lem (c ∷ name) content h = rw (h.0, cut_at_equals_lem name content h.1) refl

-- A line that holds a name without `=`, an `=`, a value, and line ends and blanks behind it gives
-- that name and that value, if its first character does not make it a comment, a section or an
-- indented line, and the last character in front of the line ends is none of them.
pub load_line_lem :
    (c : ℕ) (name content front blanks : Bytes) (x : ℕ)
    → is_skipped c ≡ false
    → c == b'[' ≡ false
    → All (λ d. d == b'=' ≡ false) (c ∷ name)
    → c ∷ name ++ b'=' ∷ content ≡ front ++ x ∷ []
    → is_line_end x ≡ false
    → All (λ b. is_line_end b ≡ true) blanks
    → load_line ((c ∷ name ++ b'=' ∷ content) ++ blanks) ≡ some (c ∷ name, content)
unfolding load_line cut_stripped
load_line_lem c name content front blanks x kept plain_line no_equals ends last_kept all_blank =
    let line = c ∷ name ++ b'=' ∷ content in
    let same : line ++ blanks ≡ front ++ x ∷ blanks =
      ap (λ t. t ++ blanks) ends ∙ append_assoc front (x ∷ []) blanks in
    let trimmed : trim_end is_line_end (line ++ blanks) (length (line ++ blanks)) ≡ line =
      ap (λ t. trim_end is_line_end t (length t)) same
      ∙ trim_end_lem is_line_end front x blanks last_kept all_blank
      ∙ sym ends in
    rw (kept, trimmed, plain_line) (cut_at_equals_lem (c ∷ name) content no_equals)
