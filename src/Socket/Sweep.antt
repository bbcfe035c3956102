-- ===== src/Socket/Sweep.antt =====
-- What one pass of ServerRecyConnectionThread (nginx/net/ngx_c_socket_conn.cxx) does to the
-- lists. The code scans again from the start after each entry that it frees; the result is that
-- of a filter.
use cnginx.Common.{
  ℕ, zero, suc, ◌≤◌, Bool, true, false, not, some, none, List, [], ◌∷◌, ◌++◌, ◌≡◌, refl, sym, ap,
  ◌∙◌, fun_ext, arith, length, length-append, append_assoc, append-nil, All, if◌then◌else◌,
  Bool-cases, Option-cases, inl, inr,
}
use cnginx.Conn.{put_one_to_free}
use cnginx.Socket.{Socket, take_first, recycle, is_due, recy_pass}

-- The list as the scan finds it: entries that fail the test, the first that passes, the others.
pub record Found (test : ℕ → Bool) (ps : List ℕ) (p : ℕ) (rest : List ℕ) : Type 0 where
  pub before : List ℕ
  pub after : List ℕ
  pub splits : ps ≡ before ++ p ∷ after
  pub leaves : rest ≡ before ++ after
  pub passed : All (λ q. test q ≡ false) before
  pub hit : test p ≡ true

pub take_first-Found :
    (test : ℕ → Bool) (ps : List ℕ) {p : ℕ} {rest : List ℕ}
    → take_first test ps ≡ some (p, rest)
    → Found test ps p rest
unfolding take_first
take_first-Found test [] e = cc
take_first-Found test (q ∷ ps) {p} {rest} e = elim (Bool-cases (test q)) [
  | inl hit ↦ record {
    before = [];
    after = ps;
    splits = ground arith;
    leaves = ground arith;
    passed = tt;
    hit = ground arith;
  }
  | inr miss ↦ elim (Option-cases (take_first test ps)) [
    | inl none_left ↦ absurd (ground arith)
    | inr ((r, rest'), found) ↦
        let f = take_first-Found test ps found in
        record {
          before = q ∷ f.before;
          after = f.after;
          splits = ground arith;
          leaves = ground arith;
          passed = (miss, f.passed);
          hit = ground arith;
        }
  ]
]

pub take_first-none :
    (test : ℕ → Bool) (ps : List ℕ) → take_first test ps ≡ none → All (λ q. test q ≡ false) ps
unfolding take_first
take_first-none test [] e = tt
take_first-none test (q ∷ ps) e = ground (arith, take_first-none test ps)

-- The entries that pass a test, in order.
abbrev pub select : (ℕ → Bool) → List ℕ → List ℕ
select test [] = []
select test (p ∷ ps) = if test p then p ∷ select test ps else select test ps

abbrev pub fails : (ℕ → Bool) → ℕ → Bool
fails test p = not (test p)

select_none :
    (test : ℕ → Bool) (ps : List ℕ)
    → All (λ q. test q ≡ false) ps
    → (select test ps ≡ []) × (select (fails test) ps ≡ ps)
select_none test [] h = (refl, refl)
select_none test (p ∷ ps) h = ground (arith, select_none test ps)

select-append :
    (test : ℕ → Bool) (ps qs : List ℕ) → select test (ps ++ qs) ≡ select test ps ++ select test qs
select-append test [] qs = refl
select-append test (p ∷ ps) qs = ground (arith, select-append test ps qs)

pub Found-select :
    (test : ℕ → Bool) {ps : List ℕ} {p : ℕ} {rest : List ℕ}
    → Found test ps p rest
    → (select test ps ≡ p ∷ select test rest)
      × (select (fails test) ps ≡ select (fails test) rest)
      × (length ps ≡ suc (length rest))
Found-select test {ps} {p} {rest} f = (
  rw (
    f.splits,
    f.leaves,
    select-append,
    select-append,
    (select_none test f.before f.passed).0,
    f.hit,
  ),
  rw (f.splits, f.leaves, select-append, select-append, f.hit),
  rw (f.splits, f.leaves, length-append, length-append) (omega arith),
)

-- An object that goes to the pool does not change which entries are due.
is_due-recycle :
    (s : Socket) (currtime : ℕ) (stop : Bool) (p : ℕ) (rest : List ℕ)
    → is_due (recycle p rest s) currtime stop ≡ is_due s currtime stop
unfolding recycle put_one_to_free
is_due-recycle s currtime stop p rest = fun_ext λ q. ground arith

All-of_none : (test : ℕ → Bool) (ps : List ℕ) → length ps ≤ 0 → All (λ p. test p ≡ false) ps
All-of_none test [] h = tt
All-of_none test (p ∷ ps) h = absurd (omega arith)

pub length-recycle :
    (s : Socket) {test : ℕ → Bool} (p : ℕ) (rest : List ℕ)
    → Found test s.recyconnection_list p rest
    → length s.recyconnection_list ≡ suc (length (recycle p rest s).recyconnection_list)
unfolding recycle
length-recycle s p rest f = (Found-select _ f).2

-- How a pass goes on, by what the scan finds.
pub recy_pass_cases {ℓ} :
    (P : Socket → Type ℓ) (fuel currtime : ℕ) (stop : Bool) (s : Socket)
    → (take_first (is_due s currtime stop) s.recyconnection_list ≡ none → P s)
    → ((p : ℕ) (rest : List ℕ)
        → Found (is_due s currtime stop) s.recyconnection_list p rest
        → P (recy_pass fuel currtime stop (recycle p rest s)))
    → P (recy_pass (suc fuel) currtime stop s)
unfolding recy_pass
recy_pass_cases P fuel currtime stop s stops goes =
    elim (Option-cases (take_first (is_due s currtime stop) s.recyconnection_list)) [
      | inl e ↦ rw (e, recy_pass) (stops e)
      | inr ((p, rest), e) ↦ rw (e, recy_pass) (goes p rest (take_first-Found _ _ e))
    ]

-- The lists that a pass over `s` must leave.
abbrev Swept : ℕ → Bool → Socket → Socket → Type 0
Swept currtime stop s t =
    let due = is_due s currtime stop in
    (t.recyconnection_list ≡ select (fails due) s.recyconnection_list)
    × (t.freeconnection_list ≡ s.freeconnection_list ++ select due s.recyconnection_list)

Swept-nil :
    (currtime : ℕ) (stop : Bool) (s : Socket)
    → All (λ p. is_due s currtime stop p ≡ false) s.recyconnection_list
    → Swept currtime stop s s
Swept-nil currtime stop s h =
    let e = select_none (is_due s currtime stop) s.recyconnection_list h in
    (sym e.1, sym (ap (◌++◌ s.freeconnection_list) e.0 ∙ append-nil s.freeconnection_list))

Swept-cons :
    (currtime : ℕ) (stop : Bool) (s t : Socket) (p : ℕ) (rest : List ℕ)
    → Found (is_due s currtime stop) s.recyconnection_list p rest
    → Swept currtime stop (recycle p rest s) t
    → Swept currtime stop s t
unfolding recycle
Swept-cons currtime stop s t p rest f w =
    let e = Found-select _ f in
    let same = is_due-recycle s currtime stop p rest in
    (
      w.0 ∙ ap (λ (d : ℕ → Bool). select (fails d) rest) same ∙ sym e.1,
      w.1
          ∙ append_assoc s.freeconnection_list (p ∷ []) _
          ∙ ap (λ (d : ℕ → Bool). s.freeconnection_list ++ p ∷ select d rest) same
          ∙ ap (◌++◌ s.freeconnection_list) (sym e.0),
    )

-- With a round for each entry of the list, a pass frees exactly the entries that are due, in the
-- list's order, and keeps the others in theirs: no entry is skipped, and none is freed early.
pub recy_pass-select :
    (fuel currtime : ℕ) (stop : Bool) (s : Socket)
    → length s.recyconnection_list ≤ fuel
    → let t = recy_pass fuel currtime stop s in
      let due = is_due s currtime stop in
      (t.recyconnection_list ≡ select (fails due) s.recyconnection_list)
      × (t.freeconnection_list ≡ s.freeconnection_list ++ select due s.recyconnection_list)
recy_pass-select zero currtime stop s h =
    unfold recy_pass in
    Swept-nil currtime stop s (All-of_none _ s.recyconnection_list (omega arith))
recy_pass-select (suc fuel) currtime stop s h =
    recy_pass_cases (Swept currtime stop s) fuel currtime stop s
      (λ e. Swept-nil currtime stop s (take_first-none _ _ e))
      (λ p rest f.
        Swept-cons currtime stop s (recy_pass fuel currtime stop (recycle p rest s)) p rest f (
          recy_pass-select fuel currtime stop (recycle p rest s)
            (omega (arith, length-recycle s p rest f))))
