-- ===== src/Titles/Environment.antt =====
-- What the titles leave of the memory (nginx/app/ngx_setproctitle.cxx,
-- nginx/proc/ngx_process_cycle.cxx).
use mathlib.Core.Option.{some-injective, none-ne-some}
use cnginx.Common.{
  ℕ, zero, suc, ◌+◌, ◌-◌, ◌≤◌, ◌<◌, ◌≡◌, refl, sym, ap, ◌∙◌, arith, true, false, Bool-cases, inl,
  inr, ltb, leb, ltb→lt, if◌then◌else◌, some, List, [], ◌∷◌, ◌++◌, length, length-append,
  length-replicate, drop, replicate, append_assoc, append-nil, subst, take, take-append-drop,
  length-drop, length-take,
}
use cnginx.Common.Memory.{Bytes, write_at}
use cnginx.Titles.{
  need_loop, with_nul, copy_loop, init_setproctitle, setproctitle, master_process, concat_loop,
  master_title,
}

-- The strings one behind the other, each with its NUL.
abbrev pub laid_out : List Bytes → Bytes
laid_out [] = []
laid_out (s ∷ ss) = with_nul s ++ laid_out ss

need_loop_lem : (need : ℕ) (ss : List Bytes) → need_loop need ss ≡ need + length (laid_out ss)
unfolding need_loop
need_loop_lem need [] = omega arith
need_loop_lem need (s ∷ ss) = omega (
  arith,
  need_loop_lem (need + (length s + 1)) ss,
  length-append (with_nul s) (laid_out ss),
  length-append s (0 ∷ []),
)

-- A write over as much as it writes.
write_at-over :
    (front old s back : Bytes)
    → length old ≡ length s
    → write_at (length front) s (front ++ (old ++ back)) ≡ front ++ (s ++ back)
unfolding write_at
write_at-over [] [] [] back e = refl
write_at-over [] [] (c ∷ s) back e = absurd (omega arith)
write_at-over [] (d ∷ old) [] back e = absurd (omega arith)
write_at-over [] (d ∷ old) (c ∷ s) back e = ap (◌∷◌ c) (write_at-over [] old s back (omega arith))
write_at-over (c ∷ front) old s back e = ap (◌∷◌ c) (write_at-over front old s back e)

replicate_add : (m n : ℕ) → replicate {A = ℕ} (m + n) 0 ≡ replicate m 0 ++ replicate n 0
replicate_add zero n = let e : 0 + n ≡ n = omega arith in rw e refl
replicate_add (suc m) n =
    let e : suc m + n ≡ suc (m + n) = omega arith in rw e (ap (◌∷◌ 0) (replicate_add m n))

-- A write into the zeros that a block ends with.
write_at-zeros :
    (front s back : Bytes)
    → write_at (length front) s (front ++ replicate (length (s ++ back)) 0)
      ≡ (front ++ s) ++ replicate (length back) 0
write_at-zeros front s back =
    rw (length-append s back, replicate_add (length s) (length back), append_assoc)
      (write_at-over front (replicate (length s) 0) s (replicate (length back) 0)
        (length-replicate (length s) 0))

-- Each string stands, with its NUL, where its pointer points.
abbrev pub StringsAt : Bytes → List ℕ → List Bytes → Type 0
StringsAt mem [] [] = Unit {0}
StringsAt mem [] (s ∷ ss) = ⊥
StringsAt mem (o ∷ os) [] = ⊥
StringsAt mem (o ∷ os) (s ∷ ss) =
    ((rest : Bytes) × (drop o mem ≡ with_nul s ++ rest)) × StringsAt mem os ss

drop-append : (xs ys : Bytes) → drop (length xs) (xs ++ ys) ≡ ys
drop-append [] ys = refl
drop-append (x ∷ xs) ys = drop-append xs ys

copy_loop_lem :
    (front : Bytes) (ss : List Bytes)
    → let done = copy_loop (length front) ss (front ++ replicate (length (laid_out ss)) 0) in
      (done.env_mem ≡ front ++ laid_out ss) × StringsAt (front ++ laid_out ss) done.environ ss
unfolding copy_loop
copy_loop_lem front [] = (refl, tt)
copy_loop_lem front (s ∷ ss) =
    let here : length front + (length s + 1) ≡ length (front ++ with_nul s) =
      omega (arith, length-append front (with_nul s), length-append s (0 ∷ [])) in
    let (block, strings) = copy_loop_lem (front ++ with_nul s) ss in
    let written : (front ++ with_nul s) ++ laid_out ss ≡ front ++ laid_out (s ∷ ss) =
      append_assoc front (with_nul s) (laid_out ss) in
    let pointed : drop (length front) (front ++ laid_out (s ∷ ss)) ≡ with_nul s ++ laid_out ss =
      drop-append front (laid_out (s ∷ ss)) in
    rw (write_at-zeros front (with_nul s) (laid_out ss), here)
      (
        block ∙ written,
        (
          (laid_out ss, pointed),
          subst
              (λ (mem : Bytes).
                StringsAt mem
                  (copy_loop (length (front ++ with_nul s)) ss
                    ((front ++ with_nul s) ++ replicate (length (laid_out ss)) 0)).environ
                  ss)
              written strings,
        ),
      )

-- After ngx_init_setproctitle every environment string stands at its pointer in the block at
-- gp_envmem, so the titles, which are written over the old strings, leave it alone; and the block
-- is filled to its end and no further.
pub init_setproctitle_lem :
    (strings : List Bytes)
    → let done = init_setproctitle strings in
      (done.env_mem ≡ laid_out strings)
      × StringsAt done.env_mem done.environ strings
      × (length done.env_mem ≡ need_loop 0 strings)
unfolding init_setproctitle
init_setproctitle_lem strings =
    let need : need_loop 0 strings ≡ length (laid_out strings) =
      omega (arith, need_loop_lem 0 strings) in
    let (block, placed) = copy_loop_lem [] strings in
    let done = copy_loop 0 strings (replicate (length (laid_out strings)) 0) in
    rw need (
      block,
      subst (λ (mem : Bytes). StringsAt mem done.environ strings) (sym block) placed,
      ap length block,
    )

overwritten :
    (esy : ℕ) (title region : Bytes)
    → length title < esy
    → length region ≡ esy
    → write_at
        (length title)
        (replicate (esy - length title) 0)
        (write_at 0 (with_nul title) region)
      ≡ title ++ replicate (esy - length title) 0
overwritten esy title region h e =
    let n = length (with_nul title) in
    let zeros = replicate {A = ℕ} (esy - length title) 0 in
    let size : length (with_nul title) ≡ length title + 1 = length-append title (0 ∷ []) in
    let copied : write_at 0 (with_nul title) region ≡ with_nul title ++ drop n region =
      ap (write_at 0 (with_nul title)) (sym (take-append-drop n region))
      ∙ write_at-over [] (take n region) (with_nul title) (drop n region)
          (omega (arith, length-take n region)) in
    ap (write_at (length title) zeros) (
      copied
      ∙ append_assoc title (0 ∷ []) (drop n region)
      ∙ ap (λ t. title ++ t) (sym (append-nil (0 ∷ drop n region))))
    ∙ write_at-over title (0 ∷ drop n region) zeros []
        (omega (arith, length-drop n region, length-replicate {A = ℕ} (esy - length title) 0))
    ∙ ap (title ++◌) (append-nil zeros)

-- A title that is shorter than the strings of the program's arguments and environment were takes
-- their place: the title, and NULs to the end of that memory. A longer one changes nothing.
pub setproctitle_lem :
    (argv environ : List Bytes) (title region : Bytes)
    → length region ≡ need_loop 0 argv + need_loop 0 environ
    → let esy = need_loop 0 argv + need_loop 0 environ in
      setproctitle esy title region
      ≡ (if ltb (length title) esy then title ++ replicate (esy - length title) 0 else region)
unfolding setproctitle
setproctitle_lem argv environ title region e =
    let esy = need_loop 0 argv + need_loop 0 environ in
    elim (Bool-cases (ltb (length title) esy)) [
      | inl room ↦
          let short : leb esy (length title) ≡ false = ground arith in
          rw (room, short) (overwritten esy title region (ground arith) e)
      | inr long ↦ let full : leb esy (length title) ≡ true = ground arith in rw (long, full) refl
    ]

concat_loop-length :
    (title : Bytes) (ss : List Bytes)
    → length (concat_loop title ss) + length ss ≡ length title + length (laid_out ss)
unfolding concat_loop
concat_loop-length title [] = omega arith
concat_loop-length title (s ∷ ss) = omega (
  arith,
  concat_loop-length (title ++ s) ss,
  length-append title s,
  length-append (with_nul s) (laid_out ss),
  length-append s (0 ∷ []),
)

-- The title that the master builds fits in its array of 1000 characters, with its NUL.
pub master_title_lem :
    (argv : List Bytes) (title : Bytes) → master_title argv ≡ some title → length title + 1 ≤ 1000
unfolding master_title
master_title_lem argv title e = elim (Bool-cases (ltb (15 + need_loop 0 argv) 1000)) [
  | inl room ↦
      let same : concat_loop (master_process ++ b' ' ∷ []) argv ≡ title =
        some-injective _ _ (rw room at e) in
      omega (
        arith,
        ap length same,
        concat_loop-length (master_process ++ b' ' ∷ []) argv,
        need_loop_lem 0 argv,
        ltb→lt (15 + need_loop 0 argv) 1000 room,
      )
  | inr long ↦ absurd (none-ne-some _ (rw long at e))
]
