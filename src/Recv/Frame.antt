-- ===== src/Recv/Frame.antt =====
-- What a stream of bytes means, with no connection, no buffers and no reads: the stream is read
-- byte by byte into `pending`. Eight bytes are a header; a length that is refused drops them; a
-- packet is complete when as many bytes have come as its header says.
use mathlib.Core.List.{flatten}
use cnginx.Common.{
  ℕ, ◌+◌, ◌-◌, ◌≤◌, ◌<◌, ◌||◌, false, ◌==◌, ltb, if◌then◌else◌, List, [], ◌∷◌, ◌++◌, length,
  length-append, ◌≡◌, ◌⊎◌, inl, inr, refl, sym, ap, ◌∙◌, arith, append_assoc, append-nil, All,
  All-append, Bool-cases, take, drop, take-append-drop, length-take, length-drop, take_all, subst,
}
use cnginx.Common.Memory.{Bytes}
use cnginx.Packet.{header_size, pkg_len}

-- The longest packet that is taken.
abbrev pub longest : ℕ
longest = 29000

abbrev pub Framed : Type 0
Framed = Bytes × List Bytes

-- What `q` becomes when a header or a packet may have been completed.
abbrev pub settle : Bytes → Framed
settle q =
    if ltb (pkg_len q) header_size || ltb longest (pkg_len q)
    then ([], [])
    else if length q == pkg_len q
    then ([], q ∷ [])
    else (q, [])

unfoldable pub accept : Bytes → ℕ → Framed
accept pending b =
    let q = pending ++ b ∷ [] in if ltb (length q) header_size then (q, []) else settle q

unfoldable pub feed : Bytes → Bytes → Framed
unfolding accept
feed pending [] = (pending, [])
feed pending (b ∷ bs) =
    let (p, out) = accept pending b in let (p', later) = feed p bs in (p', out ++ later)

-- A packet that the server takes: its header names its length.
abbrev pub IsPacket : Bytes → Type 0
IsPacket q = (header_size ≤ length q) × (length q ≤ longest) × (pkg_len q ≡ length q)

-- What may be pending: part of a header, or a taken header with part of its body.
abbrev pub IsPending : Bytes → Type 0
IsPending p =
    (length p < header_size)
    ⊎ ((header_size ≤ length p) × (length p < pkg_len p) × (pkg_len p ≤ longest))

-- How many bytes are missing to the next decision.
abbrev pub needed : Bytes → ℕ
needed p = if ltb (length p) header_size then header_size - length p else pkg_len p - length p

-- The header does not change when bytes are added behind it.
pub pkg_len-append : (p bs : Bytes) → 2 ≤ length p → pkg_len (p ++ bs) ≡ pkg_len p
unfolding pkg_len
pkg_len-append [] bs h = absurd (omega arith)
pkg_len-append (x ∷ []) bs h = absurd (omega arith)
pkg_len-append (x ∷ y ∷ p) bs h = refl

accept_early :
    (p : Bytes) (b : ℕ)
    → IsPending p
    → 1 < needed p
    → (accept p b ≡ (p ++ b ∷ [], []))
      × IsPending (p ++ b ∷ [])
      × (needed (p ++ b ∷ []) + 1 ≡ needed p)
unfolding accept
accept_early p b (inl h) n =
    let l : length (p ++ b ∷ []) ≡ length p + 1 = length-append p (b ∷ []) in
    (ground arith, inl (ground arith), ground arith)
accept_early p b (inr h) n =
    let l : length (p ++ b ∷ []) ≡ length p + 1 = length-append p (b ∷ []) in
    let k : pkg_len (p ++ b ∷ []) ≡ pkg_len p = pkg_len-append p (b ∷ []) (omega arith) in
    (ground arith, inr (ground arith), ground arith)

accept_last : (p : Bytes) (b : ℕ) → IsPending p → needed p ≡ 1 → accept p b ≡ settle (p ++ b ∷ [])
unfolding accept
accept_last p b (inl h) n =
    let l : length (p ++ b ∷ []) ≡ length p + 1 = length-append p (b ∷ []) in
    let e : ltb (length (p ++ b ∷ [])) header_size ≡ false = ground arith in rw e
accept_last p b (inr h) n =
    let l : length (p ++ b ∷ []) ≡ length p + 1 = length-append p (b ∷ []) in
    let e : ltb (length (p ++ b ∷ [])) header_size ≡ false = ground arith in rw e

feed_keep : (p q : Bytes) (b : ℕ) (bs : Bytes) → accept p b ≡ (q, []) → feed p (b ∷ bs) ≡ feed q bs
unfolding feed
feed_keep p q b bs e = rw e

feed_one : (p : Bytes) (b : ℕ) → feed p (b ∷ []) ≡ accept p b
unfolding feed
feed_one p b = ap (λ (o : List Bytes). ((accept p b).0, o)) (append-nil (accept p b).1)

-- Too few bytes for a decision are only kept.
pub feed_short :
    (bs p : Bytes)
    → IsPending p
    → length bs < needed p
    → (feed p bs ≡ (p ++ bs, [])) × IsPending (p ++ bs) × (needed (p ++ bs) + length bs ≡ needed p)
feed_short [] p h lt = rw append-nil (unfold feed in refl, h, omega arith)
feed_short (b ∷ bs) p h lt =
    let (e, h', n) = accept_early p b h (omega arith) in
    let (f, h'', n') = feed_short bs (p ++ b ∷ []) h' (omega arith) in
    let r : (p ++ b ∷ []) ++ bs ≡ p ++ b ∷ bs = append_assoc p (b ∷ []) bs in
    (
      feed_keep p _ b bs e ∙ f ∙ ap (λ (q : Bytes). (q, [])) r,
      subst IsPending r h'',
      ground (arith, ap needed r),
    )

-- Just enough bytes lead to the decision on the whole.
pub feed_full : (bs p : Bytes) → IsPending p → length bs ≡ needed p → feed p bs ≡ settle (p ++ bs)
feed_full [] p h e = absurd (ground arith)
feed_full (b ∷ []) p h e = feed_one p b ∙ accept_last p b h (omega arith)
feed_full (b ∷ c ∷ bs) p h e =
    let (a, h', n) = accept_early p b h (omega arith) in
    feed_keep p _ b (c ∷ bs) a
    ∙ feed_full (c ∷ bs) (p ++ b ∷ []) h' (omega arith)
    ∙ ap settle (append_assoc p (b ∷ []) (c ∷ bs))

-- A stream in two parts.
pub feed-append :
    (xs ys p : Bytes)
    → feed p (xs ++ ys) ≡ ((feed (feed p xs).0 ys).0, (feed p xs).1 ++ (feed (feed p xs).0 ys).1)
unfolding feed
feed-append [] ys p = refl
feed-append (x ∷ xs) ys p = rw (feed-append xs ys (accept p x).0) (
    ap (λ (o : List Bytes). ((feed (feed (accept p x).0 xs).0 ys).0, o))
      (sym (append_assoc (accept p x).1 _ _)))

-- What the decision leaves can be continued.
pub settle-IsPending :
    (q : Bytes)
    → header_size ≤ length q
    → (length q ≡ header_size) ⊎ (length q ≡ pkg_len q)
    → IsPending (settle q).0
settle-IsPending q h k =
    elim (Bool-cases (ltb (pkg_len q) header_size || ltb longest (pkg_len q))) [
      | inl refused ↦ rw refused (inl (omega arith))
      | inr taken ↦ elim (Bool-cases (length q == pkg_len q)) [
        | inl done ↦ rw (taken, done) (inl (omega arith))
        | inr more ↦ rw (taken, more) (inr (ground arith))
      ]
    ]

settle-IsPacket : (q : Bytes) → header_size ≤ length q → All IsPacket (settle q).1
settle-IsPacket q h = elim (Bool-cases (ltb (pkg_len q) header_size || ltb longest (pkg_len q))) [
  | inl refused ↦ rw refused tt
  | inr taken ↦ elim (Bool-cases (length q == pkg_len q)) [
    | inl done ↦ rw (taken, done) (ground arith)
    | inr more ↦ rw (taken, more) tt
  ]
]

accept-IsPacket : (p : Bytes) (b : ℕ) → All IsPacket (accept p b).1
unfolding accept
accept-IsPacket p b = elim (Bool-cases (ltb (length (p ++ b ∷ [])) header_size)) [
  | inl short ↦ rw short tt
  | inr enough ↦ rw enough (settle-IsPacket (p ++ b ∷ []) (ground arith))
]

-- Whatever the stream is, what is cut out of it is a packet.
pub feed-IsPacket : (bs p : Bytes) → All IsPacket (feed p bs).1
unfolding feed
feed-IsPacket [] p = tt
feed-IsPacket (b ∷ bs) p =
    All-append IsPacket (accept p b).1 _ (accept-IsPacket p b) (feed-IsPacket bs (accept p b).0)

module _ (q : Bytes) (packet : IsPacket q) where
  length-header : length (take header_size q) ≡ header_size
  length-header = omega (arith, length-take header_size q)

  pkg_len-header : pkg_len (take header_size q) ≡ length q
  pkg_len-header =
      sym (pkg_len-append (take header_size q) (drop header_size q) (omega (arith, length-header)))
      ∙ ap pkg_len (take-append-drop header_size q)
      ∙ packet.2

  feed_header : feed [] (take header_size q) ≡ settle (take header_size q)
  feed_header = feed_full (take header_size q) [] (inl (omega arith)) (omega (arith, length-header))

  settle_packet : settle q ≡ ([], q ∷ [])
  settle_packet = ground arith

  header_only : length q ≡ header_size → feed [] q ≡ ([], q ∷ [])
  header_only e = rw (take_all header_size q (omega arith)) at (feed_header) ∙ settle_packet

  header_kept : header_size < length q → settle (take header_size q) ≡ (take header_size q, [])
  header_kept h = ground (arith, length-header, pkg_len-header)

  with_body : header_size < length q → feed [] q ≡ ([], q ∷ [])
  with_body h =
      let first : feed [] (take header_size q) ≡ (take header_size q, []) =
        feed_header ∙ header_kept h in
      let later : feed (take header_size q) (drop header_size q) ≡ ([], q ∷ []) =
        feed_full (drop header_size q) (take header_size q)
          (inr (omega (arith, length-header, pkg_len-header)))
          (ground (arith, length-header, pkg_len-header, length-drop header_size q))
        ∙ ap settle (take-append-drop header_size q)
        ∙ settle_packet in
      ap (feed []) (sym (take-append-drop header_size q))
      ∙ feed-append (take header_size q) (drop header_size q) []
      ∙ rw (first, later)

  pub feed_packet : feed [] q ≡ ([], q ∷ [])
  feed_packet = elim (Bool-cases (length q == header_size)) [
    | inl e ↦ header_only (ground arith)
    | inr e ↦ with_body (ground arith)
  ]

-- A stream of packets is read as these packets, and nothing is left over.
pub feed-flatten : (ps : List Bytes) → All IsPacket ps → feed [] (flatten ps) ≡ ([], ps)
unfolding flatten
feed-flatten [] h = unfold feed in refl
feed-flatten (q ∷ ps) h =
    feed-append q (flatten ps) [] ∙ rw (feed_packet q h.0, feed-flatten ps h.1)
