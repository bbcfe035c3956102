-- ===== src/Conf/Items.antt =====
-- The items that CConfig::Load makes of lines, and CConfig::GetString (nginx/app/ngx_c_conf.cxx,
-- nginx/app/ngx_string.cxx).
use cnginx.Common.{
  ℕ, ◌<◌, ◌≡◌, refl, sym, ap, ap₂, ◌∙◌, arith, true, false, ◌==◌, leb, some, List, [], ◌∷◌, ◌++◌,
  length, All, All-append, subst, append_assoc, append-nil,
}
use cnginx.Common.Memory.{Bytes}
use cnginx.Conf.{
  rtrim, ltrim, is_line_end, is_skipped, load_line, ConfItem, item, store_item, load_item,
  equals_nocase, get_string,
}
use cnginx.Conf.Lines.{trim_end_lem, load_line_lem}

abbrev pub AllBlank : Bytes → Type 0
AllBlank s = All (λ b. b == b' ' ≡ true) s

-- A text that neither begins nor ends with a blank.
pub record IsTrimmed (w : Bytes) : Type 0 where
  pub first : ℕ
  pub behind : Bytes
  pub front : Bytes
  pub last : ℕ
  pub begins : w ≡ first ∷ behind
  pub ends : w ≡ front ++ last ∷ []
  pub first_kept : first == b' ' ≡ false
  pub last_kept : last == b' ' ≡ false

ltrim_lem :
    (blanks w : Bytes) (x : ℕ)
    → AllBlank blanks
    → x == b' ' ≡ false
    → ltrim (blanks ++ x ∷ w) ≡ x ∷ w
unfolding ltrim
ltrim_lem [] w x h k = rw k refl
ltrim_lem (b ∷ blanks) w x h k = rw h.0 (ltrim_lem blanks w x h.1 k)

-- Ltrim behind Rtrim takes the blanks around a text off, and leaves the text.
pub ltrim-rtrim :
    (before w after : Bytes)
    → IsTrimmed w
    → AllBlank before
    → AllBlank after
    → ltrim (rtrim (before ++ (w ++ after))) ≡ w
unfolding rtrim
ltrim-rtrim before w after t h k =
    let split : before ++ (w ++ after) ≡ (before ++ t.front) ++ t.last ∷ after =
      ap (λ (u : Bytes). before ++ (u ++ after)) t.ends
      ∙ ap (before ++◌) (append_assoc t.front (t.last ∷ []) after)
      ∙ sym (append_assoc before t.front (t.last ∷ after)) in
    let right : rtrim (before ++ (w ++ after)) ≡ before ++ w =
      ap (λ (u : Bytes). rtrim u) split
      ∙ trim_end_lem (λ c. c == b' ') (before ++ t.front) t.last after t.last_kept k
      ∙ append_assoc before t.front (t.last ∷ [])
      ∙ ap (before ++◌) (sym t.ends) in
    ap ltrim right
    ∙ ap (λ (u : Bytes). ltrim (before ++ u)) t.begins
    ∙ ltrim_lem before t.behind t.first h t.first_kept
    ∙ sym t.begins

-- The name and the value of a line, as the loader wants them.
pub record IsEntry (name value : Bytes) : Type 0 where
  pub name_trimmed : IsTrimmed name
  pub value_trimmed : IsTrimmed value
  pub name_read : is_skipped name_trimmed.first ≡ false
  pub no_section : name_trimmed.first == b'[' ≡ false
  pub no_equals : All (λ c. c == b'=' ≡ false) name
  pub value_kept : is_line_end value_trimmed.last ≡ false

blank-no_equals : (s : Bytes) → AllBlank s → All (λ c. c == b'=' ≡ false) s
blank-no_equals [] h = tt
blank-no_equals (c ∷ s) h = (ground (arith, h.0), blank-no_equals s h.1)

module _ (name value before after blanks : Bytes) (e : IsEntry name value) (h : AllBlank before)
    (k : AllBlank after) where
  line_of : Bytes → Bytes
  line_of u = ((u ++ before) ++ b'=' ∷ (after ++ value)) ++ blanks

  load_line-entry :
      All (λ b. is_line_end b ≡ true) blanks
      → load_line (line_of name) ≡ some (name ++ before, after ++ value)
  unfolding line_of
  load_line-entry all_blank =
      let n = e.name_trimmed in
      let v = e.value_trimmed in
      let whole = n.first ∷ n.behind ++ before in
      let no_equals : All (λ c. c == b'=' ≡ false) whole =
        All-append _ (n.first ∷ n.behind) before
          (subst (All (λ c. c == b'=' ≡ false)) n.begins e.no_equals) (blank-no_equals before h) in
      let ends : whole ++ b'=' ∷ (after ++ value)
          ≡ (whole ++ b'=' ∷ (after ++ v.front)) ++ v.last ∷ [] =
        ap (λ (u : Bytes). whole ++ b'=' ∷ (after ++ u)) v.ends
        ∙ ap (λ (u : Bytes). whole ++ b'=' ∷ u) (sym (append_assoc after v.front (v.last ∷ [])))
        ∙ sym (append_assoc whole (b'=' ∷ (after ++ v.front)) (v.last ∷ [])) in
      subst (λ (u : Bytes). load_line (line_of u) ≡ some (u ++ before, after ++ value))
        (sym n.begins)
        (load_line_lem n.first (n.behind ++ before) (after ++ value)
          (whole ++ b'=' ∷ (after ++ v.front)) blanks v.last e.name_read e.no_section no_equals ends
          e.value_kept all_blank)

  store_item-entry :
      length (name ++ before) < 50
      → store_item (name ++ before) (after ++ value)
        ≡ item (record { item_name = name; item_content = value })
  unfolding store_item
  store_item-entry short =
      let fits : leb 50 (length (name ++ before)) ≡ false = ground (arith, short) in
      let left : ltrim (rtrim (name ++ before)) ≡ name =
        ltrim-rtrim [] name before e.name_trimmed tt h in
      let right : ltrim (rtrim (after ++ value)) ≡ value =
        ap (λ (u : Bytes). ltrim (rtrim (after ++ u))) (sym (append-nil value))
        ∙ ltrim-rtrim after value [] e.value_trimmed k tt in
      rw fits (ap₂ (λ (a b : Bytes). item (record { item_name = a; item_content = b })) left right)

-- A line with a name, an `=` and a value, with blanks around the `=`, and blanks and line ends
-- behind the value, gives the item with that name and that value: if the name, with the blanks
-- behind it, is shorter than ItemName, the name holds no `=`, its first character does not make
-- the line a comment or a section, and neither text begins or ends with a blank or a line end.
pub load_item_lem :
    (name value before after blanks : Bytes)
    → IsEntry name value
    → AllBlank before
    → AllBlank after
    → All (λ b. is_line_end b ≡ true) blanks
    → length (name ++ before) < 50
    → load_item (((name ++ before) ++ b'=' ∷ (after ++ value)) ++ blanks)
      ≡ item (record { item_name = name; item_content = value })
unfolding load_item line_of
load_item_lem name value before after blanks e h k all_blank short =
    rw (load_line-entry name value before after blanks e h k all_blank, load_item)
      (store_item-entry name value before after blanks e h k short)

-- GetString gives the value of the first item that has the name, in either case of its letters.
pub get_string_lem :
    (before after : List ConfItem) (i : ConfItem) (name : Bytes)
    → All (λ j. equals_nocase j.item_name name ≡ false) before
    → equals_nocase i.item_name name ≡ true
    → get_string (before ++ i ∷ after) name ≡ some i.item_content
unfolding get_string
get_string_lem [] after i name h k = rw k refl
get_string_lem (j ∷ before) after i name h k = rw h.0 (get_string_lem before after i name h.1 k)
