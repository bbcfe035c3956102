-- ===== src/Conf/File.antt =====
-- A whole configuration file (nginx/app/ngx_c_conf.cxx, lines 28 to 84): what is written as lines of
-- names and values is read back.
use cnginx.Common.{
  ℕ, ◌-◌, ◌<◌, ◌≡◌, refl, sym, ap, ap₂, ◌∙◌, arith, false, ◌==◌, some, List, [], ◌∷◌, ◌++◌, length,
  All, append_assoc, append-nil, Bool-cases, inl, inr, none,
}
use cnginx.Common.Memory.{Bytes}
use cnginx.Common.Int.{ℤ}
use cnginx.Conf.{
  ConfItem, item, load_item, lines_from, load_lines, load_file, items, add_item, get_int_default,
  get_string, equals_nocase,
}
use cnginx.Conf.Items.{IsEntry, load_item_lem}

-- A line that ends with a newline, where fgets has room for all of it.
lines_from-line :
    (room : ℕ) (front l cs : Bytes)
    → All (λ c. c == 10 ≡ false) l
    → length l < room
    → lines_from room front (l ++ 10 ∷ cs) ≡ (front ++ (l ++ 10 ∷ [])) ∷ lines_from 499 [] cs
unfolding lines_from
lines_from-line room front [] cs v h = refl
lines_from-line room front (c ∷ l) cs (v, vs) h =
    let more : room == 1 ≡ false = ground arith in
    rw (v, more)
      (lines_from-line (room - 1) (front ++ c ∷ []) l cs vs (omega arith)
        ∙ ap (λ (t : Bytes). t ∷ lines_from 499 [] cs) (append_assoc front (c ∷ []) (l ++ 10 ∷ [])))

-- A name and a value as they are written, and the line that they make.
abbrev pub text_of : ConfItem → Bytes
text_of i = i.item_name ++ b'=' ∷ i.item_content

abbrev pub file_of : List ConfItem → Bytes
file_of [] = []
file_of (i ∷ is) = text_of i ++ 10 ∷ file_of is

-- The line holds no newline but its own, fits in linebuf, and its name in ItemName.
pub record IsLine (i : ConfItem) : Type 0 where
  pub entry : IsEntry i.item_name i.item_content
  pub short : length i.item_name < 50
  pub one_line : All (λ c. c == 10 ≡ false) (text_of i)
  pub fits : length (text_of i) < 499

load_item-line : (i : ConfItem) → IsLine i → load_item (text_of i ++ 10 ∷ []) ≡ item i
load_item-line i v =
    ap (λ (n : Bytes). load_item ((n ++ b'=' ∷ i.item_content) ++ 10 ∷ []))
      (sym (append-nil i.item_name))
    ∙ load_item_lem i.item_name i.item_content [] [] (10 ∷ []) v.entry tt tt (refl, tt)
        (omega (arith, v.short, ap length (append-nil i.item_name)))

load_lines-file :
    (is : List ConfItem) → All IsLine is → load_lines (lines_from 499 [] (file_of is)) ≡ items is
unfolding load_lines lines_from
load_lines-file [] v = refl
load_lines-file (i ∷ is) (v, vs) =
    ap (λ (ls : List Bytes). load_lines ls)
      (lines_from-line 499 [] (text_of i) (file_of is) v.one_line v.fits)
    ∙ ap₂ add_item (load_item-line i v) (load_lines-file is vs)

-- A file with a line `name=value` for each of a list of items is loaded as that list: if each line
-- has no newline but its own and at most 499 characters, each name has fewer than 50, and the names
-- and the values are such as a single line wants them (Conf.Items).
pub load_file_lem : (is : List ConfItem) → All IsLine is → load_file (some (file_of is)) ≡ items is
unfolding load_file
load_file_lem is v = load_lines-file is v

-- GetIntDefault reads the value that GetString finds, and gives the default where it finds none.
get_int_default_lem :
    (atoi : Bytes → ℤ) (is : List ConfItem) (name : Bytes) (def : ℤ)
    → get_int_default atoi is name def ≡ elim (get_string is name) [ none ↦ def | some v ↦ atoi v ]
unfolding get_int_default get_string
get_int_default_lem atoi [] name def = refl
get_int_default_lem atoi (i ∷ is) name def = elim (Bool-cases (equals_nocase i.item_name name)) [
  | inl same ↦ rw same refl
  | inr other ↦ rw other (get_int_default_lem atoi is name def)
]
