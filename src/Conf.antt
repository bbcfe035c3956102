-- ===== src/Conf.antt =====
-- nginx/app/ngx_string.cxx and nginx/app/ngx_c_conf.cxx: the trims, how CConfig::Load cuts a
-- line of the configuration into a name and a value, and the look-up by name. A string is the
-- list of its characters in front of the NUL.
pub mod Lines
pub mod Items
pub mod File
use cnginx.Common.{
  ℕ, zero, suc, ◌+◌, ◌-◌, Bool, true, false, ◌==◌, ◌&&◌, ◌||◌, leb, if◌then◌else◌, Option, none,
  some, List, [], ◌∷◌, ◌++◌, length, take, get_or, map,
}
use cnginx.Common.Int.{ℤ}
use cnginx.Common.Memory.{Bytes}

-- `while(len > 0 && string[len-1] ...) string[--len] = 0`, for a test of the last character
unfoldable pub trim_end : (ℕ → Bool) → Bytes → ℕ → Bytes
trim_end test string zero = []
trim_end test string (suc len) =
    let rest = trim_end test string len in
    if test (get_or string len 0) then rest else take (suc len) string

-- Rtrim
unfoldable pub rtrim : Bytes → Bytes
unfolding trim_end
rtrim string = trim_end (λ c. c == b' ') string (length string)

-- Ltrim: what p_tmp comes to, copied to the front.
unfoldable pub ltrim : Bytes → Bytes
ltrim [] = []
ltrim (c ∷ cs) = if c == b' ' then ltrim cs else c ∷ cs

-- The characters that the loop at lblprocstring takes off the line's end.
abbrev pub is_line_end : ℕ → Bool
is_line_end c = (c == 10 || c == 13) || c == 32

-- The lines that are skipped by their first character.
abbrev pub is_skipped : ℕ → Bool
is_skipped c = (((c == b';' || c == b' ') || c == b'#') || c == 9) || c == 10

-- strchr(linebuf,'=') with the two strings that it separates.
unfoldable pub cut_at_equals : Bytes → Option (Bytes × Bytes)
cut_at_equals [] = none
cut_at_equals (c ∷ cs) =
    let later = cut_at_equals cs in
    if c == b'='
    then some ([], cs)
    else elim later [ none ↦ none | some (name, content) ↦ some (c ∷ name, content) ]

-- The tests behind lblprocstring.
unfoldable pub cut_stripped : Bytes → Option (Bytes × Bytes)
unfolding cut_at_equals
cut_stripped [] = none
cut_stripped (c ∷ cs) = if c == b'[' then none else cut_at_equals (c ∷ cs)

-- The body of the loop of CConfig::Load on the line that fgets gives: what is copied to ItemName
-- and to ItemContent, or none if the line gives no item.
unfoldable pub load_line : Bytes → Option (Bytes × Bytes)
unfolding cut_stripped trim_end
load_line [] = none
load_line (c ∷ cs) =
    if is_skipped c then none else cut_stripped (trim_end is_line_end (c ∷ cs) (length (c ∷ cs)))

-- CConfItem
pub record ConfItem : Type 0 where
  pub item_name : Bytes
  pub item_content : Bytes

-- What a line adds to m_ConfigItemList. A name that does not fit in ItemName[50] is written past
-- it, and what becomes of it is not followed.
pub data Loaded : Type 0 where
  no_item : Loaded
  item : ConfItem → Loaded
  overflow : Loaded

-- strncpy, strcpy and the four trims, into a zeroed CConfItem
unfoldable pub store_item : Bytes → Bytes → Loaded
unfolding rtrim ltrim
store_item name content =
    if leb 50 (length name)
    then overflow
    else item (record { item_name = ltrim (rtrim name); item_content = ltrim (rtrim content) })

unfoldable pub load_item : Bytes → Loaded
unfolding load_line store_item
load_item line = elim (load_line line) [
  | none ↦ no_item
  | some (name, content) ↦ store_item name content
]

-- tolower() on one character, and strcasecmp() == 0
abbrev pub to_lower : ℕ → ℕ
to_lower c = if leb b'A' c && leb c b'Z' then c + 32 else c

unfoldable pub equals_nocase : Bytes → Bytes → Bool
equals_nocase [] [] = true
equals_nocase [] (d ∷ ds) = false
equals_nocase (c ∷ cs) [] = false
equals_nocase (c ∷ cs) (d ∷ ds) = to_lower c == to_lower d && equals_nocase cs ds

-- CConfig::GetString; a null pointer is none.
unfoldable pub get_string : List ConfItem → Bytes → Option Bytes
unfolding equals_nocase
get_string [] name = none
get_string (i ∷ items) name =
    let later = get_string items name in
    if equals_nocase i.item_name name then some i.item_content else later

-- The lines that fgets(linebuf,500,fp) gives one after the other, from the middle of a line `line`
-- with `room` characters left: up to a newline, or 499 characters. At the file's end fgets gives
-- what there is of a line, and then NULL, for which the loop goes on to its test.
unfoldable pub lines_from : ℕ → Bytes → Bytes → List Bytes
lines_from room [] [] = []
lines_from room (d ∷ line) [] = (d ∷ line) ∷ []
lines_from room line (c ∷ cs) =
    let next = lines_from 499 [] cs in
    let more = lines_from (room - 1) (line ++ c ∷ []) cs in
    if c == 10 || room == 1 then (line ++ c ∷ []) ∷ next else more

-- What Load comes to: false, or the items, or a name written past ItemName.
pub data LoadResult : Type 0 where
  no_file : LoadResult
  items : List ConfItem → LoadResult
  overflowed : LoadResult

-- m_ConfigItemList.push_back in front of what the lines behind it give.
abbrev pub add_item : Loaded → LoadResult → LoadResult
add_item overflow rest = overflowed
add_item no_item rest = rest
add_item (item i) no_file = no_file
add_item (item i) overflowed = overflowed
add_item (item i) (items is) = items (i ∷ is)

-- `while(!feof(fp))` on the lines
unfoldable pub load_lines : List Bytes → LoadResult
unfolding load_item
load_lines [] = items []
load_lines (line ∷ lines) = add_item (load_item line) (load_lines lines)

-- CConfig::Load on the file's characters, or on a file that cannot be opened.
unfoldable pub load_file : Option Bytes → LoadResult
unfolding load_lines lines_from
load_file none = no_file
load_file (some content) = load_lines (lines_from 499 [] content)

-- CConfig::GetIntDefault; `atoi` is libc's.
unfoldable pub get_int_default : (Bytes → ℤ) → List ConfItem → Bytes → ℤ → ℤ
unfolding equals_nocase
get_int_default atoi [] name def = def
get_int_default atoi (i ∷ is) name def =
    let later = get_int_default atoi is name def in
    if equals_nocase i.item_name name then atoi i.item_content else later
