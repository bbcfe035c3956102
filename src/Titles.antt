-- ===== src/Titles.antt =====
-- The titles of the processes: nginx/app/ngx_setproctitle.cxx, the sizes that main of
-- nginx/app/nginx.cxx takes for them, and the master's title in nginx/proc/ngx_process_cycle.cxx.
-- The operating system puts the argument strings and then the environment strings one behind the
-- other in memory; `region` is that memory, and `env_mem` the block at gp_envmem.
pub mod Environment
use cnginx.Common.{
  ℕ, ◌+◌, ◌-◌, Bool, ltb, leb, if◌then◌else◌, Option, none, some, List, [], ◌∷◌, ◌++◌, length, drop,
  replicate,
}
use cnginx.Common.Memory.{Bytes, write_at}

-- `for(i = 0; i < argc; i++) g_argvneedmem += strlen(argv[i]) + 1`, and the same for environ
unfoldable pub need_loop : ℕ → List Bytes → ℕ
need_loop need [] = need
need_loop need (s ∷ ss) = need_loop (need + (length s + 1)) ss

-- A string with its NUL.
abbrev pub with_nul : Bytes → Bytes
with_nul s = s ++ 0 ∷ []

pub record Copied : Type 0 where
  pub env_mem : Bytes
  pub environ : List ℕ

-- The loop of ngx_init_setproctitle from `ptmp` on: the block, and where the strings are in it.
unfoldable pub copy_loop : ℕ → List Bytes → Bytes → Copied
copy_loop ptmp [] env_mem = record { env_mem = env_mem; environ = [] }
copy_loop ptmp (s ∷ ss) env_mem =
    let rest = copy_loop (ptmp + (length s + 1)) ss (write_at ptmp (with_nul s) env_mem) in
    record { env_mem = rest.env_mem; environ = ptmp ∷ rest.environ }

-- ngx_init_setproctitle
unfoldable pub init_setproctitle : List Bytes → Copied
unfolding need_loop copy_loop
init_setproctitle strings = copy_loop 0 strings (replicate (need_loop 0 strings) 0)

-- ngx_setproctitle on the region of `esy` characters: strcpy, then memset behind the title.
-- The pointer g_os_argv[1], which it also clears, is not in the region.
unfoldable pub setproctitle : ℕ → Bytes → Bytes → Bytes
setproctitle esy title region =
    let len = length title in
    if leb esy len
    then region
    else write_at len (replicate (esy - len) 0) (write_at 0 (with_nul title) region)

-- "master process"
abbrev pub master_process : Bytes
master_process =
    b'm' ∷ b'a' ∷ b's' ∷ b't' ∷ b'e' ∷ b'r' ∷ b' ' ∷ b'p' ∷ b'r' ∷ b'o' ∷ b'c' ∷ b'e' ∷ b's' ∷ b's'
    ∷ []

-- The loop of strcat over g_os_argv
unfoldable pub concat_loop : Bytes → List Bytes → Bytes
concat_loop title [] = title
concat_loop title (s ∷ ss) = concat_loop (title ++ s) ss

-- The title that ngx_master_process_cycle builds in an array of 1000 characters, if it does; the
-- size of master_process counts its NUL.
unfoldable pub master_title : List Bytes → Option Bytes
unfolding need_loop concat_loop
master_title argv =
    if ltb (length (with_nul master_process) + need_loop 0 argv) 1000
    then some (concat_loop (master_process ++ b' ' ∷ []) argv)
    else none
