-- ===== src/Tests/Config.antt =====
-- The configuration at concrete inputs.
use cnginx.Common.{ℕ, ◌+◌, ◌<◌, ◌≡◌, refl, arith, true, some, [], ◌∷◌, length}
use cnginx.Common.Int.{ℤ, pos, pos_part}
use cnginx.Conf.File.{IsLine, load_file_lem}
use cnginx.Ports.{Settings, PortAnswers, initialize, open_listening_sockets, ports_loop, read_conf}
use cnginx.Ports.Opening.{AllOpen, initialize_lem}
use cnginx.Common.Memory.{Bytes}
use cnginx.Conf.{get_string, equals_nocase, load_file, items, get_int_default}
use cnginx.Conf.Items.{IsTrimmed, get_string_lem}

-- "Ab" and "7"
abbrev pub name : Bytes
name = 65 ∷ 98 ∷ []

abbrev pub value : Bytes
value = 55 ∷ []

abbrev name_trim : IsTrimmed name
name_trim = record {
  first = 65;
  behind = 98 ∷ [];
  front = 65 ∷ [];
  last = 98;
  begins = refl;
  ends = refl;
  first_kept = refl;
  last_kept = refl;
}

abbrev value_trim : IsTrimmed value
value_trim = record {
  first = 55;
  behind = [];
  front = [];
  last = 55;
  begins = refl;
  ends = refl;
  first_kept = refl;
  last_kept = refl;
}

-- "ab" is looked up behind an item of another name.
get_string_lem_example :
    get_string
      (record { item_name = value; item_content = [] }
        ∷ record { item_name = name; item_content = value }
        ∷ [])
      (97 ∷ 98 ∷ [])
    ≡ some value
unfolding equals_nocase
get_string_lem_example =
    get_string_lem (record { item_name = value; item_content = [] } ∷ []) []
      (record { item_name = name; item_content = value }) (97 ∷ 98 ∷ []) (refl, tt) refl

-- "Ab=7\n"
pub entry : IsLine (record { item_name = name; item_content = value })
entry = record {
  entry = record {
    name_trimmed = name_trim;
    value_trimmed = value_trim;
    name_read = refl;
    no_section = refl;
    no_equals = (refl, (refl, tt));
    value_kept = refl;
  };
  short = omega arith;
  one_line = (refl, (refl, (refl, (refl, tt))));
  fits = omega arith;
}

load_file_lem_example :
    load_file (some (65 ∷ 98 ∷ 61 ∷ 55 ∷ 10 ∷ []))
    ≡ items (record { item_name = name; item_content = value } ∷ [])
load_file_lem_example =
    load_file_lem (record { item_name = name; item_content = value } ∷ []) (entry, tt)

-- Two ports, whose calls all succeed.
abbrev two_ports : Settings
two_ports = record {
  worker_connections = pos 1;
  listen_port_count = pos 2;
  recy_connection_wait_time = pos 60;
}

abbrev ports : ℕ → PortAnswers
ports i = record {
  descriptor = some (i + 5);
  option_ok = true;
  nonblock_ok = true;
  bind_ok = true;
  listen_ok = true;
}

abbrev as_zero : Bytes → ℤ
as_zero s = pos 0

abbrev no_digits : ℕ → Bytes
no_digits n = []

initialize_lem_example :
    let (t, r) = initialize as_zero no_digits [] ports two_ports in
    AllOpen as_zero no_digits [] ports (pos_part t.listen_port_count) 0 r.listen_socket_list
    × (0 < length r.listen_socket_list)
unfolding initialize open_listening_sockets ports_loop read_conf get_int_default
initialize_lem_example = initialize_lem as_zero no_digits [] ports two_ports refl
