-- ===== src/Examples/Configs.antt =====
-- A file of the machine with a comment and an option given twice, and a file of the user.
use distadm.Prelude.{ℕ, ◌≡◌, refl, true, false, some, List, [], ◌∷◌, ◌++◌, bytes}
use distadm.Params.{OptionCode, Params, Action, act, parse_params}
use distadm.Config.{Config, TextKey}
use distadm.Config.Keys.{name_of, text_of}
use distadm.Config.Names.{views, ifname}
use distadm.Config.Load.{lines, load_common, load_home, set_packet_file}
use distadm.Config.Last.{last_value, text_of-load_common}
use distadm.Config.Saved.{load_home-set_packet_file}

abbrev start : Config
start = record {
  listen = [];
  listen_specified = false;
  port = 13132;
  files_granularity = 18446744073709551615;
  chk_free_space = true;
  av_scan_date_file_date = [];
  av_scan_date_file = [];
  av_scan_date_exec = [];
  av_update_date_file_date = [];
  av_update_date_file = [];
  av_update_date_exec = [];
  av_results_file = bytes "/old";
  packet_file = [];
  workdir_str = bytes "/var/lib";
  filesdir_str = bytes "/var/lib/files";
  tmpfilesdir_str = bytes "/var/lib/tmp";
}

abbrev file : List ℕ
file =
    bytes "# antivirus-results-file /x\n"
    ++ bytes "antivirus-results-file /a\nport 99\n"
    ++ bytes "antivirus-results-file /b\nstrange 1\n"

text_of-load_common_example :
    text_of TextKey.results_file (load_common (some file) start).0
    ≡ last_value (name_of TextKey.results_file) (lines file) (text_of TextKey.results_file start)
text_of-load_common_example = text_of-load_common TextKey.results_file file start

test_results_file : (load_common (some file) start).0.av_results_file ≡ bytes "/b"
unfolding load_common
test_results_file = refl

test_port : (load_common (some file) start).0.port ≡ 99
unfolding load_common
test_port = refl

-- The first of two interfaces keeps what follows it in the line.
test_listen :
    (load_common (some (bytes "listen eth0 lo")) start).0.listen ≡ bytes "eth0 lo" ∷ bytes "lo" ∷ []
unfolding load_common views ifname
test_listen = refl

-- The disk check is off, but the line is reported.
test_free_space : (load_common (some (bytes "check-free-space no")) start).0.chk_free_space ≡ false
unfolding load_common
test_free_space = refl

no_choice : (load_home (some []) start).packet_file ≡ start.packet_file
unfolding load_home
no_choice = refl

load_home-set_packet_file_example :
    ((load_home (set_packet_file true (bytes "/b c") start (some [])).1 start).packet_file
      ≡ bytes "/b c")
    × ((set_packet_file true (bytes "/b c") start (some [])).0.packet_file ≡ bytes "/b c")
load_home-set_packet_file_example =
    load_home-set_packet_file (bytes "/b c") start start (some [])
      (refl, (refl, (refl, (refl, tt)))) refl no_choice

abbrev unset : Params
unset = record {
  start_daemon = false;
  init_network = false;
  show_info = false;
  textmode = false;
  group_id_file = [];
  config_filename = bytes "/etc/distadm.cfg";
  force_yes = false;
  print_debug = false;
}

-- `distadm -v -d` runs the daemon.
test_daemon :
    parse_params true [] (OptionCode.verbose ∷ OptionCode.run_daemon ∷ []) unset
    ≡ Action.runs_daemon (record unset { start_daemon = true; print_debug = true })
unfolding parse_params act
test_daemon = refl
