-- ===== src/Params.antt =====
-- parse_params of main.cpp: what the program does for the options and words of its call. The options are what
-- getopt_long gives, one after another.
pub mod Chosen
use distadm.Prelude.{ℕ, Bool, true, false, not, List, [], ◌∷◌, ◌&&◌, if◌then◌else◌}
use distadm.Text.{is_empty}

pub data OptionCode : Type 0 where
  help version verbose initialize run_daemon info text force unknown : OptionCode
  config join : List ℕ → OptionCode

-- The variables of parse_params, with `config_filename` and `force_yes` of its Config and the global
-- `print_debug`
pub record Params : Type 0 where
  pub start_daemon : Bool
  pub init_network : Bool
  pub show_info : Bool
  pub textmode : Bool
  pub group_id_file : List ℕ
  pub config_filename : List ℕ
  pub force_yes : Bool
  pub print_debug : Bool

pub data Action : Type 0 where
  shows_help shows_version complains : Action
  creates_group runs_daemon shows_info shows_window : Params → Action
  joins_group : Params → List ℕ → Action
  interacts : Params → List (List ℕ) → Action

-- What is done when the options are read
unfoldable pub act : Bool → List (List ℕ) → Params → Action
act has_x cmd p =
    if p.init_network
    then creates_group p
    else if not (is_empty p.group_id_file)
    then joins_group p p.group_id_file
    else if p.start_daemon
    then runs_daemon p
    else if has_x && p.show_info
    then shows_info p
    else elim cmd [
      | [] ↦ if has_x && not p.textmode then shows_window p else interacts p []
      | word ∷ words ↦ interacts p (word ∷ words)
    ]

-- parse_params: the loop over the options, and behind it `act`
unfoldable pub parse_params : Bool → List (List ℕ) → List OptionCode → Params → Action
unfolding act
parse_params has_x cmd [] p = act has_x cmd p
parse_params has_x cmd (help ∷ more) p = shows_help
parse_params has_x cmd (version ∷ more) p = shows_version
parse_params has_x cmd (unknown ∷ more) p = complains
parse_params has_x cmd (verbose ∷ more) p =
    parse_params has_x cmd more (record p { print_debug = true })
parse_params has_x cmd (config optarg ∷ more) p =
    parse_params has_x cmd more (record p { config_filename = optarg })
parse_params has_x cmd (initialize ∷ more) p =
    parse_params has_x cmd more (record p { init_network = true })
parse_params has_x cmd (join optarg ∷ more) p =
    parse_params has_x cmd more (record p { group_id_file = optarg })
parse_params has_x cmd (run_daemon ∷ more) p =
    parse_params has_x cmd more (record p { start_daemon = true })
parse_params has_x cmd (info ∷ more) p = parse_params has_x cmd more (record p { show_info = true })
parse_params has_x cmd (text ∷ more) p = parse_params has_x cmd more (record p { textmode = true })
parse_params has_x cmd (force ∷ more) p =
    parse_params has_x cmd more (record p { force_yes = true })
