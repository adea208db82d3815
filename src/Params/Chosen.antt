-- ===== src/Params/Chosen.antt =====
-- The order of the options does not matter but where two name a file.
use distadm.Prelude.{ℕ, ◌≡◌, refl, ap, ◌∙◌, Bool, true, false, List, [], ◌∷◌, ◌||◌}
use distadm.Params.{OptionCode, Params, act, parse_params}

-- Whether an option asks for something, by the code of the option
abbrev any : (OptionCode → Bool) → List OptionCode → Bool
any asks [] = false
any asks (o ∷ more) = asks o || any asks more

abbrev is_daemon : OptionCode → Bool
is_daemon OptionCode.run_daemon = true
is_daemon o = false

abbrev is_initialize : OptionCode → Bool
is_initialize OptionCode.initialize = true
is_initialize o = false

abbrev is_info : OptionCode → Bool
is_info OptionCode.info = true
is_info o = false

abbrev is_text : OptionCode → Bool
is_text OptionCode.text = true
is_text o = false

abbrev is_forced : OptionCode → Bool
is_forced OptionCode.force = true
is_forced o = false

abbrev is_verbose : OptionCode → Bool
is_verbose OptionCode.verbose = true
is_verbose o = false

-- The file of the last option that names one
abbrev last_join : List OptionCode → List ℕ → List ℕ
last_join [] old = old
last_join (OptionCode.join file ∷ more) old = last_join more file
last_join (o ∷ more) old = last_join more old

abbrev last_config : List OptionCode → List ℕ → List ℕ
last_config [] old = old
last_config (OptionCode.config file ∷ more) old = last_config more file
last_config (o ∷ more) old = last_config more old

-- What the options ask for together
abbrev asked : List OptionCode → Params → Params
asked opts p = record {
  start_daemon = any is_daemon opts || p.start_daemon;
  init_network = any is_initialize opts || p.init_network;
  show_info = any is_info opts || p.show_info;
  textmode = any is_text opts || p.textmode;
  group_id_file = last_join opts p.group_id_file;
  config_filename = last_config opts p.config_filename;
  force_yes = any is_forced opts || p.force_yes;
  print_debug = any is_verbose opts || p.print_debug;
}

-- No option ends the program at once.
abbrev IsPlain : List OptionCode → Type 0
IsPlain [] = Unit
IsPlain (OptionCode.help ∷ more) = ⊥
IsPlain (OptionCode.version ∷ more) = ⊥
IsPlain (OptionCode.unknown ∷ more) = ⊥
IsPlain (o ∷ more) = IsPlain more

or_true : (a : Bool) → a || true ≡ true
or_true true = refl
or_true false = refl

-- Where no option asks for help or is unknown, the program does what the options ask for together: a flag
-- is set if it stands anywhere, and of the files that are named for a purpose the last one counts.
parse_params_lem :
    (has_x : Bool) (cmd : List (List ℕ)) (opts : List OptionCode) (p : Params)
    → IsPlain opts
    → parse_params has_x cmd opts p ≡ act has_x cmd (asked opts p)
unfolding parse_params
parse_params_lem has_x cmd [] p h = refl
parse_params_lem has_x cmd (OptionCode.help ∷ more) p h = absurd h
parse_params_lem has_x cmd (OptionCode.version ∷ more) p h = absurd h
parse_params_lem has_x cmd (OptionCode.unknown ∷ more) p h = absurd h
parse_params_lem has_x cmd (OptionCode.verbose ∷ more) p h =
    parse_params_lem has_x cmd more (record p { print_debug = true }) h
    ∙ ap (λ b. act has_x cmd (record (asked more p) { print_debug = b }))
        (or_true (any is_verbose more))
parse_params_lem has_x cmd (OptionCode.initialize ∷ more) p h =
    parse_params_lem has_x cmd more (record p { init_network = true }) h
    ∙ ap (λ b. act has_x cmd (record (asked more p) { init_network = b }))
        (or_true (any is_initialize more))
parse_params_lem has_x cmd (OptionCode.run_daemon ∷ more) p h =
    parse_params_lem has_x cmd more (record p { start_daemon = true }) h
    ∙ ap (λ b. act has_x cmd (record (asked more p) { start_daemon = b }))
        (or_true (any is_daemon more))
parse_params_lem has_x cmd (OptionCode.info ∷ more) p h =
    parse_params_lem has_x cmd more (record p { show_info = true }) h
    ∙ ap (λ b. act has_x cmd (record (asked more p) { show_info = b })) (or_true (any is_info more))
parse_params_lem has_x cmd (OptionCode.text ∷ more) p h =
    parse_params_lem has_x cmd more (record p { textmode = true }) h
    ∙ ap (λ b. act has_x cmd (record (asked more p) { textmode = b })) (or_true (any is_text more))
parse_params_lem has_x cmd (OptionCode.force ∷ more) p h =
    parse_params_lem has_x cmd more (record p { force_yes = true }) h
    ∙ ap (λ b. act has_x cmd (record (asked more p) { force_yes = b }))
        (or_true (any is_forced more))
parse_params_lem has_x cmd (OptionCode.config file ∷ more) p h =
    parse_params_lem has_x cmd more (record p { config_filename = file }) h
parse_params_lem has_x cmd (OptionCode.join file ∷ more) p h =
    parse_params_lem has_x cmd more (record p { group_id_file = file }) h
