-- ===== src/Avb/Command.antt =====
-- The command line of verify/avb_main.c. getopt, avb_verify and avb_hash_desc are parameters.
use openvela_frameworks_syst.Prelude.{
  ℕ, zero, ◌+◌, ◌≡◌, refl, ap, ◌∙◌, Bool, true, false, ◌||◌, ◌&&◌, Option, String, List, [], ◌∷◌,
  length, ltb, get_elem?, if◌then◌else◌,
}
use openvela_frameworks_syst.Prelude.Int.{ℤ, pos}

-- The options b, c, i, h and I; `unknown` is any other answer of getopt but -1.
pub data Choice : Type 0 where
  boot check ignore_error help info unknown : Choice

-- The AvbSlotVerifyFlags that the program sets: -c sets the first two, -i the last.
pub record Flags : Type 0 where
  pub not_allow_same_rollback_index : Bool
  pub not_update_rollback_index : Bool
  pub allow_rollback_index_error : Bool

abbrev pub no_flags : Flags
no_flags = record {
  not_allow_same_rollback_index = false;
  not_update_rollback_index = false;
  allow_rollback_index_error = false;
}

abbrev pub is_zero : ℤ → Bool
is_zero (pos zero) = true
is_zero n = false

-- A null pointer behind the last argument is `none`.
module _ (avb_verify : Option String → Option String → Option String → Flags → ℤ)
    (avb_hash_desc : Option String → ℤ) where
  -- `main` behind the loop over the options.
  abbrev pub verify_operands : ℕ → List String → Flags → ℤ
  verify_operands optind argv flags =
      if ltb (length argv) (optind + 2)
      then pos 100
      else avb_verify (get_elem? argv optind) (get_elem? argv (optind + 1))
          (get_elem? argv (optind + 2)) flags

  -- The option I, with optind behind it.
  abbrev pub show_info : ℕ → List String → ℤ
  show_info optind argv =
      if ltb (length argv) (optind + 2)
      then pos 100
      else if is_zero (avb_hash_desc (get_elem? argv (optind + 1)))
      then pos 0
      else pos 1

  -- `main` for the answers of getopt that are left, each with optind behind it, and optind at the
  -- end.
  unfoldable pub main : List (Choice × ℕ) → ℕ → List String → Flags → ℤ
  main [] optind argv flags = verify_operands optind argv flags
  main ((boot, at) ∷ choices) optind argv flags = main choices optind argv flags
  main ((check, at) ∷ choices) optind argv flags =
      main choices optind argv
        (record flags { not_allow_same_rollback_index = true; not_update_rollback_index = true })
  main ((ignore_error, at) ∷ choices) optind argv flags =
      main choices optind argv (record flags { allow_rollback_index_error = true })
  main ((help, at) ∷ choices) optind argv flags = pos 0
  main ((info, at) ∷ choices) optind argv flags = show_info at argv
  main ((unknown, at) ∷ choices) optind argv flags = pos 10

abbrev pub is_check : Choice → Bool
is_check check = true
is_check _ = false

abbrev pub is_ignore : Choice → Bool
is_ignore ignore_error = true
is_ignore _ = false

-- The options after which the loop goes on.
abbrev goes_on : Choice → Bool
goes_on boot = true
goes_on check = true
goes_on ignore_error = true
goes_on _ = false

-- Some option of the list is of a kind, or all are.
abbrev pub given : (Choice → Bool) → List (Choice × ℕ) → Bool
given f [] = false
given f ((c, at) ∷ choices) = f c || given f choices

abbrev pub all_go_on : List (Choice × ℕ) → Bool
all_go_on [] = true
all_go_on ((c, at) ∷ choices) = goes_on c && all_go_on choices

-- What the options stand for, in any order and number.
abbrev pub options_flags : List (Choice × ℕ) → Flags → Flags
options_flags choices flags = record {
  not_allow_same_rollback_index = flags.not_allow_same_rollback_index || given is_check choices;
  not_update_rollback_index = flags.not_update_rollback_index || given is_check choices;
  allow_rollback_index_error = flags.allow_rollback_index_error || given is_ignore choices;
}

or_true : (b : Bool) → true ≡ (b || true)
or_true true = refl
or_true false = refl

or_false : (b : Bool) → b ≡ (b || false)
or_false true = refl
or_false false = refl

no_options : (flags : Flags) → flags ≡ options_flags [] flags
no_options flags i = record {
  not_allow_same_rollback_index = or_false flags.not_allow_same_rollback_index i;
  not_update_rollback_index = or_false flags.not_update_rollback_index i;
  allow_rollback_index_error = or_false flags.allow_rollback_index_error i;
}

check_flags :
    (at : ℕ) (choices : List (Choice × ℕ)) (flags : Flags)
    → options_flags choices
        (record flags { not_allow_same_rollback_index = true; not_update_rollback_index = true })
      ≡ options_flags ((check, at) ∷ choices) flags
check_flags at choices flags i = record {
  not_allow_same_rollback_index = or_true flags.not_allow_same_rollback_index i;
  not_update_rollback_index = or_true flags.not_update_rollback_index i;
  allow_rollback_index_error = flags.allow_rollback_index_error || given is_ignore choices;
}

ignore_flags :
    (at : ℕ) (choices : List (Choice × ℕ)) (flags : Flags)
    → options_flags choices (record flags { allow_rollback_index_error = true })
      ≡ options_flags ((ignore_error, at) ∷ choices) flags
ignore_flags at choices flags i = record {
  not_allow_same_rollback_index = flags.not_allow_same_rollback_index || given is_check choices;
  not_update_rollback_index = flags.not_update_rollback_index || given is_check choices;
  allow_rollback_index_error = or_true flags.allow_rollback_index_error i;
}

module _ (avb_verify : Option String → Option String → Option String → Flags → ℤ)
    (avb_hash_desc : Option String → ℤ) where
  choices_verify :
      (choices : List (Choice × ℕ)) (optind : ℕ) (argv : List String) (flags : Flags)
      → all_go_on choices ≡ true
      → main avb_verify avb_hash_desc choices optind argv flags
        ≡ verify_operands avb_verify avb_hash_desc optind argv (options_flags choices flags)
  unfolding main
  choices_verify [] optind argv flags fine =
      ap (verify_operands avb_verify avb_hash_desc optind argv) (no_options flags)
  choices_verify ((boot, at) ∷ choices) optind argv flags fine =
      choices_verify choices optind argv flags fine
  choices_verify ((check, at) ∷ choices) optind argv flags fine =
      choices_verify choices optind argv _ fine
      ∙ ap (verify_operands avb_verify avb_hash_desc optind argv) (check_flags at choices flags)
  choices_verify ((ignore_error, at) ∷ choices) optind argv flags fine =
      choices_verify choices optind argv _ fine
      ∙ ap (verify_operands avb_verify avb_hash_desc optind argv) (ignore_flags at choices flags)
  choices_verify ((help, at) ∷ choices) optind argv flags fine = absurd (cc)
  choices_verify ((info, at) ∷ choices) optind argv flags fine = absurd (cc)
  choices_verify ((unknown, at) ∷ choices) optind argv flags fine = absurd (cc)

  -- For options b, c and i alone, in any order and number: `main` calls avb_verify with the two
  -- operands and the suffix behind them, if there are two operands, and otherwise returns 100; the
  -- call must not allow the same rollback index nor update it just where -c is given, and allows an
  -- error of the index just where -i is.
  main_verifies :
      (choices : List (Choice × ℕ)) (optind : ℕ) (argv : List String)
      → all_go_on choices ≡ true
      → main avb_verify avb_hash_desc choices optind argv no_flags
        ≡ verify_operands avb_verify avb_hash_desc optind argv (record {
          not_allow_same_rollback_index = given is_check choices;
          not_update_rollback_index = given is_check choices;
          allow_rollback_index_error = given is_ignore choices;
        })
  main_verifies choices optind argv fine = choices_verify choices optind argv no_flags fine
