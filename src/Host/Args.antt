-- ===== src/Host/Args.antt =====
-- tuya_daemon/args.c and args.h: the command line, parsed by argp.
pub mod Complete
use tuya_daemon.Base.{
  ℕ, Bool, true, false, Option, none, some, List, [], ◌∷◌, String, ◌==◌, if◌then◌else◌,
}
use tuya_daemon.World.{Bytes}

-- `struct Args`; `none` is NULL.
pub record Args : Type 0 where
  pub device_id : Option Bytes
  pub device_secret : Option Bytes
  pub product_id : Option Bytes
  pub become_daemon : Bool

-- The keys that argp passes: an option's letter, or one of its special keys.
pub data Key : Type 0 where
  letter : ℕ → Key
  key_arg key_end key_no_args key_other : Key

pub data ArgpError : Type 0 where
  argp_ok argp_err_unknown : ArgpError

-- What a call of the parser returns, leaves in the arguments, and prints to stderr.
pub record Parsed : Type 0 where
  pub status : ArgpError
  pub arguments : Args
  pub stderr : List String

-- `struct argp_option`, without the documentation: `takes_arg` says that `.arg` is not NULL.
pub record ArgpOption : Type 0 where
  pub name : String
  pub key : ℕ
  pub takes_arg : Bool

abbrev option : String → ℕ → Bool → ArgpOption
option name key takes_arg = record { name = name; key = key; takes_arg = takes_arg }

abbrev pub options : List ArgpOption
options =
    option "dev-id" b'i' true
    ∷ option "dev-secret" b's' true
    ∷ option "product-id" b'p' true
    ∷ option "daemon" b'd' false
    ∷ []

abbrev pub print_help_msg : String
print_help_msg = "Try `%s --help' or `%s --usage' for more information."

abbrev pub accept : Args → Parsed
accept a = record { status = argp_ok; arguments = a; stderr = [] }

abbrev pub refuse : Args → List String → Parsed
refuse a out = record { status = argp_err_unknown; arguments = a; stderr = out }

-- The `case` labels 'i', 's', 'p' and 'd', and the default.
unfoldable pub parse_letter : ℕ → Option Bytes → Args → Parsed
parse_letter c arg a =
    if c == b'i'
    then accept (record a { device_id = arg })
    else if c == b's'
    then accept (record a { device_secret = arg })
    else if c == b'p'
    then accept (record a { product_id = arg })
    else if c == b'd'
    then accept (record a { become_daemon = true })
    else refuse a []

-- `ARGP_KEY_END`: the first argument that is missing is reported.
unfoldable pub check_end : Option Bytes → Option Bytes → Option Bytes → Args → Parsed
check_end none _ _ a = refuse a ("Missing required program option --dev-id\n" ∷ print_help_msg ∷ [])
check_end (some _) none _ a =
    refuse a ("Missing required program option --dev-secret" ∷ print_help_msg ∷ [])
check_end (some _) (some _) none a =
    refuse a ("Missing required program option --product-id" ∷ print_help_msg ∷ [])
check_end (some _) (some _) (some _) a = accept a

unfoldable pub parse_opt : Key → Option Bytes → Args → Parsed
parse_opt (letter c) arg a = parse_letter c arg a
parse_opt key_arg arg a =
    refuse a ("Unrecognized argument: '%s'\nYou can see available options by passing --help\n" ∷ [])
parse_opt key_end arg a = check_end a.device_id a.device_secret a.product_id a
parse_opt key_no_args arg a = accept a
parse_opt key_other arg a = refuse a []
