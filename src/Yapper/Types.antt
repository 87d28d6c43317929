-- ===== src/Yapper/Types.antt =====
-- yapper/src/lib.rs and mod_parser.rs: the data that the daemon and the bot exchange.
-- `V` is `ComparableVersion` of the crate mvn_version, with its operations in `Versions`.
use Prim.Native.Nat.{Ordering}
use mind_craft.Base.{ℕ, Text, codes, text_eq, Bool, true, false, ◌||◌, Option, List, unwrap_or}

-- What the program uses of the crate mvn_version: `ComparableVersion::new`, `Ord::cmp`,
-- `==`, `to_string`.
pub record Versions (V : Type 0) : Type 0 where
  pub new : Text → V
  pub cmp : V → V → Ordering
  pub eq : V → V → Bool
  pub show : V → Text

-- `a <= b` and `a < b` of `PartialOrd`, which go through `cmp`.
abbrev pub ver_le : {V : Type 0} → Versions V → V → V → Bool
ver_le vs a b = elim (vs.cmp a b) [ Ordering.gt ↦ false | _ ↦ true ]

abbrev pub ver_lt : {V : Type 0} → Versions V → V → V → Bool
ver_lt vs a b = elim (vs.cmp a b) [ Ordering.lt ↦ true | _ ↦ false ]

unfoldable pub reserved_mod_id : Text → Bool
reserved_mod_id string = text_eq string (codes "minecraft") || text_eq string (codes "forge")

pub data Side : Type 0 where
  client server both : Side

-- `std::ops::Bound`.
pub data Bound (V : Type 0) : Type 0 where
  included : V → Bound V
  excluded : V → Bound V
  unbounded : Bound V

pub record ModDependency (V : Type 0) : Type 0 where
  pub mod_id : Text
  pub mandatory : Bool
  pub min_version : Bound V
  pub max_version : Bound V
  pub side : Side

pub record ModInfo (V : Type 0) : Type 0 where
  pub filename : Text
  pub path : Text
  pub mod_id : Text
  pub name : Option Text
  pub description : Option Text
  pub version : V
  pub logo : Option (List ℕ)
  pub url : Option Text
  pub credits : Option Text
  pub authors : Option (List Text)
  pub dependencies : List (ModDependency V)

-- `ModInfo::name`.
unfoldable pub mod_name : {V : Type 0} → ModInfo V → Text
mod_name info = unwrap_or info.name info.mod_id

pub data Status : Type 0 where
  idle starting running stopping backing_up restoring modding packaging : Status

pub data DepResolveMode : Type 0 where
  installation removal update : DepResolveMode

pub data DepState (V : Type 0) : Type 0 where
  not_installed : DepState V
  version_mismatch : V → DepState V
  already_installed : DepState V
  invalid_input : DepState V

pub data ServerCommand (V : Type 0) : Type 0 where
  start stop status reboot : ServerCommand V
  console : Text → ServerCommand V
  backup restore : ServerCommand V
  list_mods : ℕ → ℕ → ServerCommand V
  query_mod : Text → ServerCommand V
  install_mod : Text → Text → ServerCommand V
  uninstall_mod : Text → ServerCommand V
  update_mod : Text → Text → ServerCommand V
  generate_mods_zip : ServerCommand V
  resolve_deps : DepResolveMode → List (ModInfo V) → ServerCommand V

pub data NetCommand (V : Type 0) : Type 0 where
  list_servers : NetCommand V
  server_command : Text → ServerCommand V → NetCommand V
  notifications : NetCommand V

pub data ZipProgress : Type 0 where
  zipping : ℕ → ℕ → ZipProgress
  uploading : ℕ → ℕ → ZipProgress

pub data Notification : Type 0 where
  backup_failed : Text → Text → Notification
  restore_failed : Text → Text → Notification
  status_changed : Text → Status → Status → Notification
  backup_progress : Text → ℕ → ℕ → Notification
  restore_progress : Text → ℕ → ℕ → Notification
  zip_progress : Text → ZipProgress → Notification
  zip_failed : Text → Text → Notification
  zip_file : Text → Text → Notification

unfoldable pub is_backup_progress : Notification → Bool
is_backup_progress (backup_progress _ _ _) = true
is_backup_progress _ = false

unfoldable pub is_restore_progress : Notification → Bool
is_restore_progress (restore_progress _ _ _) = true
is_restore_progress _ = false

unfoldable pub is_package_progress : Notification → Bool
is_package_progress (zip_progress _ _) = true
is_package_progress _ = false

pub record ServerStatus : Type 0 where
  pub name : Text
  pub path : Text
  pub status : Status

pub data Response (V : Type 0) : Type 0 where
  ok err unknown_server invalid_state no_backup : Response V
  status : ServerStatus → Response V
  list : List ServerStatus → Response V
  command_output : Text → Response V
  notifications : List Notification → Response V
  mod_conflict no_such_mod : Response V
  mods : List (ModInfo V) → Bool → Response V
  mod_found : ModInfo V → Response V
  dep_unsatisfied : List (Text × DepState V) → Response V
  dep_satisfied : Response V

pub Status-discrete : Discrete Status
Status-discrete = hlevel

abbrev pub status_index : Status → ℕ
status_index idle = 0
status_index starting = 1
status_index running = 2
status_index stopping = 3
status_index backing_up = 4
status_index restoring = 5
status_index modding = 6
status_index packaging = 7
