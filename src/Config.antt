-- ===== src/Config.antt =====
-- internal/config/types.go: the configuration of a process, and Equal, by which a reload finds out what
-- has changed. Logging and Heartbeat, which the modelled code hands on, are left out.
mod Tests
mod OverrideTests
pub mod Override
pub mod Nested
pub mod Matching
pub mod Names
pub mod Expand
pub mod Expanded
pub mod Equality
pub mod Compared
use phpeek_pm.Prelude.{
  ℕ, Bool, true, false, ◌&&◌, if◌then◌else◌, List, [], ◌∷◌, String, str_eq, ℤ, pos, neg_part,
  pos_part, length, ◌==◌, Option, none, some, lookup,
}

pub record Hook : Type 0 where
  pub name : String
  pub command : List String
  pub timeout : ℤ
  pub retry : ℤ
  pub retry_delay : ℤ
  pub continue_on_error : Bool
  pub env : List (String × String)
  pub working_dir : String

pub record HealthCheck : Type 0 where
  pub type : String
  pub address : String
  pub url : String
  pub command : List String
  pub initial_delay : ℤ
  pub period : ℤ
  pub timeout : ℤ
  pub failure_threshold : ℤ
  pub success_threshold : ℤ
  pub expected_status : ℤ
  pub mode : String

pub record ShutdownConfig : Type 0 where
  pub signal : String
  pub timeout : ℤ
  pub kill_signal : String
  pub graceful : Bool
  pub pre_stop_hook : Option Hook

pub record Process : Type 0 where
  pub enabled : Bool
  pub type : String
  pub initial_state : String
  pub command : List String
  pub working_dir : String
  pub user : String
  pub group : String
  pub stdout : Option Bool
  pub stderr : Option Bool
  pub restart : String
  pub scale : ℤ
  pub max_scale : ℤ
  pub depends_on : List String
  pub env : List (String × String)
  pub health_check : Option HealthCheck
  pub shutdown : Option ShutdownConfig
  pub schedule : String
  pub schedule_timezone : String
  pub schedule_timeout : String
  pub schedule_max_concurrent : ℤ

-- The zero value.
abbrev pub no_process : Process
no_process = record {
  enabled = false;
  type = "";
  initial_state = "";
  command = [];
  working_dir = "";
  user = "";
  group = "";
  stdout = none;
  stderr = none;
  restart = "";
  scale = pos 0;
  max_scale = pos 0;
  depends_on = [];
  env = [];
  health_check = none;
  shutdown = none;
  schedule = "";
  schedule_timezone = "";
  schedule_timeout = "";
  schedule_max_concurrent = pos 0;
}

abbrev pub bool_eq : Bool → Bool → Bool
bool_eq true true = true
bool_eq true false = false
bool_eq false true = false
bool_eq false false = true

abbrev pub int_eq : ℤ → ℤ → Bool
int_eq a b = pos_part a == pos_part b && neg_part a == neg_part b

-- The loop of stringSliceEqual, which has compared the lengths before.
unfoldable pub elements_equal : List String → List String → Bool
elements_equal [] b = true
elements_equal (x ∷ a) [] = false
elements_equal (x ∷ a) (y ∷ b) = str_eq x y && elements_equal a b

unfoldable pub string_slice_equal : List String → List String → Bool
unfolding elements_equal
string_slice_equal a b = length a == length b && elements_equal a b

abbrev pub has_value : String → Option String → Bool
has_value v none = false
has_value v (some w) = str_eq w v

-- The loop of stringMapEqual.
unfoldable pub entries_in : List (String × String) → List (String × String) → Bool
entries_in [] b = true
entries_in ((k, v) ∷ a) b = has_value v (lookup k b) && entries_in a b

unfoldable pub string_map_equal : List (String × String) → List (String × String) → Bool
unfolding entries_in
string_map_equal a b = length a == length b && entries_in a b

-- Two pointers, either of which may be nil.
abbrev pub option_equal : {A : Type 0} → (A → A → Bool) → Option A → Option A → Bool
option_equal equal none none = true
option_equal equal none (some b) = false
option_equal equal (some a) none = false
option_equal equal (some a) (some b) = equal a b

unfoldable pub hook_equal : Hook → Hook → Bool
hook_equal a b =
    str_eq a.name b.name
    && int_eq a.timeout b.timeout
    && int_eq a.retry b.retry
    && int_eq a.retry_delay b.retry_delay
    && bool_eq a.continue_on_error b.continue_on_error
    && str_eq a.working_dir b.working_dir
    && string_slice_equal a.command b.command
    && string_map_equal a.env b.env

unfoldable pub health_check_equal : HealthCheck → HealthCheck → Bool
health_check_equal a b =
    str_eq a.type b.type
    && str_eq a.address b.address
    && str_eq a.url b.url
    && int_eq a.initial_delay b.initial_delay
    && int_eq a.period b.period
    && int_eq a.timeout b.timeout
    && int_eq a.failure_threshold b.failure_threshold
    && int_eq a.success_threshold b.success_threshold
    && int_eq a.expected_status b.expected_status
    && str_eq a.mode b.mode
    && string_slice_equal a.command b.command

unfoldable pub shutdown_config_equal : ShutdownConfig → ShutdownConfig → Bool
shutdown_config_equal a b =
    str_eq a.signal b.signal
    && int_eq a.timeout b.timeout
    && str_eq a.kill_signal b.kill_signal
    && bool_eq a.graceful b.graceful
    && option_equal hook_equal a.pre_stop_hook b.pre_stop_hook

-- Equal of two processes that are not nil.
unfoldable pub equal : Process → Process → Bool
equal p q =
    bool_eq p.enabled q.enabled
    && str_eq p.type q.type
    && str_eq p.initial_state q.initial_state
    && int_eq p.scale q.scale
    && int_eq p.max_scale q.max_scale
    && str_eq p.restart q.restart
    && str_eq p.working_dir q.working_dir
    && str_eq p.schedule q.schedule
    && str_eq p.schedule_timezone q.schedule_timezone
    && string_slice_equal p.command q.command
    && string_slice_equal p.depends_on q.depends_on
    && string_map_equal p.env q.env
    && option_equal health_check_equal p.health_check q.health_check
    && option_equal shutdown_config_equal p.shutdown q.shutdown
