-- ===== src/Config/Compared.antt =====
-- Equal holds of two processes if and only if they agree in the fields that it compares.
use phpeek_pm.Prelude.{
  ◌≡◌, refl, subst, ◌↔◌, Bool, true, false, ◌&&◌, false_ne_true, eq_iff, Option, none, some,
  HasUniqueKeys,
}
use phpeek_pm.Config.{
  Hook, HealthCheck, ShutdownConfig, Process, option_equal, hook_equal, health_check_equal,
  shutdown_config_equal, equal,
}
use phpeek_pm.Config.Equality.{
  bool_eq_iff, int_eq_iff, string_slice_equal_iff, string_map_equal_iff, SameValues,
}

abbrev pub SameOption : {A : Type 0} → (A → A → Type 0) → Option A → Option A → Type 0
SameOption Same none none = Unit {0}
SameOption Same none (some b) = ⊥
SameOption Same (some a) none = ⊥
SameOption Same (some a) (some b) = Same a b

pub record SameHook (a b : Hook) : Type 0 where
  pub name : a.name ≡ b.name
  pub command : a.command ≡ b.command
  pub timeout : a.timeout ≡ b.timeout
  pub retry : a.retry ≡ b.retry
  pub retry_delay : a.retry_delay ≡ b.retry_delay
  pub continue_on_error : a.continue_on_error ≡ b.continue_on_error
  pub env : SameValues a.env b.env
  pub working_dir : a.working_dir ≡ b.working_dir

pub record SameShutdown (a b : ShutdownConfig) : Type 0 where
  pub signal : a.signal ≡ b.signal
  pub timeout : a.timeout ≡ b.timeout
  pub kill_signal : a.kill_signal ≡ b.kill_signal
  pub graceful : a.graceful ≡ b.graceful
  pub pre_stop_hook : SameOption SameHook a.pre_stop_hook b.pre_stop_hook

pub record SameHealthCheck (a b : HealthCheck) : Type 0 where
  pub type : a.type ≡ b.type
  pub address : a.address ≡ b.address
  pub url : a.url ≡ b.url
  pub command : a.command ≡ b.command
  pub initial_delay : a.initial_delay ≡ b.initial_delay
  pub period : a.period ≡ b.period
  pub timeout : a.timeout ≡ b.timeout
  pub failure_threshold : a.failure_threshold ≡ b.failure_threshold
  pub success_threshold : a.success_threshold ≡ b.success_threshold
  pub expected_status : a.expected_status ≡ b.expected_status
  pub mode : a.mode ≡ b.mode

-- Neither user, group, stdout, stderr, schedule_timeout nor schedule_max_concurrent is here.
pub record SameCompared (p q : Process) : Type 0 where
  pub enabled : p.enabled ≡ q.enabled
  pub type : p.type ≡ q.type
  pub initial_state : p.initial_state ≡ q.initial_state
  pub scale : p.scale ≡ q.scale
  pub max_scale : p.max_scale ≡ q.max_scale
  pub restart : p.restart ≡ q.restart
  pub working_dir : p.working_dir ≡ q.working_dir
  pub schedule : p.schedule ≡ q.schedule
  pub schedule_timezone : p.schedule_timezone ≡ q.schedule_timezone
  pub command : p.command ≡ q.command
  pub depends_on : p.depends_on ≡ q.depends_on
  pub env : SameValues p.env q.env
  pub health_check : SameOption SameHealthCheck p.health_check q.health_check
  pub shutdown : SameOption SameShutdown p.shutdown q.shutdown

-- The maps of a process are Go maps.
abbrev pub HookMap : Option Hook → Type 0
HookMap none = Unit {0}
HookMap (some a) = HasUniqueKeys a.env

abbrev pub ShutdownMap : Option ShutdownConfig → Type 0
ShutdownMap none = Unit {0}
ShutdownMap (some a) = HookMap a.pre_stop_hook

abbrev pub HasMaps : Process → Type 0
HasMaps p = HasUniqueKeys p.env × ShutdownMap p.shutdown

-- A test of a conjunction.
infixl 36 ◌and◌
◌and◌ : {P Q : Type 0} {a b : Bool} → (a ≡ true) ↔ P → (b ≡ true) ↔ Q → ((a && b) ≡ true) ↔ (P × Q)
◌and◌ {a} {b} p q = (λ h. forth a h (λ e. p.0 e) (λ e. q.0 e), λ (x, y). rw (p.1 x, q.1 y) refl)
  where
    forth :
        {P Q : Type 0} {b : Bool} (a : Bool)
        → (a && b) ≡ true
        → (a ≡ true → P)
        → (b ≡ true → Q)
        → P × Q
    forth true h f g = (f refl, g h)
    forth false h f g = absurd (false_ne_true h)

option_equal_iff :
    {A : Type 0} {equal : A → A → Bool} {Same : A → A → Type 0} (o o' : Option A)
    → ((a b : A) → o ≡ some a → o' ≡ some b → (equal a b ≡ true) ↔ Same a b)
    → (option_equal equal o o' ≡ true) ↔ SameOption Same o o'
option_equal_iff none none h = (λ e. tt, λ e. refl)
option_equal_iff none (some b) h = (λ e. absurd (false_ne_true e), λ e. absurd e)
option_equal_iff (some a) none h = (λ e. absurd (false_ne_true e), λ e. absurd e)
option_equal_iff (some a) (some b) h = h a b refl refl

hook_equal_iff :
    (a b : Hook)
    → HasUniqueKeys a.env
    → HasUniqueKeys b.env
    → (hook_equal a b ≡ true) ↔ SameHook a b
unfolding hook_equal
hook_equal_iff a b ua ub =
    let all =
      eq_iff a.name b.name
      and int_eq_iff a.timeout b.timeout
      and int_eq_iff a.retry b.retry
      and int_eq_iff a.retry_delay b.retry_delay
      and bool_eq_iff a.continue_on_error b.continue_on_error
      and eq_iff a.working_dir b.working_dir
      and string_slice_equal_iff a.command b.command
      and string_map_equal_iff a.env b.env ua ub in
    (
      λ h.
          let (
            (
              (
                ((((name_e, timeout_e), retry_e), retry_delay_e), continue_on_error_e),
                working_dir_e,
              ),
              command_e,
            ),
            env_e,
          ) =
            all.0 h in
          record {
            name = name_e;
            timeout = timeout_e;
            retry = retry_e;
            retry_delay = retry_delay_e;
            continue_on_error = continue_on_error_e;
            working_dir = working_dir_e;
            command = command_e;
            env = env_e;
          },
      λ s. all.1 (
        (
          (((((s.name, s.timeout), s.retry), s.retry_delay), s.continue_on_error), s.working_dir),
          s.command,
        ),
        s.env,
      ),
    )

health_check_equal_iff : (a b : HealthCheck) → (health_check_equal a b ≡ true) ↔ SameHealthCheck a b
unfolding health_check_equal
health_check_equal_iff a b =
    let all =
      eq_iff a.type b.type
      and eq_iff a.address b.address
      and eq_iff a.url b.url
      and int_eq_iff a.initial_delay b.initial_delay
      and int_eq_iff a.period b.period
      and int_eq_iff a.timeout b.timeout
      and int_eq_iff a.failure_threshold b.failure_threshold
      and int_eq_iff a.success_threshold b.success_threshold
      and int_eq_iff a.expected_status b.expected_status
      and eq_iff a.mode b.mode
      and string_slice_equal_iff a.command b.command in
    (
      λ h.
          let (
            (
              (
                (
                  (
                    (((((type_e, address_e), url_e), initial_delay_e), period_e), timeout_e),
                    failure_threshold_e,
                  ),
                  success_threshold_e,
                ),
                expected_status_e,
              ),
              mode_e,
            ),
            command_e,
          ) =
            all.0 h in
          record {
            type = type_e;
            address = address_e;
            url = url_e;
            initial_delay = initial_delay_e;
            period = period_e;
            timeout = timeout_e;
            failure_threshold = failure_threshold_e;
            success_threshold = success_threshold_e;
            expected_status = expected_status_e;
            mode = mode_e;
            command = command_e;
          },
      λ s. all.1 (
        (
          (
            (
              (
                (((((s.type, s.address), s.url), s.initial_delay), s.period), s.timeout),
                s.failure_threshold,
              ),
              s.success_threshold,
            ),
            s.expected_status,
          ),
          s.mode,
        ),
        s.command,
      ),
    )

shutdown_config_equal_iff :
    (a b : ShutdownConfig)
    → HookMap a.pre_stop_hook
    → HookMap b.pre_stop_hook
    → (shutdown_config_equal a b ≡ true) ↔ SameShutdown a b
unfolding shutdown_config_equal
shutdown_config_equal_iff a b ua ub =
    let all =
      eq_iff a.signal b.signal
      and int_eq_iff a.timeout b.timeout
      and eq_iff a.kill_signal b.kill_signal
      and bool_eq_iff a.graceful b.graceful
      and option_equal_iff a.pre_stop_hook b.pre_stop_hook
          (λ x y at_x at_y. hook_equal_iff x y (subst HookMap at_x ua) (subst HookMap at_y ub)) in
    (
      λ h.
          let ((((signal_e, timeout_e), kill_signal_e), graceful_e), pre_stop_hook_e) = all.0 h in
          record {
            signal = signal_e;
            timeout = timeout_e;
            kill_signal = kill_signal_e;
            graceful = graceful_e;
            pre_stop_hook = pre_stop_hook_e;
          },
      λ s. all.1 ((((s.signal, s.timeout), s.kill_signal), s.graceful), s.pre_stop_hook),
    )

-- Equal holds of two processes if and only if they have the same values in all the fields but user, group,
-- stdout, stderr, schedule_timeout and schedule_max_concurrent: their maps have the same entries, and
-- their health checks, shutdowns and hooks agree in each field.
pub equal_iff : (a b : Process) → HasMaps a → HasMaps b → (equal a b ≡ true) ↔ SameCompared a b
unfolding equal
equal_iff a b ua ub =
    let all =
      bool_eq_iff a.enabled b.enabled
      and eq_iff a.type b.type
      and eq_iff a.initial_state b.initial_state
      and int_eq_iff a.scale b.scale
      and int_eq_iff a.max_scale b.max_scale
      and eq_iff a.restart b.restart
      and eq_iff a.working_dir b.working_dir
      and eq_iff a.schedule b.schedule
      and eq_iff a.schedule_timezone b.schedule_timezone
      and string_slice_equal_iff a.command b.command
      and string_slice_equal_iff a.depends_on b.depends_on
      and string_map_equal_iff a.env b.env ua.0 ub.0
      and option_equal_iff a.health_check b.health_check
          (λ x y at_x at_y. health_check_equal_iff x y)
      and option_equal_iff a.shutdown b.shutdown (λ x y at_x at_y.
        shutdown_config_equal_iff x y (subst ShutdownMap at_x ua.1)
          (subst ShutdownMap at_y ub.1)) in
    (
      λ h.
          let (
            (
              (
                (
                  (
                    (
                      (
                        (
                          (
                            ((((enabled_e, type_e), initial_state_e), scale_e), max_scale_e),
                            restart_e,
                          ),
                          working_dir_e,
                        ),
                        schedule_e,
                      ),
                      schedule_timezone_e,
                    ),
                    command_e,
                  ),
                  depends_on_e,
                ),
                env_e,
              ),
              health_check_e,
            ),
            shutdown_e,
          ) =
            all.0 h in
          record {
            enabled = enabled_e;
            type = type_e;
            initial_state = initial_state_e;
            scale = scale_e;
            max_scale = max_scale_e;
            restart = restart_e;
            working_dir = working_dir_e;
            schedule = schedule_e;
            schedule_timezone = schedule_timezone_e;
            command = command_e;
            depends_on = depends_on_e;
            env = env_e;
            health_check = health_check_e;
            shutdown = shutdown_e;
          },
      λ s. all.1 (
        (
          (
            (
              (
                (
                  (
                    (
                      (((((s.enabled, s.type), s.initial_state), s.scale), s.max_scale), s.restart),
                      s.working_dir,
                    ),
                    s.schedule,
                  ),
                  s.schedule_timezone,
                ),
                s.command,
              ),
              s.depends_on,
            ),
            s.env,
          ),
          s.health_check,
        ),
        s.shutdown,
      ),
    )
