-- ===== src/Config/Tests.antt =====
-- Equal at concrete inputs.
use phpeek_pm.Prelude.{◌≡◌, refl, ◌↔◌, true, false, [], ◌∷◌, pos, some, lookup}
use phpeek_pm.Config.{
  Process, Hook, ShutdownConfig, no_process, elements_equal, string_slice_equal, entries_in,
  string_map_equal, hook_equal, health_check_equal, shutdown_config_equal, equal,
}
use phpeek_pm.Config.Compared.{SameCompared, HasMaps, equal_iff}

runs : Unit {0}
unfolding lookup elements_equal string_slice_equal entries_in string_map_equal hook_equal
    health_check_equal shutdown_config_equal equal
runs = tt

abbrev hook : Hook
hook = record {
  name = "drain";
  command = "drain" ∷ [];
  timeout = pos 5;
  retry = pos 0;
  retry_delay = pos 0;
  continue_on_error = false;
  env = ("A", "1") ∷ ("B", "2") ∷ [];
  working_dir = "/";
}

abbrev shutdown_of : Hook → ShutdownConfig
shutdown_of h = record {
  signal = "SIGTERM";
  timeout = pos 30;
  kill_signal = "SIGKILL";
  graceful = true;
  pre_stop_hook = some h;
}

abbrev web : Process
web = record no_process {
  command = "serve" ∷ "80" ∷ [];
  scale = pos 2;
  shutdown = some (shutdown_of hook);
}

-- The order of a map does not count, nor does the user.
abbrev same_web : Process
same_web = record web {
  user = "www";
  shutdown = some (shutdown_of record hook { env = ("B", "2") ∷ ("A", "1") ∷ [] });
}

same : equal web same_web ≡ true
unfolding runs
same = refl

other : equal web (record web { command = "serve" ∷ "81" ∷ [] }) ≡ false
unfolding runs
other = refl

web-HasMaps : HasMaps web × HasMaps same_web
unfolding runs
web-HasMaps = ((tt, (refl, (refl, tt))), (tt, (refl, (refl, tt))))

equal_iff_example : (equal web same_web ≡ true) ↔ SameCompared web same_web
equal_iff_example = equal_iff web same_web web-HasMaps.0 web-HasMaps.1
